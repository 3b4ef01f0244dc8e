-- ===== src/Lua/RoundTrip.antt =====
-- language_lua.c: what becomes of a value that goes to Lua's stack and comes back.
use cagekeeper.Prelude.{
  ℕ, zero, suc, ◌<◌, ◌≡◌, refl, sym, ap, ◌∙◌, true, Bool-cases, inl, inr, List, [], ◌∷◌, arith,
}
use cagekeeper.Binding.{
  converted, pointer_to, pointer_list, IsShared, AreShared, copies_of_list-pointer_list,
}
use cagekeeper.Function.Values.{copied_array}
use cagekeeper.Lua.Contents.{
  Content, no_value, number, truth, text, table, Contents, empty, content_and, join, entries, entry,
  join-empty, join_assoc, entries-join, entry-join, entry-behind, is_no_value, is_truth, is_table,
  is_number, is_string, Numerals, IsLua,
}
use cagekeeper.Lua.Values.{Lua, push_value, to_array, lua_tests, at_entry, lua_to_value, table_from}
use cagekeeper.Value.{
  Value, Items, void, float32, int32, boolean, string, array, function, nil, cons,
}
use cagekeeper.Lua.Pushing.{
  content, contents, lua_form, lua_forms, rounds, rounds_items, until_nil-goes_on, until_nil-ends,
  Any, entries_empty, shows_value,
}

module _ {L : Type 0} (lua : Lua L) (n : Numerals) (laws : IsLua lua n) where
  -- What the loop reads next: the entry with the key `i`, on the top.
  read_next :
      (l : L) (i : ℕ) (es : Contents) (cs : List Content)
      → laws.Shows l (table es ∷ cs)
      → laws.Shows (lua.gettable 2 (lua.pushinteger i l)) (entry es i ∷ table es ∷ cs)
  read_next l i es cs s =
      laws.gettable_lem (lua.pushinteger i l) i es cs (laws.pushinteger_lem l i (table es ∷ cs) s)

  abbrev IsBack : Value → ℕ → L → List Content → Type 0
  IsBack v f l cs =
      (l' : L) × (lua_to_value lua f 1 l ≡ converted (pointer_to (lua_form n v), l'))
      × laws.Shows l' (content n v ∷ cs)

  abbrev AreBack : Items → ℕ → ℕ → Contents → L → List Content → Type 0
  AreBack vs f i es l cs =
      (l' : L) × (table_from lua f 1 i l ≡ converted (pointer_list (lua_forms n vs), l'))
      × laws.Shows l' (table es ∷ cs)

  -- The end of the loop, where the entry is nil.
  loop_ends :
      (f i : ℕ) (es : Contents) (l : L) (cs : List Content)
      → is_no_value (entry es i) ≡ true
      → laws.Shows l (table es ∷ cs)
      → (l' : L) × (table_from lua (suc f) 1 i l ≡ converted ([], l'))
        × laws.Shows l' (table es ∷ cs)
  unfolding lua_to_value at_entry
  loop_ends f i es l cs h s =
      let l₁ = lua.gettable 2 (lua.pushinteger i l) in
      let s₁ = read_next l i es cs s in
      (
        lua.pop 1 l₁,
        rw (laws.isnil_lem l₁ (entry es i) (table es ∷ cs) s₁, h) refl,
        laws.pop_lem l₁ (entry es i) (table es ∷ cs) s₁,
      )

  mutual
    unfolding content lua_form IsShared rounds lua_to_value lua_tests at_entry to_array pointer_to
        pointer_list is_no_value is_truth is_number is_string is_table join

    value-IsBack :
        (v : Value) (f : ℕ) (l : L) (cs : List Content)
        → rounds v < f
        → IsShared Any v
        → laws.Shows l (content n v ∷ cs)
        → IsBack v f l cs
    value-IsBack v zero l cs lt h s = absurd (omega arith)
    value-IsBack void (suc f) l cs lt h s =
        (l, rw (laws.top l no_value cs s, laws.isnoneornil_lem l no_value cs s) refl, s)
    value-IsBack (float32 x) (suc f) l cs lt h s =
        let c = number (n.of_float x) in
        (
          l,
          rw
              (
                laws.top l c cs s,
                laws.isnoneornil_lem l c cs s,
                laws.isboolean_lem l c cs s,
                laws.isnumber_lem l c cs s,
                laws.tonumber_lem l (n.of_float x) cs s,
                n.to_float-of_float x,
              )
              refl,
          s,
        )
    value-IsBack (int32 i) (suc f) l cs lt h s =
        let c = number (n.of_int i) in
        (
          l,
          rw
              (
                laws.top l c cs s,
                laws.isnoneornil_lem l c cs s,
                laws.isboolean_lem l c cs s,
                laws.isnumber_lem l c cs s,
                laws.tonumber_lem l (n.of_int i) cs s,
              )
              refl,
          s,
        )
    value-IsBack (boolean b) (suc f) l cs lt h s =
        let c = truth b in
        (
          l,
          rw
              (
                laws.top l c cs s,
                laws.isnoneornil_lem l c cs s,
                laws.isboolean_lem l c cs s,
                laws.toboolean_lem l b cs s,
              )
              refl,
          s,
        )
    value-IsBack (string t) (suc f) l cs lt h s =
        let c = text t in
        elim (Bool-cases (n.numeric t)) [
          | inl e ↦ (
            l,
            rw
                (
                  laws.top l c cs s,
                  laws.isnoneornil_lem l c cs s,
                  laws.isboolean_lem l c cs s,
                  laws.isnumber_lem l c cs s,
                  e,
                  laws.tonumber-text l t cs s e,
                )
                refl,
            s,
          )
          | inr e ↦ (
            l,
            rw
                (
                  laws.top l c cs s,
                  laws.isnoneornil_lem l c cs s,
                  laws.isboolean_lem l c cs s,
                  laws.isnumber_lem l c cs s,
                  e,
                  laws.isstring_lem l c cs s,
                  laws.tostring_lem l t cs s,
                )
                refl,
            s,
          )
        ]
    value-IsBack (array vs) (suc f) l cs lt h s =
        let c = table (contents n vs) in
        let (l', each, s') =
          entries-AreBack vs f 0 empty l cs (omega arith) h (sym entries_empty) s in
        (
          l',
          rw
              (
                laws.top l c cs s,
                laws.isnoneornil_lem l c cs s,
                laws.isboolean_lem l c cs s,
                laws.isnumber_lem l c cs s,
                laws.isstring_lem l c cs s,
                laws.istable_lem l c cs s,
                each,
              )
              (ap (λ x. converted (copied_array x, l'))
                (copies_of_list-pointer_list (lua_forms n vs))),
          s',
        )
    value-IsBack (function p a) (suc f) l cs lt h s = elim h [ ]

    entries-AreBack :
        (vs : Items) (f i : ℕ) (es : Contents) (l : L) (cs : List Content)
        → rounds_items vs < f
        → AreShared Any vs
        → i ≡ entries es
        → laws.Shows l (table (join es (contents n vs)) ∷ cs)
        → AreBack vs f i (join es (contents n vs)) l cs
    entries-AreBack vs zero i es l cs lt h e s = absurd (omega arith)
    entries-AreBack nil (suc f) i es l cs lt h e s =
        let behind : is_no_value (entry (join es empty) i) ≡ true =
          rw (join-empty es, e, entry-behind es) refl in
        loop_ends f i (join es empty) l cs behind s
    entries-AreBack (cons v vs) (suc f) i es l cs lt h e s =
        let c = content n v in
        let all = join es (content_and c (contents n vs)) in
        let here : entry all i ≡ c = rw e (entry-join es (contents n vs) c) in
        elim (Bool-cases (is_no_value c)) [
          | inl ends ↦
              rw (until_nil-ends c (lua_form n v) (lua_forms n vs) ends)
                (loop_ends f i all l cs (rw (here, ends) refl) s)
          | inr goes_on ↦
              let l₁ = lua.gettable 2 (lua.pushinteger i l) in
              let s₁ : laws.Shows l₁ (c ∷ table all ∷ cs) = rw here at (read_next l i all cs s) in
              let (l₂, back, s₂) = value-IsBack v f l₁ (table all ∷ cs) (omega arith) h.0 s₁ in
              let again : all ≡ join (join es (content_and c empty)) (contents n vs) =
                sym (join_assoc es (content_and c empty) (contents n vs)) in
              let s₃ : laws.Shows (lua.pop 1 l₂)
                  (table (join (join es (content_and c empty)) (contents n vs)) ∷ cs) =
                rw again at (laws.pop_lem l₂ c (table all ∷ cs) s₂) in
              let (l₃, rest, s₄) =
                entries-AreBack vs f (suc i) (join es (content_and c empty)) (lua.pop 1 l₂) cs
                  (omega arith) h.1 (ap suc e ∙ sym (entries-join es c)) s₃ in
              (
                l₃,
                rw
                    (
                      laws.isnil_lem l₁ c (table all ∷ cs) s₁,
                      goes_on,
                      back,
                      rest,
                      until_nil-goes_on c (lua_form n v) (lua_forms n vs) goes_on,
                    )
                    refl,
                rw (← again) at s₄,
              )
        ]

  -- With a library that does what is documented of it, a value without functions whose strings are C
  -- strings comes back from Lua's stack, with a unit of fuel for each table and each entry: numbers as
  -- floats, texts that Lua reads as numbers as floats too, and arrays up to their first void value.
  -- The stack then holds the value above what it held before.
  pub lua_to_value-push_value :
      (v : Value) (f : ℕ) (l : L) (cs : List Content)
      → rounds v < f
      → IsShared Any v
      → laws.Shows l cs
      → (l' : L) × (lua_to_value lua f 1 (push_value lua v l)
          ≡ converted (pointer_to (lua_form n v), l'))
        × laws.Shows l' (content n v ∷ cs)
  lua_to_value-push_value v f l cs lt h s =
      value-IsBack v f (push_value lua v l) cs lt h (shows_value lua n laws v l cs h s)
