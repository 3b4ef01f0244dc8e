-- ===== src/Lua/Pushing.antt =====
-- language_lua.c: what Lua's stack shows of a value that is pushed, and what comes back of it.
use cagekeeper.Prelude.{ℕ, suc, ◌+◌, ◌≡◌, refl, sym, ap, ◌∙◌, true, false, List, ◌∷◌, if◌then◌else◌}
use cagekeeper.Binding.{IsShared, AreShared}
use cagekeeper.Lua.Contents.{
  Content, no_value, number, truth, text, table, Contents, empty, content_and, join, entries,
  join-empty, join_assoc, entries-join, is_no_value, Numerals, IsLua,
}
use cagekeeper.Lua.Values.{Lua, push_value, push_entries}
use cagekeeper.Value.{
  Value, Items, void, float32, int32, boolean, string, array, function, nil, cons,
}

-- What Lua holds of a value.
unfoldable mutual
  pub content : Numerals → Value → Content
  content n void = no_value
  content n (float32 f) = number (n.of_float f)
  content n (int32 i) = number (n.of_int i)
  content n (boolean b) = truth b
  content n (string s) = text s
  content n (array vs) = table (contents n vs)
  content n (function p a) = no_value

  pub contents : Numerals → Items → Contents
  contents n nil = empty
  contents n (cons v vs) = content_and (content n v) (contents n vs)

unfoldable pub until_nil : Content → Value → Items → Items
until_nil no_value v vs = nil
until_nil _ v vs = cons v vs

-- What comes back: a number is a float, also where it was a text, and an array ends before its first
-- void value.
unfoldable mutual
  unfolding content until_nil

  pub lua_form : Numerals → Value → Value
  lua_form n void = void
  lua_form n (float32 f) = float32 f
  lua_form n (int32 i) = float32 (n.to_float (n.of_int i))
  lua_form n (boolean b) = boolean b
  lua_form n (string s) = if n.numeric s then float32 (n.to_float (n.parsed s)) else string s
  lua_form n (array vs) = array (lua_forms n vs)
  lua_form n (function p a) = void

  pub lua_forms : Numerals → Items → Items
  lua_forms n nil = nil
  lua_forms n (cons v vs) = until_nil (content n v) (lua_form n v) (lua_forms n vs)

-- A unit of fuel for each table and each entry.
unfoldable mutual
  pub rounds : Value → ℕ
  rounds void = 0
  rounds (float32 f) = 0
  rounds (int32 i) = 0
  rounds (boolean b) = 0
  rounds (string s) = 0
  rounds (array vs) = suc (rounds_items vs)
  rounds (function p a) = 0

  pub rounds_items : Items → ℕ
  rounds_items nil = 0
  rounds_items (cons v vs) = suc (rounds v + rounds_items vs)

pub until_nil-goes_on :
    (c : Content) (v : Value) (vs : Items) → is_no_value c ≡ false → until_nil c v vs ≡ cons v vs
unfolding until_nil is_no_value
until_nil-goes_on no_value v vs h = absurd cc
until_nil-goes_on (number d) v vs h = refl
until_nil-goes_on (truth b) v vs h = refl
until_nil-goes_on (text s) v vs h = refl
until_nil-goes_on (table cs) v vs h = refl

pub until_nil-ends :
    (c : Content) (v : Value) (vs : Items) → is_no_value c ≡ true → until_nil c v vs ≡ nil
unfolding until_nil is_no_value
until_nil-ends no_value v vs h = refl
until_nil-ends (number d) v vs h = absurd cc
until_nil-ends (truth b) v vs h = absurd cc
until_nil-ends (text s) v vs h = absurd cc
until_nil-ends (table cs) v vs h = absurd cc

abbrev pub Any : ℕ → Type 0
Any i = Unit

pub entries_empty : entries empty ≡ 0
unfolding entries
entries_empty = refl

module _ {L : Type 0} (lua : Lua L) (n : Numerals) (laws : IsLua lua n) where
  mutual
    unfolding push_value content IsShared join

    pub shows_value :
        (v : Value) (l : L) (cs : List Content)
        → IsShared Any v
        → laws.Shows l cs
        → laws.Shows (push_value lua v l) (content n v ∷ cs)
    shows_value void l cs h s = laws.pushnil_lem l cs s
    shows_value (float32 f) l cs h s = laws.pushnumber_lem l f cs s
    shows_value (int32 i) l cs h s = laws.pushinteger_lem l i cs s
    shows_value (boolean b) l cs h s = laws.pushboolean_lem l b cs s
    shows_value (string t) l cs h s = laws.pushstring_lem l t cs h s
    shows_value (array vs) l cs h s =
        shows_entries vs 0 empty (lua.newtable l) cs h (sym entries_empty)
          (laws.newtable_lem l cs s)
    shows_value (function p a) l cs h s = elim h [ ]

    pub shows_entries :
        (vs : Items) (i : ℕ) (es : Contents) (l : L) (cs : List Content)
        → AreShared Any vs
        → i ≡ entries es
        → laws.Shows l (table es ∷ cs)
        → laws.Shows (push_entries lua i vs l) (table (join es (contents n vs)) ∷ cs)
    shows_entries nil i es l cs h e s = rw (join-empty es) s
    shows_entries (cons v vs) i es l cs h e s =
        let key = laws.pushinteger_lem l i (table es ∷ cs) s in
        let pair : laws.Shows (push_value lua v (lua.pushinteger i l))
            (content n v ∷ number (n.of_int (entries es)) ∷ table es ∷ cs) =
          rw (← e)
            (shows_value v (lua.pushinteger i l) (number (n.of_int i) ∷ table es ∷ cs) h.0 key) in
        let stored =
          laws.settable_lem (push_value lua v (lua.pushinteger i l)) (content n v) es cs pair in
        rw (← join_assoc es (content_and (content n v) empty) (contents n vs)) (
          shows_entries vs (suc i) (join es (content_and (content n v) empty))
            (lua.settable 3 (push_value lua v (lua.pushinteger i l))) cs h.1
            (ap suc e ∙ sym (entries-join es (content n v))) stored)
