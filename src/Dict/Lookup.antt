-- ===== src/Dict/Lookup.antt =====
-- `dict_do_lookup`, `dict_lookup` and `dict_contains`: what they answer, and what they keep.
use cagekeeper.Prelude.{
  ℕ, suc, ◌*◌, ◌<◌, ◌≡◌, ◌↔◌, refl, sym, ap, ◌∙◌, true, Bool-cases, inl, inr, Option, Option-cases,
  none, some, List, [], ◌∷◌, arith, leb, ◌==◌, ==_iff,
}
use cagekeeper.Dict.Chain.{weight, count-eq-zero, count-le-length, find, hit, count, find_last-find}
use cagekeeper.Dict.Defs.{
  HashType, IsLawful, Entry, Dict, hashsize, dict_expand, new_size, search_slot, search_chain,
  dict_do_lookup, dict_lookup, dict_contains,
}
use cagekeeper.Dict.Sizes.{new_size_lem}
use cagekeeper.Dict.Expand.{Grown, dict_expand-Grown}
use cagekeeper.Dict.Placed.{
  IsValid, IsUnique, chain_of, value_of, view, flatten-chain_of, hashsize_pos,
}
use cagekeeper.Dict.Reorder.{KeepsFind, Searched, Keeps-refl, search_rest-Searched}
use mathlib.Core.List.{flatten}

abbrev pub get_or_null {ℓ} : {V : Type ℓ} → V → Option V → V
get_or_null null none = null
get_or_null null (some v) = v

value_or-found {ℓ} :
    {K V : Type ℓ} (null : V) (a b : Option (Entry K V))
    → a ≡ b
    → (elim a [ none ↦ null | some x ↦ x.value ]) ≡ get_or_null null (value_of b)
value_or-found null none b e = ground arith
value_or-found null (some x) b e = ground arith

module _ {ℓ} {K V : Type ℓ} (t : HashType K) (lawful : IsLawful t) where
  -- The table is left alone, and the first entry is the answer.
  hit_first :
      (h : Dict K V) (key : K) (e : Entry K V) (c : List (Entry K V))
      → IsValid t h
      → chain_of t h key ≡ e ∷ c
      → t.equals e.key key ≡ true
      → Searched t lawful h key (some e, h)
  hit_first h key e c v chain y = record {
    keeps = Keeps-refl t lawful h v;
    finds = λ q once. refl;
    found = λ once. rw chain (unfold find in rw y);
    hits = λ x same.
        let e≡x : e ≡ x = cc in
        (
          rw (← e≡x) y,
          rw ((flatten-chain_of t lawful h v.placed key).1, chain)
              (unfold count weight in rw y (omega arith)),
        );
    misses = λ h'. cc;
  }

  -- The table is left alone, and there is no entry under the key.
  miss_all :
      (h : Dict K V) (key : K)
      → IsValid t h
      → count t key (chain_of t h key) ≡ 0
      → Searched t lawful h key (none, h)
  miss_all h key v z = record {
    keeps = Keeps-refl t lawful h v;
    finds = λ q once. refl;
    found = λ once. sym (count-eq-zero t key (chain_of t h key) z).0;
    hits = λ e h'. cc;
    misses = λ _. (flatten-chain_of t lawful h v.placed key).1 ∙ z;
  }

  search_slot-Searched :
      (h : Dict K V) (key : K) (c : List (Entry K V))
      → IsValid t h
      → 0 < hashsize h
      → chain_of t h key ≡ c
      → Searched t lawful h key (search_slot t h key c)
  unfolding search_slot
  search_slot-Searched h key [] v pos chain =
      miss_all h key v (rw chain (unfold count weight in refl))
  search_slot-Searched h key (e ∷ c) v pos chain = elim (Bool-cases (t.equals e.key key)) [
    | inl y ↦ rw y (hit_first h key e c v chain y)
    | inr n ↦ rw n (search_rest-Searched t lawful h key e c v pos chain n)
  ]

  -- A search in a grown table, seen from the table before.
  Searched-Grown :
      (h h' : Dict K V) (n : ℕ) (key : K) (r : Option (Entry K V) × Dict K V)
      → IsValid t h
      → h'.num ≡ h.num
      → Grown t h h' n
      → Searched t lawful h' key r
      → Searched t lawful h key r
  Searched-Grown h h' n key r v num g s =
      let once : (q : K) → count t q (flatten h'.slots) ≡ count t q (flatten h.slots) =
        λ q. unfold count in sym (g.same (hit t q)) in
      let before : KeepsFind t lawful h h' = λ q one.
        g.turned q
        ∙ find_last-find t q (chain_of t h q)
            (rw (flatten-chain_of t lawful h v.placed q).1 at one) in
      record {
        keeps = record {
          valid = s.keeps.valid;
          num = s.keeps.num ∙ num;
          same = λ w. g.same w ∙ s.keeps.same w;
        };
        finds = λ q one. s.finds q (rw (once q) one) ∙ before q one;
        found = λ one. s.found (rw (once key) one) ∙ before key one;
        hits = λ e z. ((s.hits e z).0, rw (sym (once key)) (s.hits e z).1);
        misses = λ none_found. sym (once key) ∙ s.misses none_found;
      }

  search_chain-Searched :
      (h : Dict K V) (key : K) (c : List (Entry K V))
      → IsValid t h
      → 0 < hashsize h
      → chain_of t h key ≡ c
      → Searched t lawful h key (search_chain t h key c)
  unfolding search_chain
  search_chain-Searched h key [] v pos chain =
      miss_all h key v (rw chain (unfold count weight in refl))
  search_chain-Searched h key (e ∷ []) v pos chain = elim (Bool-cases (t.equals e.key key)) [
    | inl y ↦ rw y (hit_first h key e [] v chain y)
    | inr n ↦ rw n (miss_all h key v (rw chain (unfold count weight in rw n refl)))
  ]
  search_chain-Searched h key (e ∷ e' ∷ c) v pos chain = elim (Bool-cases (t.equals e.key key)) [
    | inl y ↦ rw y (hit_first h key e (e' ∷ c) v chain y)
    | inr n ↦ elim (Bool-cases (leb (hashsize h * 2) (h.num * 3))) [
      | inl full ↦
          let size = new_size (suc (h.num * 2)) h.num (hashsize h) in
          let big : 0 < size = omega (arith, new_size_lem (suc (h.num * 2)) h.num (hashsize h)) in
          let g = dict_expand-Grown t lawful h size v big in
          rw (n, full)
            (Searched-Grown h (dict_expand h size) size key _ v (unfold dict_expand in refl) g
              (search_slot-Searched (dict_expand h size) key _ g.valid (rw g.size big) refl))
      | inr room ↦ rw (n, room) (search_rest-Searched t lawful h key e (e' ∷ c) v pos chain n)
    ]
  ]

  -- A search of a valid table leaves a valid table with the same entries. It answers an entry under
  -- the key, or there is none; where keys occur once it answers the key's entry, and every key finds
  -- afterwards what it found before.
  pub dict_do_lookup-Searched :
      (h : Dict K V) (key : K) → IsValid t h → Searched t lawful h key (dict_do_lookup t h key)
  unfolding dict_do_lookup
  dict_do_lookup-Searched h key v = elim (Bool-cases (h.num == 0)) [
    | inl z ↦ rw z (
        miss_all h key v (
          omega (
            arith,
            v.counted,
            (flatten-chain_of t lawful h v.placed key).1,
            count-le-length t key (flatten h.slots),
            (==_iff h.num 0).0 z,
          )))
    | inr n ↦
        rw n (search_chain-Searched h key (chain_of t h key) v (hashsize_pos t lawful h v n) refl)
  ]

  -- In a valid table whose keys occur once `dict_lookup` answers the value that the table holds
  -- under the key, or the null pointer, and the table stays valid and holds the same values.
  pub dict_lookup-view :
      (null : V) (h : Dict K V) (key : K)
      → IsValid t h
      → IsUnique t h
      → ((dict_lookup t null h key).0 ≡ get_or_null null (view t h key))
        × ((q : K) → view t (dict_lookup t null h key).1 q ≡ view t h q)
        × IsValid t (dict_lookup t null h key).1
        × IsUnique t (dict_lookup t null h key).1
  unfolding dict_lookup view count
  dict_lookup-view null h key v once =
      let s = dict_do_lookup-Searched h key v in
      (
        value_or-found null _ _ (s.found (once key)),
        λ q. ap value_of (s.finds q (once q)),
        s.keeps.valid,
        λ q. rw (sym (s.keeps.same (hit t q))) (once q),
      )

  -- `dict_contains` answers whether the valid table holds an entry under the key.
  pub dict_contains_iff :
      (h : Dict K V) (key : K)
      → IsValid t h
      → ((dict_contains t h key).0 ≡ true) ↔ (0 < count t key (flatten h.slots))
  unfolding dict_contains
  dict_contains_iff h key v =
      let s = dict_do_lookup-Searched h key v in
      elim (Option-cases (dict_do_lookup t h key).0) [
        | inl z ↦ rw (z, dict_contains) (λ e. cc, λ p. absurd (omega (arith, s.misses z)))
        | inr (e, z) ↦ rw (z, dict_contains) (λ _. (s.hits e z).1, λ _. refl)
      ]
