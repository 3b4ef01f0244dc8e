-- ===== src/Dict/Presence.antt =====
-- `dict_contains` in front of `dict_put`: a table that keeps the first value of each key.
use cagekeeper.Prelude.{
  ℕ, ◌≡◌, refl, sym, ap, ◌∙◌, Bool, true, false, Option, none, some, List, [], ◌∷◌, arith,
  if◌then◌else◌,
}
use cagekeeper.Dict.Chain.{find, count, hit}
use cagekeeper.Dict.Defs.{
  HashType, IsLawful, Entry, Dict, hashsize, home, dict_init, dict_put, dict_contains,
  dict_do_lookup,
}
use cagekeeper.Dict.Expand.{get_or-replicate}
use cagekeeper.Dict.Lookup.{dict_do_lookup-Searched}
use cagekeeper.Dict.Placed.{IsValid, IsUnique, chain_of, value_of, view}
use cagekeeper.Dict.Update.{dict_put-Put, dict_put-IsUnique}
use mathlib.Core.List.{flatten}

abbrev pub is_some {ℓ} : {A : Type ℓ} → Option A → Bool
is_some none = false
is_some (some a) = true

is_some-elim {ℓ} :
    {K V : Type ℓ} (o : Option (Entry K V)) → (elim o [ none ↦ false | some x ↦ true ]) ≡ is_some o
is_some-elim none = refl
is_some-elim (some e) = refl

elim_false {ℓ} :
    {K V : Type ℓ} (o : Option (Entry K V))
    → (elim o [ none ↦ false | some x ↦ true ]) ≡ false
    → o ≡ none
elim_false none h = refl
elim_false (some e) h = absurd cc

is_some-value_of {ℓ} : {K V : Type ℓ} (o : Option (Entry K V)) → is_some (value_of o) ≡ is_some o
is_some-value_of none = refl
is_some-value_of (some e) = refl

-- An empty table finds nothing.
pub dict_init-view {ℓ} :
    {K V : Type ℓ} (t : HashType K) (n : ℕ) (q : K) → view t (dict_init {V = V} n) q ≡ none
unfolding view dict_init find
dict_init-view {V} t n q =
    rw (get_or-replicate {V = V} n (home t q (hashsize (dict_init {V = V} n)))) refl

module _ {ℓ} {K V : Type ℓ} (t : HashType K) (lawful : IsLawful t) where
  -- Equal keys find the same entry.
  find_congr : (a b : K) (c : List (Entry K V)) → t.equals a b ≡ true → find t a c ≡ find t b c
  unfolding find
  find_congr a b [] same = refl
  find_congr a b (e ∷ c) same = ground (
    arith,
    find_congr a b c same,
    lawful.symm a b,
    lawful.trans e.key a b,
    lawful.trans e.key b a,
  )

  pub view_congr : (h : Dict K V) (a b : K) → t.equals a b ≡ true → view t h a ≡ view t h b
  unfolding view
  view_congr h a b same =
      rw (lawful.hash-equals a b same) (ap value_of (find_congr a b (chain_of t h b) same))

  -- The table is the same map as before.
  pub record Keeps (h h' : Dict K V) : Type (ℓ ⊔ 1) where
    pub valid : IsValid t h'
    pub unique : IsUnique t h'
    pub same : (q : K) → view t h' q ≡ view t h q

  pub dict_contains-view :
      (h : Dict K V) (key : K)
      → IsValid t h
      → IsUnique t h
      → ((dict_contains t h key).0 ≡ is_some (view t h key)) × Keeps h (dict_contains t h key).1
  unfolding dict_contains view
  dict_contains-view h key v once =
      let s = dict_do_lookup-Searched t lawful h key v in
      let found : is_some (dict_do_lookup t h key).0 ≡ is_some (view t h key) =
        ap is_some (s.found (once key)) ∙ sym (is_some-value_of (find t key (chain_of t h key))) in
      (
        is_some-elim (dict_do_lookup t h key).0 ∙ found,
        record {
          valid = s.keeps.valid;
          unique = λ q. unfold count in rw (sym (s.keeps.same (hit t q))) (once q);
          same = λ q. ap value_of (s.finds q (once q));
        },
      )

  -- What `dict_put` behind a failed `dict_contains` makes of a table: every key that is equal to the
  -- new one reads the new value, and every other key reads what it did.
  pub dict_put-absent :
      (h : Dict K V) (key : K) (value : V)
      → IsValid t h
      → IsUnique t h
      → (dict_contains t h key).0 ≡ false
      → let h' = dict_put t (dict_contains t h key).1 key value in
        IsValid t h'
        × IsUnique t h'
        × ((q : K) → view t h' q ≡ (if t.equals key q then some value else view t h q))
  unfolding dict_contains dict_do_lookup
  dict_put-absent h key value v once absent =
      let s = dict_do_lookup-Searched t lawful h key v in
      let (found, k) = dict_contains-view h key v once in
      let none_there : count t key (flatten (dict_contains t h key).1.slots) ≡ 0 =
        unfold count in
        sym (s.keeps.same (hit t key)) ∙ s.misses (elim_false (dict_do_lookup t h key).0 absent) in
      let p = dict_put-Put t lawful (dict_contains t h key).1 key value k.valid in
      (
        p.valid,
        dict_put-IsUnique t lawful (dict_contains t h key).1 key value k.valid k.unique none_there,
        λ q. p.reads q ∙ rw (k.same q) refl,
      )
