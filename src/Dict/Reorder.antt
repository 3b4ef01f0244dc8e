-- ===== src/Dict/Reorder.antt =====
-- The last loop of `dict_do_lookup`, which moves the entry that it finds to the front of its chain:
-- what a search answers, and what it keeps.
use cagekeeper.Prelude.{
  ◌≤◌, ◌<◌, ◌≡◌, refl, sym, ap, ◌∙◌, true, false, Bool-cases, inl, inr, Option, Option-cases, none,
  some, List, [], ◌∷◌, get_or, set, All, arith, ◌==◌, ==_iff, length-set,
}
use cagekeeper.Dict.Chain.{
  weight, SameEntries, weight-one, weight-flatten-set, get_or-set, find, hit, count,
  take_entry-weight, take_entry-All, take_entry-find, take_entry-none, take_entry-some,
}
use cagekeeper.Dict.Defs.{
  HashType, IsLawful, Entry, Dict, hashsize, home, is_key, take_entry, search_rest,
}
use cagekeeper.Dict.Placed.{IsAtHome, IsValid, chain_of, flatten-chain_of, set-IsPlaced}
use mathlib.Core.List.{flatten}

module _ {ℓ} {K V : Type ℓ} (t : HashType K) (lawful : IsLawful t) where
  -- What a search may do to a table: move entries about, and no more.
  pub record Keeps (h h' : Dict K V) : Type (ℓ ⊔ 1) where
    pub valid : IsValid t h'
    pub num : h'.num ≡ h.num
    pub same : SameEntries (flatten h.slots) (flatten h'.slots)

  -- Under a key that occurs once nothing that it finds changes.
  abbrev pub KeepsFind : Dict K V → Dict K V → Type ℓ
  KeepsFind h h' =
      (q : K)
      → count t q (flatten h.slots) ≤ 1
      → find t q (chain_of t h' q) ≡ find t q (chain_of t h q)

  -- What a search for `key` in `h` answers, and the table that it leaves.
  pub record Searched (h : Dict K V) (key : K) (r : Option (Entry K V) × Dict K V)
      : Type (ℓ ⊔ 1) where
    pub keeps : Keeps h r.1
    pub finds : KeepsFind h r.1
    pub found : count t key (flatten h.slots) ≤ 1 → r.0 ≡ find t key (chain_of t h key)
    pub hits :
        (e : Entry K V)
        → r.0 ≡ some e
        → (t.equals e.key key ≡ true) × (0 < count t key (flatten h.slots))
    pub misses : r.0 ≡ none → count t key (flatten h.slots) ≡ 0

  pub Keeps-refl : (h : Dict K V) → IsValid t h → Keeps h h
  Keeps-refl h v = record { valid = v; num = refl; same = λ w. refl }

  -- The slot of `key` is rewritten with the same entries in another order.
  module _ (h : Dict K V) (v : IsValid t h) (key : K) (pos : 0 < hashsize h)
      (c : List (Entry K V)) where
    abbrev reordered : Dict K V
    reordered = record h { slots = set h.slots (home t key (hashsize h)) c }

    at_home : home t key (hashsize h) < hashsize h
    at_home = omega arith

    reorder-Keeps :
        SameEntries (chain_of t h key) c
        → All (IsAtHome t (hashsize h) (home t key (hashsize h))) c
        → Keeps h reordered
    reorder-Keeps same a =
        let total : SameEntries (flatten h.slots) (flatten reordered.slots) = λ w.
          omega (arith, weight-flatten-set w h.slots (home t key (hashsize h)) c at_home, same w) in
        record {
          valid = record {
            counted =
                v.counted
                ∙ sym (weight-one (flatten h.slots))
                ∙ total (λ _. 1)
                ∙ weight-one (flatten reordered.slots);
            placed = set-IsPlaced t lawful h.slots _ c at_home v.placed a;
          };
          num = refl;
          same = total;
        }

    reorder-KeepsFind :
        ((q : K) → count t q (chain_of t h key) ≤ 1 → find t q c ≡ find t q (chain_of t h key))
        → KeepsFind h reordered
    reorder-KeepsFind keep q once =
        let i = home t key (hashsize h) in
        let s = get_or-set h.slots i (home t q (hashsize h)) c [] at_home in
        rw (length-set h.slots i c) (elim (Bool-cases (i == home t q (hashsize h))) [
          | inl y ↦
              let same = (==_iff i _).0 y in
              let one = (flatten-chain_of t lawful h v.placed q).1 in
              let moved : chain_of t h key ≡ chain_of t h q = ap (λ k. get_or h.slots k []) same in
              ap (find t q) (s.0 same) ∙ keep q (rw moved (rw one at once)) ∙ ap (find t q) moved
          | inr n ↦ rw (s.1 (ground arith))
        ])

  -- Moving an entry to the front changes nothing under a key that occurs once.
  front-find :
      (key q : K) (first x : Entry K V) (rest r : List (Entry K V))
      → take_entry (is_key t key) rest ≡ some (x, r)
      → count t q (first ∷ rest) ≤ 1
      → find t q (x ∷ first ∷ r) ≡ find t q (first ∷ rest)
  unfolding find count weight
  front-find key q first x rest r z once = ground (
    arith,
    take_entry-find (is_key t key) t q rest r x z,
    take_entry-weight (is_key t key) (hit t q) rest r x z,
  )

  count-miss :
      (key : K) (first : Entry K V) (rest : List (Entry K V))
      → t.equals first.key key ≡ false
      → count t key rest ≡ 0
      → count t key (first ∷ rest) ≡ 0
  unfolding count weight
  count-miss key first rest miss none_left = rw miss (omega arith)

  count-taken :
      (key : K) (first x : Entry K V) (rest r : List (Entry K V))
      → take_entry (is_key t key) rest ≡ some (x, r)
      → 0 < count t key (first ∷ rest)
  unfolding count weight
  count-taken key first x rest r z =
      ground (arith, take_entry-weight (is_key t key) (hit t key) rest r x z)

  -- `search_rest` over the chain `first ∷ rest` of the key, whose first entry is not under it.
  pub search_rest-Searched :
      (h : Dict K V) (key : K) (first : Entry K V) (rest : List (Entry K V))
      → IsValid t h
      → 0 < hashsize h
      → chain_of t h key ≡ first ∷ rest
      → t.equals first.key key ≡ false
      → Searched h key (search_rest t h key first rest)
  unfolding search_rest
  search_rest-Searched h key first rest v pos e miss =
      elim (Option-cases (take_entry (is_key t key) rest)) [
        | inl z ↦
            rw (z, search_rest)
              (record {
                keeps = Keeps-refl h v;
                finds = λ q once. refl;
                found =
                    λ once. rw e (unfold find in rw miss (sym (take_entry-none t key rest z).0));
                hits = λ x h'. cc;
                misses = λ _.
                    (flatten-chain_of t lawful h v.placed key).1
                    ∙ rw e (count-miss key first rest miss (take_entry-none t key rest z).1);
              })
        | inr ((x, r), z) ↦
            let a = rw e at (v.placed (home t key (hashsize h))) in
            let b =
              take_entry-All (is_key t key) (IsAtHome t (hashsize h) (home t key (hashsize h))) rest
                r x z a.1 in
            rw (z, search_rest)
              (record {
                keeps =
                    reorder-Keeps h v key pos (x ∷ first ∷ r)
                      (λ w. rw e (
                        unfold weight in
                        omega (arith, (take_entry-weight (is_key t key) w rest r x z).0)))
                      (b.0, (a.0, b.1));
                finds =
                    reorder-KeepsFind h v key pos (x ∷ first ∷ r)
                      (λ q once. rw e (front-find key q first x rest r z (rw e at once)));
                found =
                    λ once. rw e (unfold find in rw miss (sym (take_entry-some t key rest r x z)));
                hits = λ y h'.
                    let same : x ≡ y = cc in
                    (
                      rw (← same) (take_entry-weight (is_key t key) (λ _. 0) rest r x z).1,
                      rw ((flatten-chain_of t lawful h v.placed key).1, e)
                          (count-taken key first x rest r z),
                    );
                misses = λ h'. cc;
              })
      ]
