-- ===== src/Dict/Placed.antt =====
-- The invariant of a table, and what it says of the chain that a key belongs to.
use cagekeeper.Prelude.{
  ℕ, zero, suc, ◌%◌, ◌≤◌, ◌<◌, ◌≡◌, ◌≢◌, refl, Option, none, some, List, [], ◌∷◌, length, get_or,
  All, arith, set, length-set, Bool-cases, false, inl, inr, ◌==◌, ==_iff,
}
use cagekeeper.Dict.Chain.{
  weight, weight-append, find, find_last, count, count-eq-zero, find_last-append, get_or-set,
}
use cagekeeper.Dict.Defs.{HashType, IsLawful, Entry, Dict, hashsize, home}
use mathlib.Core.List.{flatten}
use mathlib.Core.Option.{or_else}

abbrev pub value_of {ℓ} : {K V : Type ℓ} → Option (Entry K V) → Option V
value_of none = none
value_of (some e) = some e.value

module _ {ℓ} {K V : Type ℓ} (t : HashType K) where
  -- The entry keeps the hash of its key.
  abbrev pub IsHashed : Entry K V → Type 0
  IsHashed e = e.hash ≡ t.hash e.key

  -- It stands in slot `i` of `n`.
  abbrev pub IsAtHome : ℕ → ℕ → Entry K V → Type 0
  IsAtHome n i e = IsHashed e × (e.hash % n ≡ i)

  abbrev pub IsPlaced : List (List (Entry K V)) → Type 0
  IsPlaced slots = (i : ℕ) → All (IsAtHome (length slots) i) (get_or slots i [])

  -- `num` counts the entries, and each stands in the slot of its hash.
  pub record IsValid (h : Dict K V) : Type ℓ where
    pub counted : h.num ≡ length (flatten h.slots)
    pub placed : IsPlaced h.slots

  -- No two entries have equal keys.
  abbrev pub IsUnique : Dict K V → Type ℓ
  IsUnique h = (q : K) → count t q (flatten h.slots) ≤ 1

  abbrev pub chain_of : Dict K V → K → List (Entry K V)
  chain_of h q = get_or h.slots (home t q (hashsize h)) []

  -- The value that the table holds under a key, as a map from keys.
  unfoldable pub view : Dict K V → K → Option V
  view h q = value_of (find t q (chain_of h q))

module _ {ℓ} {K V : Type ℓ} (t : HashType K) (lawful : IsLawful t) where
  pub find-nil : (q : K) → find {V = V} t q [] ≡ none
  unfolding find
  find-nil q = refl

  -- Away from its home slot a key has no entry.
  pub count_away :
      (n i : ℕ) (q : K) (c : List (Entry K V))
      → All (IsAtHome t n i) c
      → home t q n ≢ i
      → count t q c ≡ 0
  unfolding count weight
  count_away n i q [] h ne = refl
  count_away n i q (e ∷ c) h ne =
      ground (arith, count_away n i q c h.1 ne, lawful.hash-equals e.key q)

  count-flatten_nowhere :
      (q : K) (cs : List (List (Entry K V)))
      → ((i : ℕ) → count t q (get_or cs i []) ≡ 0)
      → count t q (flatten cs) ≡ 0
  unfolding flatten count
  count-flatten_nowhere q [] h = refl
  count-flatten_nowhere q (c ∷ cs) h =
      rw (weight-append, h 0, count-flatten_nowhere q cs (λ i. h (suc i)))

  -- Where all other slots are without the key, slot `j` has all its entries, and the last one.
  count-flatten_only :
      (cs : List (List (Entry K V))) (q : K) (j : ℕ)
      → ((i : ℕ) → j ≢ i → count t q (get_or cs i []) ≡ 0)
      → count t q (flatten cs) ≡ count t q (get_or cs j [])
  unfolding flatten count
  count-flatten_only [] q j away = refl
  count-flatten_only (c ∷ cs) q zero away =
      rw weight-append (omega (arith, count-flatten_nowhere q cs (λ k. away (suc k) (omega arith))))
  count-flatten_only (c ∷ cs) q (suc j) away = rw weight-append (
      omega (
        arith,
        away 0 (omega arith),
        count-flatten_only cs q j (λ k ne. away (suc k) (omega arith)),
      ))

  find_last-flatten_only :
      (cs : List (List (Entry K V))) (q : K) (j : ℕ)
      → ((i : ℕ) → j ≢ i → count t q (get_or cs i []) ≡ 0)
      → find_last t q (flatten cs) ≡ find_last t q (get_or cs j [])
  unfolding flatten or_else
  find_last-flatten_only [] q j away = refl
  find_last-flatten_only (c ∷ cs) q zero away =
      let none_later = count-flatten_nowhere q cs (λ k. away (suc k) (omega arith)) in
      rw (find_last-append, (count-eq-zero t q (flatten cs) none_later).1) refl
  find_last-flatten_only (c ∷ cs) q (suc j) away =
      let none_here = (count-eq-zero t q c (away 0 (omega arith))).1 in
      let later = find_last-flatten_only cs q j (λ k ne. away (suc k) (omega arith)) in
      rw (find_last-append, none_here, later) (ground arith)

  -- All entries under a key stand in its chain.
  pub flatten-chain_of :
      (h : Dict K V)
      → IsPlaced t h.slots
      → (q : K)
      → (find_last t q (flatten h.slots) ≡ find_last t q (chain_of t h q))
        × (count t q (flatten h.slots) ≡ count t q (chain_of t h q))
  flatten-chain_of h placed q =
      let away : (i : ℕ) → home t q (hashsize h) ≢ i → count t q (get_or h.slots i []) ≡ 0 =
        λ i ne. count_away (hashsize h) i q (get_or h.slots i []) (placed i) ne in
      (
        find_last-flatten_only h.slots q (home t q (hashsize h)) away,
        count-flatten_only h.slots q (home t q (hashsize h)) away,
      )

  -- A write of one slot with entries of that slot keeps them all in place.
  pub set-IsPlaced :
      (cs : List (List (Entry K V))) (i : ℕ) (c : List (Entry K V))
      → i < length cs
      → IsPlaced t cs
      → All (IsAtHome t (length cs) i) c
      → IsPlaced t (set cs i c)
  set-IsPlaced cs i c h placed a j =
      let s = get_or-set cs i j c [] h in
      elim (Bool-cases (i == j)) [
        | inl y ↦ let same = (==_iff i j).0 y in rw (length-set cs i c, s.0 same, ← same) a
        | inr n ↦ rw (length-set cs i c, s.1 (ground arith)) (placed j)
      ]

  -- A table that holds an entry has a slot.
  pub hashsize_pos : (h : Dict K V) → IsValid t h → (h.num == 0) ≡ false → 0 < hashsize h
  hashsize_pos h v n = go h.slots v.counted
    where
      go : (cs : List (List (Entry K V))) → h.num ≡ length (flatten cs) → 0 < length cs
      go [] e = unfold flatten in ground arith
      go (c ∷ cs) e = omega arith
