-- ===== src/Dict/Chain.antt =====
-- Chains: the entry that a key names, and measures that do not see the order.
use cagekeeper.Prelude.{
  ℕ, zero, suc, ◌+◌, ◌≤◌, ◌<◌, ◌≡◌, ◌≢◌, ◌⊎◌, refl, Option-cases, Bool, true, Bool-cases, inl, inr,
  Option, none, some, List, [], ◌∷◌, ◌++◌, length, get_or, set, All, arith, if◌then◌else◌,
}
use cagekeeper.Dict.Defs.{HashType, IsLawful, Entry, is_key, take_entry}
use mathlib.Core.List.{flatten}
use mathlib.Core.Option.{or_else}

-- The sum of a weight over a list. Two lists hold the same entries, each xs often, if every weight
-- has the same sum over both.
unfoldable pub weight {ℓ} : {A : Type ℓ} → (A → ℕ) → List A → ℕ
weight w [] = 0
weight w (a ∷ xs) = w a + weight w xs

module _ {ℓ} {A : Type ℓ} where
  abbrev pub SameEntries : List A → List A → Type ℓ
  SameEntries xs ys = (w : A → ℕ) → weight w xs ≡ weight w ys

  pub weight-append : (w : A → ℕ) (xs ys : List A) → weight w (xs ++ ys) ≡ weight w xs + weight w ys
  unfolding weight
  weight-append w [] ys = omega arith
  weight-append w (a ∷ xs) ys = omega (arith, weight-append w xs ys)

  pub weight-one : (xs : List A) → weight (λ _. 1) xs ≡ length xs
  unfolding weight
  weight-one [] = refl
  weight-one (a ∷ xs) = omega (arith, weight-one xs)

  -- A write to one slot.
  pub weight-flatten-set :
      (w : A → ℕ) (cs : List (List A)) (i : ℕ) (c : List A)
      → i < length cs
      → weight w (flatten (set cs i c)) + weight w (get_or cs i [])
        ≡ weight w (flatten cs) + weight w c
  unfolding flatten
  weight-flatten-set w [] i c h = elim h [ ]
  weight-flatten-set w (x ∷ cs) zero c h = simp weight-append (omega arith)
  weight-flatten-set w (x ∷ cs) (suc i) c h =
      simp weight-append (omega (arith, weight-flatten-set w cs i c (omega arith)))

  pub get_or-set :
      (xs : List A) (i j : ℕ) (v d : A)
      → i < length xs
      → ((i ≡ j → get_or (set xs i v) j d ≡ v) × (i ≢ j → get_or (set xs i v) j d ≡ get_or xs j d))
  get_or-set [] i j v d h = elim h [ ]
  get_or-set (x ∷ xs) zero zero v d h = (λ e. refl, λ n. absurd (n refl))
  get_or-set (x ∷ xs) zero (suc j) v d h = (λ e. absurd (omega arith), λ n. refl)
  get_or-set (x ∷ xs) (suc i) zero v d h = (λ e. absurd (omega arith), λ n. refl)
  get_or-set (x ∷ xs) (suc i) (suc j) v d h =
      let ih = get_or-set xs i j v d (omega arith) in
      (λ e. ih.0 (omega arith), λ n. ih.1 (omega arith))

module _ {ℓ} {K V : Type ℓ} (t : HashType K) where
  -- The first entry under a key, the last one, and their number.
  unfoldable pub find : K → List (Entry K V) → Option (Entry K V)
  find q [] = none
  find q (e ∷ c) = if t.equals e.key q then some e else find q c

  unfoldable pub find_last : K → List (Entry K V) → Option (Entry K V)
  find_last q [] = none
  find_last q (e ∷ c) = or_else (find_last q c) (if t.equals e.key q then some e else none)

  abbrev pub hit : K → Entry K V → ℕ
  hit q e = if t.equals e.key q then 1 else 0

  unfoldable pub count : K → List (Entry K V) → ℕ
  unfolding weight
  count q c = weight (hit q) c

  pub count-eq-zero :
      (q : K) (c : List (Entry K V)) → count q c ≡ 0 → (find q c ≡ none) × (find_last q c ≡ none)
  unfolding count find find_last or_else
  count-eq-zero q [] h = (refl, refl)
  count-eq-zero q (e ∷ c) h = ground (arith, count-eq-zero q c)

  pub count-le-length : (q : K) (c : List (Entry K V)) → count q c ≤ length c
  unfolding count weight
  count-le-length q [] = omega arith
  count-le-length q (e ∷ c) = ground (arith, count-le-length q c)

  -- Equal keys have the same entries.
  pub count_congr :
      IsLawful t → (a b : K) (c : List (Entry K V)) → t.equals a b ≡ true → count a c ≡ count b c
  unfolding count weight
  count_congr lawful a b [] same = refl
  count_congr lawful a b (e ∷ c) same = ground (
    arith,
    count_congr lawful a b c same,
    lawful.trans e.key a b,
    lawful.trans e.key b a,
    lawful.symm a b,
  )

  -- Under a key that occurs once the first entry is the last.
  pub find_last-find : (q : K) (c : List (Entry K V)) → count q c ≤ 1 → find_last q c ≡ find q c
  unfolding count find find_last or_else
  find_last-find q [] h = refl
  find_last-find q (e ∷ c) h = ground (arith, find_last-find q c, count-eq-zero q c)

  pub find-append :
      (key : K) (before behind : List (Entry K V))
      → find key (before ++ behind) ≡ or_else (find key before) (find key behind)
  unfolding or_else find
  find-append key [] behind = refl
  find-append key (e ∷ before) behind = ground (arith, find-append key before behind)

  pub find_last-append :
      (q : K) (a b : List (Entry K V))
      → find_last q (a ++ b) ≡ or_else (find_last q b) (find_last q a)
  unfolding find_last or_else
  find_last-append q [] b = ground arith
  find_last-append q (e ∷ a) b = rw (find_last-append q a b) (ground arith)

module _ {ℓ} {K V : Type ℓ} (test : Entry K V → Bool) where
  -- The two ways in which `take_entry` finds `e` and leaves `r`.
  pub take_entry-cons :
      (x : Entry K V) (c r : List (Entry K V)) (e : Entry K V)
      → take_entry test (x ∷ c) ≡ some (e, r)
      → ((test x ≡ true) × (x ≡ e) × (c ≡ r))
        ⊎ ((r' : List (Entry K V)) × (take_entry test c ≡ some (e, r')) × (r ≡ x ∷ r'))
  unfolding take_entry
  take_entry-cons x c r e h = elim (Bool-cases (test x)) [
    | inl y ↦ inl (y, ground arith, ground arith)
    | inr n ↦ elim (Option-cases (take_entry test c)) [
      | inl z ↦ ground arith
      | inr ((y, s), z) ↦ inr (s, ground arith, ground arith)
    ]
  ]

  -- It keeps all entries but the one that it finds, which passes the test.
  pub take_entry-weight :
      (w : Entry K V → ℕ) (c r : List (Entry K V)) (e : Entry K V)
      → take_entry test c ≡ some (e, r)
      → (weight w c ≡ w e + weight w r) × (test e ≡ true)
  unfolding take_entry weight
  take_entry-weight w [] r e h = cc
  take_entry-weight w (x ∷ c) r e h = elim (take_entry-cons x c r e h) [
    | inl (y, p, q) ↦ rw (← p, ← q) (refl, y)
    | inr (r', p, q) ↦ let (a, b) = take_entry-weight w c r' e p in rw q (omega (arith, a), b)
  ]

  pub take_entry-All {κ} :
      (P : Entry K V → Type κ) (c r : List (Entry K V)) (e : Entry K V)
      → take_entry test c ≡ some (e, r)
      → All P c
      → P e × All P r
  unfolding take_entry
  take_entry-All P [] r e h a = cc
  take_entry-All P (x ∷ c) r e h a = elim (take_entry-cons x c r e h) [
    | inl (y, p, q) ↦ rw (← p, ← q) a
    | inr (r', p, q) ↦ let (b, d) = take_entry-All P c r' e p a.1 in rw q (b, (a.0, d))
  ]

  pub take_entry-find :
      (t : HashType K) (q : K) (c r : List (Entry K V)) (e : Entry K V)
      → take_entry test c ≡ some (e, r)
      → count t q c ≤ 1
      → find t q c ≡ (if t.equals e.key q then some e else find t q r)
  unfolding take_entry count find weight
  take_entry-find t q [] r e h once = cc
  take_entry-find t q (x ∷ c) r e h once = elim (take_entry-cons x c r e h) [
    | inl (y, p, q) ↦ rw (← p, ← q)
    | inr (r', p, z) ↦
        rw z (ground (arith, take_entry-find t q c r' e p, take_entry-weight (hit t q) c r' e p))
  ]

-- A chain with no entry to take has none under the key.
pub take_entry-none {ℓ} :
    {K V : Type ℓ} (t : HashType K) (q : K) (c : List (Entry K V))
    → take_entry (is_key t q) c ≡ none
    → (find t q c ≡ none) × (count t q c ≡ 0)
unfolding take_entry find count weight
take_entry-none t q [] h = (refl, refl)
take_entry-none t q (x ∷ c) h = ground (arith, take_entry-none t q c)

-- The entry taken under a key is the first one.
pub take_entry-some {ℓ} :
    {K V : Type ℓ} (t : HashType K) (q : K) (c r : List (Entry K V)) (e : Entry K V)
    → take_entry (is_key t q) c ≡ some (e, r)
    → find t q c ≡ some e
unfolding take_entry find
take_entry-some t q [] r e h = cc
take_entry-some t q (x ∷ c) r e h = elim (take_entry-cons (is_key t q) x c r e h) [
  | inl (y, p, z) ↦ rw (y, p)
  | inr (r', p, z) ↦ ground (arith, take_entry-some t q c r' e p)
]
