-- ===== src/Dict/Expand.antt =====
-- `dict_expand`: every entry goes to its slot of the new table, and the chains turn round.
use cagekeeper.Prelude.{
  ℕ, zero, suc, ◌+◌, ◌%◌, ◌<◌, ◌≡◌, refl, sym, ap, ◌∙◌, List, [], ◌∷◌, ◌++◌, length, get_or,
  replicate, length-set, length-replicate, All, arith, ◌==◌, if◌then◌else◌, Bool-cases, inl, inr,
  ==_iff,
}
use cagekeeper.Dict.Chain.{
  weight, SameEntries, weight-one, weight-flatten-set, get_or-set, find, find_last, find_last-find,
}
use cagekeeper.Dict.Defs.{
  HashType, IsLawful, Entry, Dict, hashsize, home, push, move_chain, move_all, dict_expand,
}
use cagekeeper.Dict.Placed.{
  IsHashed, IsAtHome, IsValid, IsUnique, chain_of, value_of, view, flatten-chain_of,
}
use mathlib.Core.List.{flatten}
use mathlib.Core.Option.{or_else}

module _ {ℓ} {K V : Type ℓ} where
  pub length-push :
      (i : ℕ) (e : Entry K V) (cs : List (List (Entry K V))) → length (push i e cs) ≡ length cs
  unfolding push
  length-push i e cs = length-set cs i (e ∷ get_or cs i [])

  pub weight-push :
      (w : Entry K V → ℕ) (i : ℕ) (e : Entry K V) (cs : List (List (Entry K V)))
      → i < length cs
      → weight w (flatten (push i e cs)) ≡ w e + weight w (flatten cs)
  unfolding push
  weight-push w i e cs h =
      let t = weight-flatten-set w cs i (e ∷ get_or cs i []) h in unfold weight in omega (arith, t)

  pub get_or-push :
      (i j : ℕ) (e : Entry K V) (cs : List (List (Entry K V)))
      → i < length cs
      → get_or (push i e cs) j [] ≡ (if i == j then e ∷ get_or cs j [] else get_or cs j [])
  unfolding push
  get_or-push i j e cs h =
      let t = get_or-set cs i j (e ∷ get_or cs i []) [] h in
      elim (Bool-cases (i == j)) [
        | inl y ↦ let same = (==_iff i j).0 y in rw y (t.0 same ∙ ap (λ k. e ∷ get_or cs k []) same)
        | inr n ↦ rw n (t.1 (ground arith))
      ]

  -- What the entries `es` leave in slot `j` on top of `acc`.
  pour : ℕ → ℕ → List (Entry K V) → List (Entry K V) → List (Entry K V)
  pour n j [] acc = acc
  pour n j (e ∷ es) acc = pour n j es (if e.hash % n == j then e ∷ acc else acc)

  move_chain-append :
      (n : ℕ) (a b : List (Entry K V)) (cs : List (List (Entry K V)))
      → move_chain n (a ++ b) cs ≡ move_chain n b (move_chain n a cs)
  unfolding move_chain
  move_chain-append n [] b cs = refl
  move_chain-append n (e ∷ a) b cs = move_chain-append n a b (push (e.hash % n) e cs)

  -- The two nested loops are one loop over all the entries.
  move_all-flatten :
      (n : ℕ) (old cs : List (List (Entry K V))) → move_all n old cs ≡ move_chain n (flatten old) cs
  unfolding move_all move_chain flatten
  move_all-flatten n [] cs = refl
  move_all-flatten n (c ∷ old) cs =
      rw (move_chain-append n c (flatten old) cs) (move_all-flatten n old (move_chain n c cs))

  length-move_chain :
      (n : ℕ) (es : List (Entry K V)) (cs : List (List (Entry K V)))
      → length (move_chain n es cs) ≡ length cs
  unfolding move_chain
  length-move_chain n [] cs = refl
  length-move_chain n (e ∷ es) cs =
      length-move_chain n es (push (e.hash % n) e cs) ∙ length-push (e.hash % n) e cs

  weight-move_chain :
      (w : Entry K V → ℕ) (es : List (Entry K V)) (n : ℕ) (cs : List (List (Entry K V)))
      → 0 < n
      → length cs ≡ n
      → weight w (flatten (move_chain n es cs)) ≡ weight w es + weight w (flatten cs)
  unfolding move_chain weight
  weight-move_chain w [] n cs pos len = omega arith
  weight-move_chain w (e ∷ es) n cs pos len = omega (
    arith,
    weight-move_chain w es n (push (e.hash % n) e cs) pos (length-push (e.hash % n) e cs ∙ len),
    weight-push w (e.hash % n) e cs (omega arith),
  )

  get_or-move_chain :
      (j : ℕ) (es : List (Entry K V)) (n : ℕ) (cs : List (List (Entry K V)))
      → 0 < n
      → length cs ≡ n
      → get_or (move_chain n es cs) j [] ≡ pour n j es (get_or cs j [])
  unfolding move_chain pour
  get_or-move_chain j [] n cs pos len = refl
  get_or-move_chain j (e ∷ es) n cs pos len =
      get_or-move_chain j es n (push (e.hash % n) e cs) pos (length-push (e.hash % n) e cs ∙ len)
      ∙ ap (pour n j es) (get_or-push (e.hash % n) j e cs (omega arith))

  pub flatten-replicate : (n : ℕ) → flatten {A = Entry K V} (replicate n []) ≡ []
  unfolding flatten
  flatten-replicate zero = refl
  flatten-replicate (suc n) = flatten-replicate n

  pub get_or-replicate : (n j : ℕ) → ◌≡◌ {A = List (Entry K V)} (get_or (replicate n []) j []) []
  get_or-replicate zero j = refl
  get_or-replicate (suc n) zero = refl
  get_or-replicate (suc n) (suc j) = get_or-replicate n j

  -- `move_all` into a fresh table of `n` slots.
  module _ (n : ℕ) (old : List (List (Entry K V))) where
    abbrev moved : List (List (Entry K V))
    moved = move_all n old (replicate n [])

    length-moved : length moved ≡ n
    length-moved =
        ap length (move_all-flatten n old (replicate n []))
        ∙ length-move_chain n (flatten old) (replicate n [])
        ∙ length-replicate n []

    weight-moved : 0 < n → SameEntries (flatten old) (flatten moved)
    unfolding weight
    weight-moved pos w = rw (move_all-flatten n old (replicate n [])) (
        omega (
          arith,
          weight-move_chain w (flatten old) n (replicate n []) pos (length-replicate n []),
          ap (weight w) (flatten-replicate n),
        ))

    get_or-moved : 0 < n → (j : ℕ) → get_or moved j [] ≡ pour n j (flatten old) []
    get_or-moved pos j = rw (move_all-flatten n old (replicate n [])) (
        get_or-move_chain j (flatten old) n (replicate n []) pos (length-replicate n [])
        ∙ ap (pour n j (flatten old)) (get_or-replicate n j))

module _ {ℓ} {K V : Type ℓ} (t : HashType K) where
  All-pour :
      (n j : ℕ) (es acc : List (Entry K V))
      → All (IsHashed t) es
      → All (IsAtHome t n j) acc
      → All (IsAtHome t n j) (pour n j es acc)
  unfolding pour
  All-pour n j [] acc h a = a
  All-pour n j (e ∷ es) acc h a = All-pour n j es _ h.1 (elim (Bool-cases (e.hash % n == j)) [
    | inl y ↦ rw y ((h.0, (==_iff (e.hash % n) j).0 y), a)
    | inr z ↦ rw z a
  ])

  -- Poured into its home slot a key finds its last entry.
  find-pour :
      IsLawful t
      → (n : ℕ) (q : K) (es acc : List (Entry K V)) → All (IsHashed t) es
      → find t q (pour n (home t q n) es acc) ≡ or_else (find_last t q es) (find t q acc)
  unfolding pour find_last or_else
  find-pour lawful n q [] acc h = refl
  find-pour lawful n q (e ∷ es) acc h =
      find-pour lawful n q es _ h.1 ∙ (unfold find in ground (arith, lawful.hash-equals e.key q))

  find-pour_nil :
      IsLawful t
      → (n : ℕ) (q : K) (es : List (Entry K V)) → All (IsHashed t) es
      → find t q (pour n (home t q n) es []) ≡ find_last t q es
  find-pour_nil lawful n q es h =
      find-pour lawful n q es [] h ∙ (unfold find or_else in ground arith)

  All-append {κ} :
      (P : Entry K V → Type κ) (a b : List (Entry K V)) → All P a → All P b → All P (a ++ b)
  All-append P [] b ha hb = hb
  All-append P (e ∷ a) b ha hb = (ha.0, All-append P a b ha.1 hb)

  IsHashed-of_home : (n i : ℕ) (c : List (Entry K V)) → All (IsAtHome t n i) c → All (IsHashed t) c
  IsHashed-of_home n i [] h = tt
  IsHashed-of_home n i (e ∷ c) h = (h.0.0, IsHashed-of_home n i c h.1)

  All-flatten :
      (cs : List (List (Entry K V)))
      → ((i : ℕ) → All (IsHashed t) (get_or cs i []))
      → All (IsHashed t) (flatten cs)
  unfolding flatten
  All-flatten [] h = tt
  All-flatten (c ∷ cs) h =
      All-append (IsHashed t) c (flatten cs) (h 0) (All-flatten cs (λ i. h (suc i)))

  -- What growing to `n` slots does.
  pub record Grown (h h' : Dict K V) (n : ℕ) : Type (ℓ ⊔ 1) where
    pub valid : IsValid t h'
    pub size : hashsize h' ≡ n
    pub same : SameEntries (flatten h.slots) (flatten h'.slots)
    pub turned : (q : K) → find t q (chain_of t h' q) ≡ find_last t q (chain_of t h q)

  -- In a valid table `dict_expand` to a positive size gives a valid table of that size with the
  -- same entries, in which a key finds the last entry that it had in its chain before.
  pub dict_expand-Grown :
      IsLawful t → (h : Dict K V) (n : ℕ) → IsValid t h → 0 < n → Grown h (dict_expand h n) n
  unfolding dict_expand
  dict_expand-Grown lawful h n v pos =
      let hashed : All (IsHashed t) (flatten h.slots) =
        All-flatten h.slots
          (λ i. IsHashed-of_home (length h.slots) i (get_or h.slots i []) (v.placed i)) in
      let slot = get_or-moved n h.slots pos in
      let size = length-moved n h.slots in
      let same = weight-moved n h.slots pos in
      record {
        valid = record {
          counted =
              v.counted
              ∙ sym (weight-one (flatten h.slots))
              ∙ same (λ _. 1)
              ∙ weight-one (flatten (moved n h.slots));
          placed = λ i. rw (size, slot i) (All-pour n i (flatten h.slots) [] hashed tt);
        };
        size = size;
        same = same;
        turned = λ q.
            rw (size, slot (home t q n))
              (find-pour_nil lawful n q (flatten h.slots) hashed
                ∙ (flatten-chain_of t lawful h v.placed q).0);
      }

  -- Where no two keys are equal, growing keeps the map.
  pub dict_expand-view :
      IsLawful t
      → (h : Dict K V) (n : ℕ) → IsValid t h
      → IsUnique t h
      → 0 < n
      → (q : K) → view t (dict_expand h n) q ≡ view t h q
  unfolding view
  dict_expand-view lawful h n v once pos q =
      let g = dict_expand-Grown lawful h n v pos in
      let one = (flatten-chain_of t lawful h v.placed q).1 in
      ap value_of (g.turned q ∙ find_last-find t q (chain_of t h q) (rw one at (once q)))
