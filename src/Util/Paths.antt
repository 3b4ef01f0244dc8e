-- ===== src/Util/Paths.antt =====
-- util.c, concat_paths: one separator between the two parts.
use cagekeeper.Prelude.{
  ℕ, zero, suc, ◌≤◌, ◌<◌, ◌≡◌, ◌≢◌, ◌⊎◌, false, refl, sym, ap, ◌∙◌, inl, inr, List, [], ◌∷◌, ◌++◌,
  append_assoc, append-nil, length, get_or, replicate, arith, ◌==◌, ==_iff, Bool-cases,
}
use cagekeeper.Util.{path_seperator, trim_end, trim_start, prefix, concat_paths}

abbrev pub separators : ℕ → List ℕ
separators n = replicate n path_seperator

-- No separator at the end, and none at the start.
abbrev pub EndsBare : List ℕ → Type 0
EndsBare s = (s ≡ []) ⊎ ((front : List ℕ) × (c : ℕ) × (s ≡ front ++ c ∷ []) × (c ≢ path_seperator))

abbrev pub StartsBare : List ℕ → Type 0
StartsBare s = (s ≡ []) ⊎ ((c : ℕ) × (rest : List ℕ) × (s ≡ c ∷ rest) × (c ≢ path_seperator))

separators-snoc : (n : ℕ) → separators n ++ path_seperator ∷ [] ≡ separators (suc n)
separators-snoc zero = refl
separators-snoc (suc n) = ap (λ s. path_seperator ∷ s) (separators-snoc n)

prefix-suc :
    (cs : List ℕ) (l : ℕ) → l < length cs → prefix cs (suc l) ≡ prefix cs l ++ get_or cs l 0 ∷ []
unfolding prefix
prefix-suc [] l lt = absurd (omega arith)
prefix-suc (c ∷ cs) zero lt = refl
prefix-suc (c ∷ cs) (suc l) lt = ap (λ s. c ∷ s) (prefix-suc cs l (omega arith))

prefix-zero : (cs : List ℕ) → prefix cs 0 ≡ []
unfolding prefix
prefix-zero [] = refl
prefix-zero (c ∷ cs) = refl

prefix-length : (cs : List ℕ) → prefix cs (length cs) ≡ cs
unfolding prefix
prefix-length [] = refl
prefix-length (c ∷ cs) = ap (λ s. c ∷ s) (prefix-length cs)

ne_separator : (c : ℕ) → (c == path_seperator) ≡ false → c ≢ path_seperator
ne_separator c e = ground arith

trim_end-prefix :
    (cs : List ℕ) (l : ℕ)
    → l ≤ length cs
    → EndsBare (prefix cs (trim_end cs l))
      × (n : ℕ) × (prefix cs l ≡ prefix cs (trim_end cs l) ++ separators n)
unfolding trim_end
trim_end-prefix cs zero le = (inl (prefix-zero cs), 0, sym (append-nil (prefix cs 0)))
trim_end-prefix cs (suc l) le = elim (Bool-cases (get_or cs l 0 == path_seperator)) [
  | inl e ↦
      let (bare, n, ih) = trim_end-prefix cs l (omega arith) in
      let same : get_or cs l 0 ≡ path_seperator = (==_iff (get_or cs l 0) path_seperator).0 e in
      rw e (
        bare,
        suc n,
        prefix-suc cs l (omega arith)
            ∙ ap (λ c. prefix cs l ++ c ∷ []) same
            ∙ ap (λ s. s ++ path_seperator ∷ []) ih
            ∙ append_assoc (prefix cs (trim_end cs l)) (separators n) (path_seperator ∷ [])
            ∙ ap (λ s. prefix cs (trim_end cs l) ++ s) (separators-snoc n),
      )
  | inr e ↦ rw e (
    inr (prefix cs l, get_or cs l 0, prefix-suc cs l (omega arith), ne_separator (get_or cs l 0) e),
    0,
    sym (append-nil (prefix cs (suc l))),
  )
]

trim_start-separators :
    (cs : List ℕ) → StartsBare (trim_start cs) × (n : ℕ) × (cs ≡ separators n ++ trim_start cs)
unfolding trim_start
trim_start-separators [] = (inl refl, 0, refl)
trim_start-separators (c ∷ cs) = elim (Bool-cases (c == path_seperator)) [
  | inl e ↦
      let (bare, n, ih) = trim_start-separators cs in
      let same : c ≡ path_seperator = (==_iff c path_seperator).0 e in
      rw e (bare, suc n, ap (λ d. d ∷ cs) same ∙ ap (λ s. path_seperator ∷ s) ih)
  | inr e ↦ rw e (inr (c, cs, refl, ne_separator c e), 0, refl)
]

-- The joined path is the first part without the separators at its end, one separator, and the second
-- part without the separators at its start. Nothing else of the two is lost.
pub concat_paths-separators :
    (base add : List ℕ)
    → (b a : List ℕ) × (m n : ℕ) × (base ≡ b ++ separators m)
      × (add ≡ separators n ++ a)
      × EndsBare b
      × StartsBare a
      × (concat_paths base add ≡ b ++ path_seperator ∷ a)
unfolding concat_paths
concat_paths-separators base add =
    let (bare, m, front) = trim_end-prefix base (length base) (omega arith) in
    let (bare', n, back) = trim_start-separators add in
    (
      prefix base (trim_end base (length base)),
      trim_start add,
      m,
      n,
      sym (prefix-length base) ∙ front,
      back,
      bare,
      bare',
      refl,
    )
