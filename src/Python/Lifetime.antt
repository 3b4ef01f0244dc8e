-- ===== src/Python/Lifetime.antt =====
-- language_py.c: when the Python library is started and finished.
use cagekeeper.Prelude.{
  ℕ, suc, ◌+◌, ◌-◌, ◌≡◌, refl, sym, ap, ◌∙◌, Bool, true, false, not, List, [], ◌∷◌, ◌++◌, ◌==◌,
  arith,
}
use cagekeeper.Python.Methods.{Library, initialize_py, destroy_py}

unfoldable pub live : List Bool → ℕ
live [] = 0
live (true ∷ bs) = suc (live bs)
live (false ∷ bs) = live bs

live-append : (xs ys : List Bool) → live (xs ++ ys) ≡ live xs + live ys
unfolding live
live-append [] ys = omega arith
live-append (true ∷ xs) ys = omega (arith, live-append xs ys)
live-append (false ∷ xs) ys = live-append xs ys

-- Starting the library with the first interpreter, and finishing it with the last.
started :
    (lib : Library) (n : ℕ)
    → lib.reference_count ≡ n
    → lib.running ≡ not (n == 0)
    → (initialize_py false lib).running ≡ not (suc n == 0)
unfolding initialize_py
started lib n h runs = ground arith

finished :
    (lib : Library) (n : ℕ)
    → lib.reference_count ≡ n
    → lib.running ≡ not (n == 0)
    → (destroy_py true lib).running ≡ not ((n - 1) == 0)
unfolding destroy_py
finished lib n h runs = ground arith

-- What a program may do: the interpreters that exist, with the mark that they are initialized, and
-- the library. An interpreter is made by `python_interpreter_new`, initialized any number of times,
-- and destroyed once.
pub data Uses : List Bool → Library → Type 0 where
  not_used : Uses [] (record { reference_count = 0; running = false })
  made : {bs : List Bool} {lib : Library} → Uses bs lib → Uses (false ∷ bs) lib
  initialized :
      {lib : Library} (xs : List Bool) (b : Bool) (ys bs : List Bool)
      → bs ≡ xs ++ b ∷ ys
      → Uses bs lib
      → Uses (xs ++ true ∷ ys) (initialize_py b lib)
  destroyed :
      {lib : Library} (xs : List Bool) (b : Bool) (ys bs : List Bool)
      → bs ≡ xs ++ b ∷ ys
      → Uses bs lib
      → Uses (xs ++ ys) (destroy_py b lib)

-- Whatever interpreters are made, initialized and destroyed, and in whatever order, the library's
-- count is the number of initialized interpreters that exist, and the library runs as long as there
-- is one and no longer.
pub Uses-running :
    {bs : List Bool} {lib : Library}
    → Uses bs lib
    → (lib.reference_count ≡ live bs) × (lib.running ≡ not (live bs == 0))
unfolding live initialize_py destroy_py
Uses-running not_used = (refl, refl)
Uses-running (made u) = Uses-running u
Uses-running (initialized {lib = lib} xs true ys bs eq u) =
    let h = Uses-running u in
    let same : live bs ≡ live (xs ++ true ∷ ys) = ap live eq in
    (h.0 ∙ same, h.1 ∙ ap (λ n. not (n == 0)) same)
Uses-running (initialized {lib = lib} xs false ys bs eq u) =
    let h = Uses-running u in
    let before : live bs ≡ live xs + live ys = ap live eq ∙ live-append xs (false ∷ ys) in
    let after : live (xs ++ true ∷ ys) ≡ suc (live bs) =
      live-append xs (true ∷ ys) ∙ omega (arith, before) in
    (rw (after, h.0) (omega arith), rw after (started lib (live bs) h.0 h.1))
Uses-running (destroyed {lib = lib} xs true ys bs eq u) =
    let h = Uses-running u in
    let before : live bs ≡ suc (live xs + live ys) =
      ap live eq ∙ live-append xs (true ∷ ys) ∙ omega arith in
    let after : live (xs ++ ys) ≡ live bs - 1 = live-append xs ys ∙ omega (arith, before) in
    (rw (after, h.0) refl, rw after (finished lib (live bs) h.0 h.1))
Uses-running (destroyed {lib = lib} xs false ys bs eq u) =
    let h = Uses-running u in
    let same : live bs ≡ live (xs ++ ys) =
      ap live eq ∙ live-append xs (false ∷ ys) ∙ sym (live-append xs ys) in
    (h.0 ∙ same, h.1 ∙ ap (λ n. not (n == 0)) same)
