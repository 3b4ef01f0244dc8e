-- ===== src/Language/Extension.antt =====
-- language.c, raw_interpreter_by_extension: which part of a file name chooses the interpreter.
use cagekeeper.Prelude.{ℕ, ◌≡◌, ◌≢◌, refl, none, some, List, [], ◌∷◌, ◌++◌, All, arith}
use cagekeeper.Language.{
  after_last_dot, last_dot, or_whole, extension, raw_interpreter_by_extension,
}

after_last_dot-none : (s : List ℕ) → All (λ c. c ≢ 46) s → after_last_dot s ≡ none
unfolding after_last_dot last_dot
after_last_dot-none [] h = refl
after_last_dot-none (c ∷ cs) h = rw (after_last_dot-none cs h.1) (ground arith)

after_last_dot-append :
    (base ext : List ℕ) → All (λ c. c ≢ 46) ext → after_last_dot (base ++ 46 ∷ ext) ≡ some ext
unfolding after_last_dot last_dot
after_last_dot-append [] ext h = rw (after_last_dot-none ext h) refl
after_last_dot-append (c ∷ cs) ext h = rw (after_last_dot-append cs ext h) refl

-- What follows the last dot chooses the interpreter, whatever stands before it: a name that ends in
-- a dot and a text without one is treated as that text alone is.
pub raw_interpreter_by_extension-append :
    (base ext : List ℕ)
    → All (λ c. c ≢ 46) ext
    → (raw_interpreter_by_extension (base ++ 46 ∷ ext) ≡ raw_interpreter_by_extension ext)
      × (extension (base ++ 46 ∷ ext) ≡ ext)
unfolding raw_interpreter_by_extension extension or_whole
raw_interpreter_by_extension-append base ext h = (
  rw (after_last_dot-append base ext h, after_last_dot-none ext h) refl,
  rw (after_last_dot-append base ext h) refl,
)
