-- ===== src/Util/Escaping.antt =====
-- util.c, escape_string and mkdir_p: what they write can be read back, and which directories are
-- made.
use cagekeeper.Prelude.{
  ℕ, ◌≡◌, refl, ap, Bool, true, false, Option, none, some, List, [], ◌∷◌, ◌++◌, append_assoc, All,
  arith, ◌==◌, if◌then◌else◌, ==_iff, Option-cases, Bool-cases, inl, inr,
}
use cagekeeper.Util.{
  before, after, backslash, translate, escape_char, escape_string, path_seperator, make_parents,
  skip_root, mkdir_p,
}

-- The character behind a backslash, and what follows it.
unfoldable pub unescape_char : Option ℕ → List ℕ → Option (List ℕ)
unescape_char (some c) cs = some (c ∷ cs)
unescape_char none cs = none

unfoldable pub prepend : ℕ → Option (List ℕ) → Option (List ℕ)
prepend c none = none
prepend c (some cs) = some (c ∷ cs)

unfoldable pub prepend_escaped : Option ℕ → Option (List ℕ) → Option (List ℕ)
unfolding prepend
prepend_escaped none rest = none
prepend_escaped (some c) rest = prepend c rest

-- A reader of escaped text: a backslash has a letter of `after` behind it.
unfoldable pub unescape : Bool → List ℕ → Option (List ℕ)
unfolding prepend prepend_escaped translate
unescape false [] = some []
unescape true [] = none
unescape true (c ∷ cs) = prepend_escaped (translate after before c) (unescape false cs)
unescape false (c ∷ cs) =
    let escaped = unescape true cs in
    let plain = unescape false cs in if c == backslash then escaped else prepend c plain

translate-before : (c a : ℕ) → translate before after c ≡ some a → translate after before a ≡ some c
unfolding translate
translate-before c a e = ground arith

translate-none : (c : ℕ) → translate before after c ≡ none → (c == backslash) ≡ false
unfolding translate
translate-none c e = ground arith

-- What escape_string writes is read back as the string that it was given.
pub unescape-escape_string : (s : List ℕ) → unescape false (escape_string s) ≡ some s
unfolding unescape escape_string escape_char prepend prepend_escaped
unescape-escape_string [] = refl
unescape-escape_string (c ∷ cs) = elim (Option-cases (translate before after c)) [
  | inl e ↦ rw (e, translate-none c e, unescape-escape_string cs) refl
  | inr (a, e) ↦ rw (e, translate-before c a e, unescape-escape_string cs) refl
]

-- `parent` is `path` up to one of its separators.
abbrev pub IsParent : List ℕ → List ℕ → Type 0
IsParent path parent = (rest : List ℕ) × (path ≡ parent ++ path_seperator ∷ rest)

make_parents-IsParent : (seen cs : List ℕ) → All (IsParent (seen ++ cs)) (make_parents seen cs)
unfolding make_parents
make_parents-IsParent seen [] = tt
make_parents-IsParent seen (c ∷ cs) =
    let rest : All (IsParent (seen ++ c ∷ cs)) (make_parents (seen ++ c ∷ []) cs) =
      rw (← append_assoc seen (c ∷ []) cs) (make_parents-IsParent (seen ++ c ∷ []) cs) in
    elim (Bool-cases (c == path_seperator)) [
      | inl e ↦ rw e ((cs, ap (λ x. seen ++ x ∷ cs) ((==_iff c path_seperator).0 e)), rest)
      | inr e ↦ rw e rest
    ]

skip_root-IsParent : (seen cs : List ℕ) → All (IsParent (seen ++ cs)) (skip_root seen cs)
unfolding skip_root
skip_root-IsParent seen [] = tt
skip_root-IsParent seen (c ∷ cs) = elim (Bool-cases (c == path_seperator)) [
  | inl e ↦ rw (e, ← append_assoc seen (c ∷ []) cs) (skip_root-IsParent (seen ++ c ∷ []) cs)
  | inr e ↦ rw (e, ← append_assoc seen (c ∷ []) cs) (make_parents-IsParent (seen ++ c ∷ []) cs)
]

-- mkdir_p makes only parents of the path, each up to a separator, and then the path itself.
pub mkdir_p-IsParent :
    (path : List ℕ)
    → (parents : List (List ℕ)) × (mkdir_p path ≡ parents ++ path ∷ [])
      × All (IsParent path) parents
unfolding mkdir_p
mkdir_p-IsParent path = (skip_root [] path, refl, skip_root-IsParent [] path)
