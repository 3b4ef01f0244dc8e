-- ===== src/Util/Text.antt =====
-- util.c: escape_string, concat_paths and mkdir_p. A C string is the list of the bytes before its
-- terminator.
use cagekeeper.Prelude.{
  ℕ, zero, suc, Option, none, some, List, [], ◌∷◌, ◌++◌, length, get_or, ◌==◌, if◌then◌else◌,
}

-- `before` and `after`: the characters that are escaped, and what stands for them
abbrev pub before : List ℕ
before = 7 ∷ 8 ∷ 12 ∷ 10 ∷ 13 ∷ 9 ∷ 11 ∷ 92 ∷ 34 ∷ 39 ∷ []

abbrev pub after : List ℕ
after = 97 ∷ 98 ∷ 102 ∷ 110 ∷ 114 ∷ 116 ∷ 118 ∷ 92 ∷ 34 ∷ 39 ∷ []

abbrev pub backslash : ℕ
backslash = 92

-- `to[strchr(from, c)-from]`
unfoldable pub translate : List ℕ → List ℕ → ℕ → Option ℕ
translate [] to c = none
translate (a ∷ from) [] c = none
translate (a ∷ from) (b ∷ to) c = if a == c then some b else translate from to c

-- one round of the loop
unfoldable pub escape_char : ℕ → Option ℕ → List ℕ
escape_char c none = c ∷ []
escape_char c (some a) = backslash ∷ a ∷ []

unfoldable pub escape_string : List ℕ → List ℕ
unfolding escape_char translate
escape_string [] = []
escape_string (c ∷ cs) = escape_char c (translate before after c) ++ escape_string cs

abbrev pub path_seperator : ℕ
path_seperator = 47

-- the length that is left of `base` without the separators at its end
unfoldable pub trim_end : List ℕ → ℕ → ℕ
trim_end base zero = zero
trim_end base (suc l) =
    let shorter = trim_end base l in if get_or base l 0 == path_seperator then shorter else suc l

-- `add` from its first character that is no separator
unfoldable pub trim_start : List ℕ → List ℕ
trim_start [] = []
trim_start (c ∷ cs) = if c == path_seperator then trim_start cs else c ∷ cs

-- `memcpy(n, base, l)`
unfoldable pub prefix : List ℕ → ℕ → List ℕ
prefix cs zero = []
prefix [] (suc l) = []
prefix (c ∷ cs) (suc l) = c ∷ prefix cs l

unfoldable pub concat_paths : List ℕ → List ℕ → List ℕ
unfolding trim_end trim_start prefix
concat_paths base add = prefix base (trim_end base (length base)) ++ path_seperator ∷ trim_start add

-- The second loop: `path` is cut at each separator, and the directory before it made. `seen` is
-- what `p` has passed.
unfoldable pub make_parents : List ℕ → List ℕ → List (List ℕ)
make_parents seen [] = []
make_parents seen (c ∷ cs) =
    if c == path_seperator
    then seen ∷ make_parents (seen ++ c ∷ []) cs
    else make_parents (seen ++ c ∷ []) cs

-- The first loop passes the separators at the start.
unfoldable pub skip_root : List ℕ → List ℕ → List (List ℕ)
unfolding make_parents
skip_root seen [] = []
skip_root seen (c ∷ cs) =
    if c == path_seperator then skip_root (seen ++ c ∷ []) cs else make_parents seen (c ∷ cs)

-- The calls of mkdir(2), whose results are not looked at.
unfoldable pub mkdir_p : List ℕ → List (List ℕ)
unfolding skip_root
mkdir_p path = skip_root [] path ++ path ∷ []
