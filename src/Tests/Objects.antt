-- ===== src/Tests/Objects.antt =====
-- The objects of a concrete interpreter, which are the values themselves: one type serves for Ruby,
-- JavaScript and Python.
use cagekeeper.Prelude.{
  ℕ, zero, suc, ◌≡◌, ◌<◌, refl, ap, true, false, Bool, Option, none, some, List, [], ◌∷◌, ◌++◌,
  length, arith,
}
use cagekeeper.Binding.{IsShared}
use cagekeeper.Binding.Built.{IsArray, nth}
use cagekeeper.Value.{Value, int32, boolean, string, array, nil, cons}
use cagekeeper.Wire.Measure.{depth}

mutual
  pub data Object : Type 0 where
    nothing : Object
    real whole : ℕ → Object
    truth : Bool → Object
    text : List ℕ → Object
    list : Objects → Object

  pub data Objects : Type 0 where
    empty : Objects
    object_and : Object → Objects → Objects

unfoldable pub objects : List Object → Objects
objects [] = empty
objects (x ∷ xs) = object_and x (objects xs)

-- storing behind the last entry
unfoldable pub add : Objects → Object → Objects
add empty x = object_and x empty
add (object_and y ys) x = object_and y (add ys x)

unfoldable pub entries : Objects → ℕ
entries empty = 0
entries (object_and x xs) = suc (entries xs)

unfoldable pub entry : Objects → ℕ → Option Object
entry empty i = none
entry (object_and x xs) zero = some x
entry (object_and x xs) (suc i) = entry xs i

unfoldable pub store : Object → ℕ → Object → Object
store (list xs) i x = list (add xs x)
store o i x = o

unfoldable pub size : Object → ℕ
size (list xs) = entries xs
size o = 0

unfoldable pub read : Object → ℕ → Option Object
read (list xs) i = entry xs i
read o i = none

pub add-objects : (xs : List Object) (x : Object) → add (objects xs) x ≡ objects (xs ++ x ∷ [])
unfolding add objects
add-objects [] x = refl
add-objects (y ∷ xs) x = ap (object_and y) (add-objects xs x)

pub entries-objects : (xs : List Object) → entries (objects xs) ≡ length xs
unfolding entries objects
entries-objects [] = refl
entries-objects (x ∷ xs) = ap suc (entries-objects xs)

pub entry-objects : (xs : List Object) (i : ℕ) → entry (objects xs) i ≡ nth xs i
unfolding entry objects nth
entry-objects [] i = refl
entry-objects (x ∷ xs) zero = refl
entry-objects (x ∷ xs) (suc i) = entry-objects xs i

pub object_arrays : IsArray (λ n. list empty) store size read
unfolding store size read objects
object_arrays = record {
  Built = λ n a xs. a ≡ list (objects xs);
  fresh = λ n. refl;
  stored = λ n a xs x small e. rw e (ap list (add-objects xs x));
  sized = λ a xs e. rw e (entries-objects xs);
  reads = λ a xs i e. rw e (entry-objects xs i);
}

unfoldable pub number_of : Object → ℕ
number_of (real f) = f
number_of (whole i) = i
number_of (truth true) = 1
number_of o = 0

unfoldable pub text_of : Object → List ℕ
text_of (text s) = s
text_of o = []

abbrev pub Small : ℕ → Type 0
Small i = i < 1000

-- [7, true, "a"]
abbrev pub sample : Value
sample = array (cons (int32 7) (cons (boolean true) (cons (string (97 ∷ [])) nil)))

pub sample-IsShared : IsShared Small sample
unfolding IsShared
sample-IsShared = (omega arith, (tt, ((omega arith, tt), tt)))

pub depth-sample : depth sample < 2
unfolding depth
depth-sample = omega arith

unfoldable pub is_nothing : Object → Bool
is_nothing nothing = true
is_nothing o = false

unfoldable pub is_real : Object → Bool
is_real (real f) = true
is_real o = false

unfoldable pub is_whole : Object → Bool
is_whole (whole i) = true
is_whole o = false

unfoldable pub is_truth : Object → Bool
is_truth (truth b) = true
is_truth o = false

unfoldable pub is_text : Object → Bool
is_text (text s) = true
is_text o = false

unfoldable pub is_list : Object → Bool
is_list (list xs) = true
is_list o = false

unfoldable pub truth_of : Object → Bool
truth_of (truth b) = b
truth_of o = false
