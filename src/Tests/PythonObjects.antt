-- ===== src/Tests/PythonObjects.antt =====
-- language_py.c at a concrete interpreter.
use cagekeeper.Prelude.{
  ℕ, ◌≡◌, refl, true, false, Bool, ◌&&◌, ltb, Option, none, some, List, [], ◌∷◌, if◌then◌else◌,
}
use cagekeeper.Binding.{converted, pointer_to}
use cagekeeper.Python.{Python, pyobject_to_value, value_to_pyobject}
use cagekeeper.Python.RoundTrip.{
  IsPython, HasTexts, python_form, pyobject_to_value-value_to_pyobject,
}
use cagekeeper.Wire.{c_string}
use cagekeeper.Tests.Objects.{
  Object, nothing, real, whole, truth, text, list, empty, object_arrays, store, size, read,
  number_of, text_of, truth_of, is_nothing, is_real, is_truth, is_text, is_list, Small, sample,
  sample-IsShared, depth-sample,
}

is_number_object : Object → Bool
is_number_object (whole i) = true
is_number_object (truth b) = true
is_number_object o = false

-- A text is in memory with a zero byte behind each of its bytes.
wide : List ℕ → List ℕ
wide [] = []
wide (c ∷ s) = c ∷ (0 ∷ wide s)

-- A library that decodes ASCII alone.
is_ascii : List ℕ → Bool
is_ascii [] = true
is_ascii (c ∷ s) = ltb c 128 && is_ascii s

decode : List ℕ → Option Object
unfolding is_ascii
decode s = if is_ascii s then some (text s) else none

abbrev IsAscii : List ℕ → Type 0
IsAscii s = is_ascii s ≡ true

abbrev cpython : Python Object
cpython = record {
  is_none = is_nothing;
  unicode_check = is_text;
  string_check = λ o. false;
  long_check = λ o. false;
  int_check = is_number_object;
  float_check = is_real;
  bool_check = is_truth;
  list_check = is_list;
  tuple_check = λ o. false;
  as_data = λ o. c_string (wide (text_of o));
  as_string = text_of;
  long_as_long_long = number_of;
  int_as_long = number_of;
  float_as_double = number_of;
  is_true = truth_of;
  list_size = size;
  list_item = read;
  tuple_size = size;
  tuple_item = read;
  none_object = nothing;
  float_from_double = real;
  int_from_long = whole;
  bool_from_long = truth;
  unicode_from_string = decode;
  list_new = λ n. list empty;
  list_set_item = store;
  tuple_new = λ n. list empty;
  tuple_set_item = store;
}

abbrev IsListAlone : Object → Type 0
IsListAlone o =
    (((is_nothing o ≡ false) × (is_text o ≡ false) × (false ≡ false) × (false ≡ false))
      × (is_number_object o ≡ false)
      × (is_real o ≡ false)
      × (is_truth o ≡ false))
    × (is_list o ≡ true)

store-IsListAlone : (a x : Object) (i : ℕ) → IsListAlone a → IsListAlone (store a i x)
unfolding store is_nothing is_number_object is_real is_text is_truth is_list
store-IsListAlone (list xs) x i h = (((refl, refl, refl, refl), refl, refl, refl), refl)
store-IsListAlone nothing x i h = h
store-IsListAlone (real f) x i h = h
store-IsListAlone (whole f) x i h = h
store-IsListAlone (truth b) x i h = h
store-IsListAlone (text s) x i h = h

number_of-truth : (b : Bool) → number_of (truth b) ≡ (if b then 1 else 0)
unfolding number_of
number_of-truth true = refl
number_of-truth false = refl

cpython-IsPython : IsPython cpython Small IsAscii wide
unfolding is_nothing is_number_object is_real is_text is_truth is_list number_of text_of truth_of
    decode
cpython-IsPython = record {
  none_type = refl;
  unicode_type = λ s ascii. (text s, rw ascii refl, refl, refl, refl);
  int_type = λ i h. ((refl, refl, refl, refl), refl);
  int_as_long-int_from_long = λ i h. refl;
  bool_type = λ b. ((refl, refl, refl, refl), refl);
  int_as_long-bool_from_long = number_of-truth;
  float_type = λ f. ((refl, refl, refl, refl), refl, refl);
  float_as_double-float_from_double = λ f. refl;
  list_new_type = λ n. (((refl, refl, refl, refl), refl, refl, refl), refl);
  list_set_type = λ a x i h. store-IsListAlone a x i h;
  lists = object_arrays;
}

sample-HasTexts : HasTexts IsAscii sample
unfolding HasTexts is_ascii
sample-HasTexts = (tt, (tt, (refl, tt)))

pyobject_to_value-value_to_pyobject_example :
    (o : Object) × (value_to_pyobject cpython sample false ≡ some o)
    × (pyobject_to_value cpython 2 o ≡ converted (pointer_to (python_form wide sample)))
pyobject_to_value-value_to_pyobject_example =
    pyobject_to_value-value_to_pyobject cpython cpython-IsPython sample 2 depth-sample
      sample-IsShared sample-HasTexts
