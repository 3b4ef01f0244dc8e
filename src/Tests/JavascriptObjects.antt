-- ===== src/Tests/JavascriptObjects.antt =====
-- language_js.c at a concrete interpreter.
use cagekeeper.Prelude.{ℕ, ◌≡◌, refl, true, false, some}
use cagekeeper.Binding.{converted, pointer_to}
use cagekeeper.Javascript.{Js, jsval_to_value, value_to_jsval}
use cagekeeper.Javascript.RoundTrip.{IsJs, jsval_to_value-value_to_jsval}
use cagekeeper.Tests.Objects.{
  Object, nothing, real, whole, truth, text, list, empty, object_arrays, store, size, read,
  number_of, text_of, truth_of, is_nothing, is_real, is_whole, is_truth, is_text, is_list, Small,
  sample, sample-IsShared, depth-sample,
}

abbrev pub spidermonkey : Js Object
spidermonkey = record {
  is_null = is_nothing;
  is_void = λ o. false;
  is_int = is_whole;
  is_number = is_real;
  is_string = is_text;
  is_boolean = is_truth;
  is_object = is_list;
  to_int = number_of;
  to_double = number_of;
  encode_string = text_of;
  to_boolean = truth_of;
  get_array_length = λ o. some (size o);
  get_element = read;
  null_object = nothing;
  double_value = real;
  int_value = whole;
  boolean_value = truth;
  intern_string = text;
  new_array_object = some (list empty);
  set_element = store;
}

abbrev IsListObject : Object → Type 0
IsListObject o =
    ((is_nothing o ≡ false) × (false ≡ false))
    × (is_whole o ≡ false)
    × (is_real o ≡ false)
    × (is_text o ≡ false)
    × (is_truth o ≡ false)
    × (is_list o ≡ true)

store-IsListObject : (a x : Object) (i : ℕ) → IsListObject a → IsListObject (store a i x)
unfolding store is_nothing is_whole is_real is_text is_truth is_list
store-IsListObject (list xs) x i h = ((refl, refl), refl, refl, refl, refl, refl)
store-IsListObject nothing x i h = h
store-IsListObject (real f) x i h = h
store-IsListObject (whole f) x i h = h
store-IsListObject (truth b) x i h = h
store-IsListObject (text s) x i h = h

spidermonkey-IsJs : IsJs spidermonkey Small (list empty) size
unfolding is_nothing is_whole is_real is_text is_truth is_list number_of text_of truth_of
spidermonkey-IsJs = record {
  null_type = refl;
  int_something = λ i h. (refl, refl);
  int_type = λ i h. refl;
  to_int-int_value = λ i h. refl;
  double_something = λ f. (refl, refl);
  double_type = λ f. (refl, refl);
  to_double-double_value = λ f. refl;
  string_something = λ s. (refl, refl);
  string_type = λ s. (refl, refl, refl);
  encode_string-intern_string = λ s h. refl;
  boolean_something = λ b. (refl, refl);
  boolean_type = λ b. (refl, refl, refl, refl);
  to_boolean-boolean_value = λ b. refl;
  new_array = refl;
  empty_type = ((refl, refl), refl, refl, refl, refl, refl);
  set_element_type = store-IsListObject;
  array_length = λ a h. refl;
  arrays = object_arrays;
}

jsval_to_value-value_to_jsval_example :
    jsval_to_value spidermonkey 2 (value_to_jsval spidermonkey sample)
    ≡ converted (pointer_to sample)
jsval_to_value-value_to_jsval_example =
    jsval_to_value-value_to_jsval spidermonkey spidermonkey-IsJs sample 2 depth-sample
      sample-IsShared
