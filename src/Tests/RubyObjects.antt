-- ===== src/Tests/RubyObjects.antt =====
-- language_rb.c at a concrete interpreter.
use cagekeeper.Prelude.{
  ℕ, ◌≡◌, ◌<◌, refl, true, false, Option, none, List, [], ◌∷◌, length, ltb, if◌then◌else◌, arith,
}
use cagekeeper.Binding.{converted, IsShared}
use cagekeeper.Ruby.{
  Ruby, RubyType, t_nil, t_fixnum, t_true, t_false, t_float, t_string, t_array, ruby_to_value,
  value_to_ruby,
}
use cagekeeper.Ruby.RoundTrip.{IsRuby, HasLongArrays, ruby_to_value-value_to_ruby}
use cagekeeper.Tests.Objects.{
  Object, nothing, real, whole, truth, text, list, empty, object_arrays, store, size, read,
  number_of, text_of, Small,
}
use cagekeeper.Value.{Value, int32, boolean, string, array, nil, cons, count_items}
use cagekeeper.Wire.Measure.{depth}

unfoldable pub type_of_object : Object → RubyType
type_of_object nothing = t_nil
type_of_object (real f) = t_float
type_of_object (whole i) = t_fixnum
type_of_object (truth true) = t_true
type_of_object (truth false) = t_false
type_of_object (text s) = t_string
type_of_object (list xs) = t_array

-- Of an array of up to three entries, the fields for larger ones show the entries' own bytes.
abbrev pub heap_len : Object → ℕ
heap_len o = if ltb 3 (size o) then size o else 20

abbrev pub heap_entry : Object → ℕ → Option Object
heap_entry o i = if ltb 3 (size o) then read o i else none

abbrev pub ruby : Ruby Object
ruby = record {
  type_of_value = type_of_object;
  num2int = number_of;
  num2dbl = number_of;
  symbol_name = text_of;
  string_ptr = text_of;
  array_len = heap_len;
  array_entry = heap_entry;
  qnil = nothing;
  qtrue = truth true;
  qfalse = truth false;
  float_new = real;
  int2fix = whole;
  str_new2 = text;
  ary_new2 = λ n. list empty;
  ary_store = store;
}

store-array :
    (a x : Object) (i : ℕ) → type_of_object a ≡ t_array → type_of_object (store a i x) ≡ t_array
unfolding type_of_object store
store-array (list xs) x i h = refl
store-array nothing x i h = h
store-array (real f) x i h = h
store-array (whole f) x i h = h
store-array (truth b) x i h = h
store-array (text s) x i h = h

large_array :
    (a : Object) (xs : List Object)
    → 3 < length xs
    → object_arrays.Built (length xs) a xs
    → (heap_len a ≡ size a) × ((i : ℕ) → heap_entry a i ≡ read a i)
large_array a xs large built =
    let known : ltb 3 (size a) ≡ true = rw (object_arrays.sized a xs built) (ground arith) in
    (rw known refl, λ i. rw known refl)

ruby-IsRuby : IsRuby ruby Small 3
unfolding type_of_object number_of text_of
ruby-IsRuby = record {
  nil_type = refl;
  true_type = refl;
  false_type = refl;
  float_type = λ f. refl;
  num2dbl-float_new = λ f. refl;
  fixnum_type = λ i h. refl;
  num2int-int2fix = λ i h. refl;
  string_type = λ s. refl;
  string_ptr-str_new2 = λ s h. refl;
  array_new_type = λ n. refl;
  array_store_type = store-array;
  length_of = size;
  entry_of = read;
  arrays = object_arrays;
  heap_array = large_array;
}

-- [7, true, "a", 9]
abbrev four : Value
four = array (cons (int32 7) (cons (boolean true) (cons (string (97 ∷ [])) (cons (int32 9) nil))))

four-IsShared : IsShared Small four
unfolding IsShared
four-IsShared = (omega arith, (tt, ((omega arith, tt), (omega arith, tt))))

four-HasLongArrays : HasLongArrays 3 four
unfolding HasLongArrays count_items
four-HasLongArrays = (omega arith, (tt, (tt, (tt, (tt, tt)))))

depth-four : depth four < 2
unfolding depth
depth-four = omega arith

ruby_to_value-value_to_ruby_example :
    ruby_to_value ruby 2 (value_to_ruby ruby four) ≡ converted four
ruby_to_value-value_to_ruby_example =
    ruby_to_value-value_to_ruby ruby ruby-IsRuby four 2 depth-four four-IsShared four-HasLongArrays
