-- ===== src/Python/Values.antt =====
-- language_py.c, lines 26 to 122: values to and from Python's. The Python library is a parameter; the
-- macros are those before version 3. A list that is being filled is known to nobody else, so that a
-- store gives the changed list. What goes to `language_error` on the way is left out.
use cagekeeper.Prelude.{
  ℕ, zero, suc, Bool, true, false, Option, none, some, List, [], ◌∷◌, if◌then◌else◌,
}
use cagekeeper.Binding.{
  Converted, converted, refused, out_of_fuel, store_all, collect, copies_of_list,
}
use cagekeeper.Function.Values.{Copy, null, scalar, copied_array}
use cagekeeper.Value.{
  Value, Items, void, float32, int32, boolean, string, array, function, nil, cons, count_items,
}

-- What the code uses of the library, for an object each. `as_data` is the internal buffer of a
-- Unicode object, read as a C string. `unicode_from_string` gives NULL for bytes that are not UTF-8.
pub record Python (O : Type 0) : Type 0 where
  pub is_none : O → Bool
  pub unicode_check : O → Bool
  pub string_check : O → Bool
  pub long_check : O → Bool
  pub int_check : O → Bool
  pub float_check : O → Bool
  pub bool_check : O → Bool
  pub list_check : O → Bool
  pub tuple_check : O → Bool
  pub as_data : O → List ℕ
  pub as_string : O → List ℕ
  pub long_as_long_long : O → ℕ
  pub int_as_long : O → ℕ
  pub float_as_double : O → ℕ
  pub is_true : O → Bool
  pub list_size : O → ℕ
  pub list_item : O → ℕ → Option O
  pub tuple_size : O → ℕ
  pub tuple_item : O → ℕ → Option O
  pub none_object : O
  pub float_from_double : ℕ → O
  pub int_from_long : ℕ → O
  pub bool_from_long : Bool → O
  pub unicode_from_string : List ℕ → Option O
  pub list_new : ℕ → O
  pub list_set_item : O → ℕ → O → O
  pub tuple_new : ℕ → O
  pub tuple_set_item : O → ℕ → O → O

module _ {O : Type 0} (py : Python O) where
  -- An entry that the library does not give makes the whole array NULL; one that is not converted
  -- becomes an entry NULL.
  unfoldable pub array_or_null : Converted (List Copy) → Converted Copy
  array_or_null (converted cs) = converted (copied_array (copies_of_list cs))
  array_or_null refused = converted null
  array_or_null out_of_fuel = out_of_fuel

  -- the tests of `pyobject_to_value`, in order; `convert` is the function itself
  unfoldable pub pyobject_tests : (O → Converted Copy) → O → Converted Copy
  unfolding array_or_null
  pyobject_tests convert o =
      if py.is_none o
      then converted (scalar void)
      else if py.unicode_check o
      then converted (scalar (string (py.as_data o)))
      else if py.string_check o
      then converted (scalar (string (py.as_string o)))
      else if py.long_check o
      then converted (scalar (int32 (py.long_as_long_long o)))
      else if py.int_check o
      then converted (scalar (int32 (py.int_as_long o)))
      else if py.float_check o
      then converted (scalar (float32 (py.float_as_double o)))
      else if py.bool_check o
      then converted (scalar (boolean (py.is_true o)))
      else if py.list_check o
      then array_or_null (collect convert (py.list_item o) (py.list_size o) 0)
      else if py.tuple_check o
      then array_or_null (collect convert (py.tuple_item o) (py.tuple_size o) 0)
      else converted null

  unfoldable pub pyobject_to_value : ℕ → O → Converted Copy
  unfolding pyobject_tests
  pyobject_to_value zero o = out_of_fuel
  pyobject_to_value (suc f) o = pyobject_tests (pyobject_to_value f) o

  -- the array of its entries, or NULL where an entry is NULL
  unfoldable pub to_sequence : Bool → ℕ → Option (List O) → Option O
  to_sequence arrays_as_tuples length none = none
  to_sequence true length (some entries) =
      some (store_all py.tuple_set_item (py.tuple_new length) 0 entries)
  to_sequence false length (some entries) =
      some (store_all py.list_set_item (py.list_new length) 0 entries)

  unfoldable pub with_entry : Option O → Option (List O) → Option (List O)
  with_entry none entries = none
  with_entry (some entry) none = none
  with_entry (some entry) (some entries) = some (entry ∷ entries)

  -- `value_to_pyobject`; the entries of an array are lists in turn
  unfoldable mutual
    unfolding to_sequence with_entry

    pub value_to_pyobject : Value → Bool → Option O
    value_to_pyobject void arrays_as_tuples = some py.none_object
    value_to_pyobject (float32 f) arrays_as_tuples = some (py.float_from_double f)
    value_to_pyobject (int32 i) arrays_as_tuples = some (py.int_from_long i)
    value_to_pyobject (boolean b) arrays_as_tuples = some (py.bool_from_long b)
    value_to_pyobject (string s) arrays_as_tuples = py.unicode_from_string s
    value_to_pyobject (array vs) arrays_as_tuples =
        to_sequence arrays_as_tuples (count_items vs) (values_to_pyobjects vs)
    value_to_pyobject (function p n) arrays_as_tuples = none

    pub values_to_pyobjects : Items → Option (List O)
    values_to_pyobjects nil = some []
    values_to_pyobjects (cons v vs) =
        with_entry (value_to_pyobject v false) (values_to_pyobjects vs)
