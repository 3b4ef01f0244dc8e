-- ===== src/Javascript/Values.antt =====
-- language_js.c, lines 79 to 172: values to and from JavaScript's. SpiderMonkey is a parameter. An
-- array that is being filled is known to nobody else, so that a store gives the changed array. What
-- goes to `language_error` on the way is left out.
use cagekeeper.Prelude.{ℕ, zero, suc, Bool, Option, none, some, List, [], ◌∷◌, if◌then◌else◌}
use cagekeeper.Binding.{
  Converted, converted, refused, out_of_fuel, store_all, collect, copies_of_list,
}
use cagekeeper.Function.Values.{Copy, null, scalar, copied_array}
use cagekeeper.Value.{
  Value, Items, void, float32, int32, boolean, string, array, function, nil, cons,
}

-- What the code uses of the library, for a `jsval` each: the macros JSVAL_IS_…, JSVAL_TO_… and
-- …_TO_JSVAL, and the functions on strings and arrays.
pub record Js (V : Type 0) : Type 0 where
  pub is_null : V → Bool
  pub is_void : V → Bool
  pub is_int : V → Bool
  pub is_number : V → Bool
  pub is_string : V → Bool
  pub is_boolean : V → Bool
  pub is_object : V → Bool
  pub to_int : V → ℕ
  pub to_double : V → ℕ
  pub encode_string : V → List ℕ
  pub to_boolean : V → Bool
  pub get_array_length : V → Option ℕ
  pub get_element : V → ℕ → Option V
  pub null_object : V
  pub double_value : ℕ → V
  pub int_value : ℕ → V
  pub boolean_value : Bool → V
  pub intern_string : List ℕ → V
  pub new_array_object : Option V
  pub set_element : V → ℕ → V → V

module _ {V : Type 0} (js : Js V) where
  -- An entry that the library does not give makes the whole array NULL; one that is not converted
  -- becomes an entry NULL.
  unfoldable pub array_or_null : Converted (List Copy) → Converted Copy
  array_or_null (converted cs) = converted (copied_array (copies_of_list cs))
  array_or_null refused = converted null
  array_or_null out_of_fuel = out_of_fuel

  unfoldable pub object_to_value : (V → Converted Copy) → V → Option ℕ → Converted Copy
  unfolding array_or_null
  object_to_value convert v none = converted null
  object_to_value convert v (some length) =
      array_or_null (collect convert (js.get_element v) length 0)

  -- the tests of `jsval_to_value`, in order; `convert` is the function itself
  unfoldable pub jsval_tests : (V → Converted Copy) → V → Converted Copy
  unfolding object_to_value
  jsval_tests convert v =
      if js.is_null v
      then converted (scalar void)
      else if js.is_void v
      then converted (scalar void)
      else if js.is_int v
      then converted (scalar (int32 (js.to_int v)))
      else if js.is_number v
      then converted (scalar (float32 (js.to_double v)))
      else if js.is_string v
      then converted (scalar (string (js.encode_string v)))
      else if js.is_boolean v
      then converted (scalar (boolean (js.to_boolean v)))
      else if js.is_object v
      then object_to_value convert v (js.get_array_length v)
      else converted null

  unfoldable pub jsval_to_value : ℕ → V → Converted Copy
  unfolding jsval_tests
  jsval_to_value zero v = out_of_fuel
  jsval_to_value (suc f) v = jsval_tests (jsval_to_value f) v

  unfoldable pub js_argv_to_args : ℕ → List V → Converted (List Copy)
  js_argv_to_args f [] = converted []
  js_argv_to_args f (v ∷ argv) = elim (jsval_to_value f v) [
    | converted a ↦ elim (js_argv_to_args f argv) [
      | converted args ↦ converted (a ∷ args)
      | refused ↦ refused
      | out_of_fuel ↦ out_of_fuel
    ]
    | refused ↦ refused
    | out_of_fuel ↦ out_of_fuel
  ]

  -- the array, if there is memory for it, and the loop that sets its elements
  unfoldable pub fill_array : Option V → List V → V
  fill_array none entries = js.null_object
  fill_array (some a) entries = store_all js.set_element a 0 entries

  unfoldable mutual
    unfolding fill_array

    pub value_to_jsval : Value → V
    value_to_jsval void = js.null_object
    value_to_jsval (float32 f) = js.double_value f
    value_to_jsval (int32 i) = js.int_value i
    value_to_jsval (boolean b) = js.boolean_value b
    value_to_jsval (string s) = js.intern_string s
    value_to_jsval (array vs) = fill_array js.new_array_object (values_to_jsvals vs)
    value_to_jsval (function p n) = js.null_object

    pub values_to_jsvals : Items → List V
    values_to_jsvals nil = []
    values_to_jsvals (cons v vs) = value_to_jsval v ∷ values_to_jsvals vs
