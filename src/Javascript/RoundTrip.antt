-- ===== src/Javascript/RoundTrip.antt =====
-- language_js.c: a value that goes to JavaScript comes back.
use cagekeeper.Prelude.{
  ℕ, zero, suc, ◌<◌, ◌≡◌, refl, ap, ◌∙◌, Bool, true, false, some, List, [], ◌∷◌, arith, All, ◌≢◌,
}
use cagekeeper.Binding.{
  Converted, converted, store_all, pointer_to, pointer_list, IsShared, AreShared,
  copies_of_list-pointer_list,
}
use cagekeeper.Binding.Built.{IsArray, convert_each, collect-Built}
use cagekeeper.Function.Values.{Copy, copied_array}
use cagekeeper.Javascript.Values.{
  Js, array_or_null, object_to_value, jsval_tests, jsval_to_value, fill_array, value_to_jsval,
  values_to_jsvals,
}
use cagekeeper.Value.{
  Value, Items, void, float32, int32, boolean, string, array, function, nil, cons,
}
use cagekeeper.Wire.Measure.{depth, depth_items}

-- Neither null nor undefined.
abbrev pub IsSomething : {V : Type 0} → Js V → V → Type 0
IsSomething js v = (js.is_null v ≡ false) × (js.is_void v ≡ false)

-- An object that is no other kind of value.
abbrev pub IsObject : {V : Type 0} → Js V → V → Type 0
IsObject js v =
    IsSomething js v
    × (js.is_int v ≡ false)
    × (js.is_number v ≡ false)
    × (js.is_string v ≡ false)
    × (js.is_boolean v ≡ false)
    × (js.is_object v ≡ true)

-- What the library documents of what the code uses. `IsInt` holds of the numbers that a `jsval` can
-- hold as integers; there is memory for arrays, which begin as `empty`.
pub record IsJs {V : Type 0} (js : Js V) (IsInt : ℕ → Type 0) (empty : V) (size : V → ℕ)
    : Type 1 where
  pub null_type : js.is_null js.null_object ≡ true
  pub int_something : (i : ℕ) → IsInt i → IsSomething js (js.int_value i)
  pub int_type : (i : ℕ) → IsInt i → js.is_int (js.int_value i) ≡ true
  pub to_int-int_value : (i : ℕ) → IsInt i → js.to_int (js.int_value i) ≡ i
  pub double_something : (f : ℕ) → IsSomething js (js.double_value f)
  pub double_type :
      (f : ℕ) → (js.is_int (js.double_value f) ≡ false) × (js.is_number (js.double_value f) ≡ true)
  pub to_double-double_value : (f : ℕ) → js.to_double (js.double_value f) ≡ f
  pub string_something : (s : List ℕ) → IsSomething js (js.intern_string s)
  pub string_type :
      (s : List ℕ)
      → (js.is_int (js.intern_string s) ≡ false)
        × (js.is_number (js.intern_string s) ≡ false)
        × (js.is_string (js.intern_string s) ≡ true)
  pub encode_string-intern_string :
      (s : List ℕ) → All (λ b. b ≢ 0) s → js.encode_string (js.intern_string s) ≡ s
  pub boolean_something : (b : Bool) → IsSomething js (js.boolean_value b)
  pub boolean_type :
      (b : Bool)
      → (js.is_int (js.boolean_value b) ≡ false)
        × (js.is_number (js.boolean_value b) ≡ false)
        × (js.is_string (js.boolean_value b) ≡ false)
        × (js.is_boolean (js.boolean_value b) ≡ true)
  pub to_boolean-boolean_value : (b : Bool) → js.to_boolean (js.boolean_value b) ≡ b
  pub new_array : js.new_array_object ≡ some empty
  pub empty_type : IsObject js empty
  pub set_element_type : (a x : V) (i : ℕ) → IsObject js a → IsObject js (js.set_element a i x)
  pub array_length : (a : V) → IsObject js a → js.get_array_length a ≡ some (size a)
  pub arrays : IsArray (λ n. empty) js.set_element size js.get_element

module _ {V : Type 0} (js : Js V) {IsInt : ℕ → Type 0} {empty : V} {size : V → ℕ}
    (laws : IsJs js IsInt empty size) where
  store_all_type :
      (a : V) (i : ℕ) (xs : List V) → IsObject js a → IsObject js (store_all js.set_element a i xs)
  unfolding store_all
  store_all_type a i [] h = h
  store_all_type a i (x ∷ xs) h =
      store_all_type (js.set_element a i x) (suc i) xs (laws.set_element_type a x i h)

  -- An array that the loop has built is converted entry by entry.
  array_back :
      (convert : V → Converted Copy) (xs : List V)
      → let a = store_all js.set_element empty 0 xs in
        jsval_tests js convert a ≡ array_or_null js (convert_each convert xs)
  unfolding jsval_tests object_to_value
  array_back convert xs =
      let t = store_all_type empty 0 xs laws.empty_type in
      rw
        (
          t.0.0,
          t.0.1,
          t.1,
          t.2,
          t.3,
          t.4,
          t.5,
          laws.array_length (store_all js.set_element empty 0 xs) t,
          collect-Built laws.arrays convert xs,
        )
        refl

  mutual
    unfolding value_to_jsval fill_array jsval_to_value jsval_tests IsShared depth convert_each
        pointer_to pointer_list array_or_null

    back :
        (v : Value) (f : ℕ)
        → depth v < f
        → IsShared IsInt v
        → jsval_to_value js f (value_to_jsval js v) ≡ converted (pointer_to v)
    back v zero lt h = absurd (omega arith)
    back void (suc f) lt h = rw (laws.null_type) refl
    back (float32 x) (suc f) lt h =
        let s = laws.double_something x in
        rw (s.0, s.1, (laws.double_type x).0, (laws.double_type x).1, laws.to_double-double_value x)
          refl
    back (int32 i) (suc f) lt h =
        let s = laws.int_something i h in
        rw (s.0, s.1, laws.int_type i h, laws.to_int-int_value i h) refl
    back (boolean b) (suc f) lt h =
        let s = laws.boolean_something b in
        let t = laws.boolean_type b in
        rw (s.0, s.1, t.0, t.1, t.2, t.3, laws.to_boolean-boolean_value b) refl
    back (string x) (suc f) lt h =
        let s = laws.string_something x in
        let t = laws.string_type x in
        rw (s.0, s.1, t.0, t.1, t.2, laws.encode_string-intern_string x h) refl
    back (array vs) (suc f) lt h = rw (laws.new_array) (
        array_back (jsval_to_value js f) (values_to_jsvals js vs)
        ∙ rw (back_each vs f (omega arith) h)
            (ap (λ x. converted (copied_array x)) (copies_of_list-pointer_list vs)))
    back (function p n) (suc f) lt h = elim h [ ]

    back_each :
        (vs : Items) (f : ℕ)
        → depth_items vs < f
        → AreShared IsInt vs
        → convert_each (jsval_to_value js f) (values_to_jsvals js vs) ≡ converted (pointer_list vs)
    back_each nil f lt h = refl
    back_each (cons v vs) f lt h =
        rw (back v f (omega arith) h.0, back_each vs f (omega arith) h.1) refl

  -- With a library that does what is documented of it, every value without functions, whose whole
  -- numbers are in the range of a `jsval`'s integers and whose strings are C strings, comes back from
  -- JavaScript as it was and with no null pointer inside, with a level of recursion for each level of
  -- nesting.
  pub jsval_to_value-value_to_jsval :
      (v : Value) (f : ℕ)
      → depth v < f
      → IsShared IsInt v
      → jsval_to_value js f (value_to_jsval js v) ≡ converted (pointer_to v)
  jsval_to_value-value_to_jsval v f lt h = back v f lt h
