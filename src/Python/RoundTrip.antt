-- ===== src/Python/RoundTrip.antt =====
-- language_py.c: what becomes of a value that goes to Python and comes back.
use cagekeeper.Prelude.{
  ℕ, zero, suc, ◌<◌, ◌≡◌, refl, ap, ◌∙◌, Bool, true, false, some, List, [], ◌∷◌, length, arith,
  if◌then◌else◌,
}
use cagekeeper.Binding.{
  Converted, converted, store_all, pointer_to, pointer_list, IsShared, AreShared,
  copies_of_list-pointer_list,
}
use cagekeeper.Binding.Built.{IsArray, convert_each, collect-Built}
use cagekeeper.Function.Values.{Copy, copied_array}
use cagekeeper.Python.Values.{
  Python, array_or_null, pyobject_tests, pyobject_to_value, to_sequence, with_entry,
  value_to_pyobject, values_to_pyobjects,
}
use cagekeeper.Value.{
  Value, Items, void, float32, int32, boolean, string, array, function, nil, cons, count_items,
}
use cagekeeper.Wire.{c_string}
use cagekeeper.Wire.Measure.{depth, depth_items}

-- Neither None, text nor a long integer.
abbrev pub IsBare : {O : Type 0} → Python O → O → Type 0
IsBare py o =
    (py.is_none o ≡ false)
    × (py.unicode_check o ≡ false)
    × (py.string_check o ≡ false)
    × (py.long_check o ≡ false)

-- Nothing that is tested before lists.
abbrev pub IsCompound : {O : Type 0} → Python O → O → Type 0
IsCompound py o =
    IsBare py o × (py.int_check o ≡ false) × (py.float_check o ≡ false) × (py.bool_check o ≡ false)

-- What the library documents of what the code uses. `IsLong` holds of the numbers that an integer
-- object can hold, `IsUtf8` of the texts that can be decoded, and `buffer` is the internal
-- representation of a text. A Boolean object is an integer object too, 0 or 1.
pub record IsPython {O : Type 0} (py : Python O) (IsLong : ℕ → Type 0) (IsUtf8 : List ℕ → Type 0)
    (buffer : List ℕ → List ℕ) : Type 1 where
  pub none_type : py.is_none py.none_object ≡ true
  pub unicode_type :
      (s : List ℕ)
      → IsUtf8 s
      → (o : O) × (py.unicode_from_string s ≡ some o)
        × (py.is_none o ≡ false)
        × (py.unicode_check o ≡ true)
        × (py.as_data o ≡ c_string (buffer s))
  pub int_type :
      (i : ℕ)
      → IsLong i
      → IsBare py (py.int_from_long i) × (py.int_check (py.int_from_long i) ≡ true)
  pub int_as_long-int_from_long : (i : ℕ) → IsLong i → py.int_as_long (py.int_from_long i) ≡ i
  pub bool_type :
      (b : Bool) → IsBare py (py.bool_from_long b) × (py.int_check (py.bool_from_long b) ≡ true)
  pub int_as_long-bool_from_long :
      (b : Bool) → py.int_as_long (py.bool_from_long b) ≡ (if b then 1 else 0)
  pub float_type :
      (f : ℕ)
      → IsBare py (py.float_from_double f)
        × (py.int_check (py.float_from_double f) ≡ false)
        × (py.float_check (py.float_from_double f) ≡ true)
  pub float_as_double-float_from_double : (f : ℕ) → py.float_as_double (py.float_from_double f) ≡ f
  pub list_new_type :
      (n : ℕ) → IsCompound py (py.list_new n) × (py.list_check (py.list_new n) ≡ true)
  pub list_set_type :
      (a x : O) (i : ℕ)
      → IsCompound py a × (py.list_check a ≡ true)
      → IsCompound py (py.list_set_item a i x) × (py.list_check (py.list_set_item a i x) ≡ true)
  pub lists : IsArray py.list_new py.list_set_item py.list_size py.list_item

-- What is left of a value: a Boolean is a number, and a string is what its internal representation
-- shows before the first zero byte.
unfoldable mutual
  pub python_form : (List ℕ → List ℕ) → Value → Value
  python_form buffer void = void
  python_form buffer (float32 f) = float32 f
  python_form buffer (int32 i) = int32 i
  python_form buffer (boolean b) = int32 (if b then 1 else 0)
  python_form buffer (string s) = string (c_string (buffer s))
  python_form buffer (array vs) = array (python_forms buffer vs)
  python_form buffer (function p n) = function p n

  pub python_forms : (List ℕ → List ℕ) → Items → Items
  python_forms buffer nil = nil
  python_forms buffer (cons v vs) = cons (python_form buffer v) (python_forms buffer vs)

-- All strings of a value can be decoded.
unfoldable mutual
  pub HasTexts : (List ℕ → Type 0) → Value → Type 0
  HasTexts IsUtf8 (string s) = IsUtf8 s
  HasTexts IsUtf8 (array vs) = HaveTexts IsUtf8 vs
  HasTexts IsUtf8 void = Unit
  HasTexts IsUtf8 (float32 f) = Unit
  HasTexts IsUtf8 (int32 i) = Unit
  HasTexts IsUtf8 (boolean b) = Unit
  HasTexts IsUtf8 (function p n) = Unit

  pub HaveTexts : (List ℕ → Type 0) → Items → Type 0
  HaveTexts IsUtf8 nil = Unit
  HaveTexts IsUtf8 (cons v vs) = HasTexts IsUtf8 v × HaveTexts IsUtf8 vs

module _ {O : Type 0} (py : Python O) {IsLong : ℕ → Type 0} {IsUtf8 : List ℕ → Type 0}
    {buffer : List ℕ → List ℕ} (laws : IsPython py IsLong IsUtf8 buffer) where
  store_all_type :
      (a : O) (i : ℕ) (xs : List O)
      → IsCompound py a × (py.list_check a ≡ true)
      → IsCompound py (store_all py.list_set_item a i xs)
        × (py.list_check (store_all py.list_set_item a i xs) ≡ true)
  unfolding store_all
  store_all_type a i [] h = h
  store_all_type a i (x ∷ xs) h =
      store_all_type (py.list_set_item a i x) (suc i) xs (laws.list_set_type a x i h)

  -- A list that the loop has built is converted entry by entry.
  list_back :
      (convert : O → Converted Copy) (xs : List O)
      → let a = store_all py.list_set_item (py.list_new (length xs)) 0 xs in
        pyobject_tests py convert a ≡ array_or_null py (convert_each convert xs)
  unfolding pyobject_tests
  list_back convert xs =
      let t = store_all_type (py.list_new (length xs)) 0 xs (laws.list_new_type (length xs)) in
      rw
        (
          t.0.0.0,
          t.0.0.1,
          t.0.0.2,
          t.0.0.3,
          t.0.1,
          t.0.2,
          t.0.3,
          t.1,
          collect-Built laws.lists convert xs,
        )
        refl

  mutual
    unfolding value_to_pyobject to_sequence with_entry pyobject_to_value pyobject_tests IsShared
        depth HasTexts convert_each pointer_to pointer_list array_or_null count_items python_form

    back :
        (v : Value) (f : ℕ)
        → depth v < f
        → IsShared IsLong v
        → HasTexts IsUtf8 v
        → (o : O) × (value_to_pyobject py v false ≡ some o)
          × (pyobject_to_value py f o ≡ converted (pointer_to (python_form buffer v)))
    back v zero lt h u = absurd (omega arith)
    back void (suc f) lt h u = (py.none_object, refl, rw laws.none_type refl)
    back (float32 x) (suc f) lt h u =
        let t = laws.float_type x in
        (
          py.float_from_double x,
          refl,
          rw (t.0.0, t.0.1, t.0.2, t.0.3, t.1, t.2, laws.float_as_double-float_from_double x) refl,
        )
    back (int32 i) (suc f) lt h u =
        let t = laws.int_type i h in
        (
          py.int_from_long i,
          refl,
          rw (t.0.0, t.0.1, t.0.2, t.0.3, t.1, laws.int_as_long-int_from_long i h) refl,
        )
    back (boolean b) (suc f) lt h u =
        let t = laws.bool_type b in
        (
          py.bool_from_long b,
          refl,
          rw (t.0.0, t.0.1, t.0.2, t.0.3, t.1, laws.int_as_long-bool_from_long b) refl,
        )
    back (string s) (suc f) lt h u =
        let (o, made, not_none, is_text, shows) = laws.unicode_type s u in
        (o, made, rw (not_none, is_text, shows) refl)
    back (array vs) (suc f) lt h u =
        let (xs, stored, len, each) = back_each vs f (omega arith) h u in
        (
          store_all py.list_set_item (py.list_new (length xs)) 0 xs,
          rw (stored, ← len) refl,
          list_back (pyobject_to_value py f) xs
              ∙ rw each (
                  ap (λ x. converted (copied_array x))
                    (copies_of_list-pointer_list (python_forms buffer vs))),
        )
    back (function p n) (suc f) lt h u = elim h [ ]

    back_each :
        (vs : Items) (f : ℕ)
        → depth_items vs < f
        → AreShared IsLong vs
        → HaveTexts IsUtf8 vs
        → (xs : List O) × (values_to_pyobjects py vs ≡ some xs)
          × (length xs ≡ count_items vs)
          × (convert_each (pyobject_to_value py f) xs
              ≡ converted (pointer_list (python_forms buffer vs)))
    back_each nil f lt h u = ([], refl, refl, refl)
    back_each (cons v vs) f lt h u =
        let (o, made, comes_back) = back v f (omega arith) h.0 u.0 in
        let (xs, stored, len, each) = back_each vs f (omega arith) h.1 u.1 in
        (o ∷ xs, rw (made, stored) refl, ap suc len, rw (comes_back, each) refl)

  -- With a library that does what is documented of it, every value without functions, whose whole
  -- numbers are in a `long`'s range and whose strings are C strings in UTF-8, goes to Python as an
  -- object that comes back with a level of recursion for each level of nesting: as the value itself, but for
  -- Booleans, which come back as numbers, and strings, of which the internal representation comes
  -- back up to its first zero byte.
  pub pyobject_to_value-value_to_pyobject :
      (v : Value) (f : ℕ)
      → depth v < f
      → IsShared IsLong v
      → HasTexts IsUtf8 v
      → (o : O) × (value_to_pyobject py v false ≡ some o)
        × (pyobject_to_value py f o ≡ converted (pointer_to (python_form buffer v)))
  pyobject_to_value-value_to_pyobject v f lt h u = back v f lt h u
