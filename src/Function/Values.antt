-- ===== src/Function/Values.antt =====
-- function.c: the operations on values: their names, copies, numbers, and arrays that grow.
use cagekeeper.Prelude.{
  ℕ, ◌+◌, ◌-◌, ◌*◌, ◌^◌, bit_and, Bool, true, false, List, [], ◌∷◌, ◌++◌, leb, if◌then◌else◌,
  length,
}
use cagekeeper.Value.{
  Value, Items, void, float32, int32, boolean, string, array, function, nil, cons,
}

-- `value_t*`: a pointer to a value or NULL. The items of an array that `value_clone` builds can be
-- NULL, which no array of a script has.
mutual
  pub data Copy : Type 0 where
    null : Copy
    scalar : Value → Copy
    copied_array : Copies → Copy

  pub data Copies : Type 0 where
    no_copies : Copies
    one_more : Copy → Copies → Copies

-- A void value and a function are not copied: NULL is returned.
unfoldable mutual
  pub value_clone : Value → Copy
  value_clone void = null
  value_clone (float32 f) = scalar (float32 f)
  value_clone (int32 i) = scalar (int32 i)
  value_clone (boolean b) = scalar (boolean b)
  value_clone (string s) = scalar (string s)
  value_clone (array vs) = copied_array (clone_items vs)
  value_clone (function p n) = null

  -- the loop over the items
  pub clone_items : Items → Copies
  clone_items nil = no_copies
  clone_items (cons v vs) = one_more (value_clone v) (clone_items vs)

-- `value_to_int`; `float_to_int` is the conversion of a `float`, `atoi` the one of a string.
unfoldable pub value_to_int : (ℕ → ℕ) → (List ℕ → ℕ) → Value → ℕ
value_to_int float_to_int atoi void = 0
value_to_int float_to_int atoi (float32 f) = float_to_int f
value_to_int float_to_int atoi (int32 i) = i
value_to_int float_to_int atoi (boolean true) = 1
value_to_int float_to_int atoi (boolean false) = 0
value_to_int float_to_int atoi (string s) = atoi s
value_to_int float_to_int atoi (array vs) = 2 ^ 32 - 1
value_to_int float_to_int atoi (function p n) = 2 ^ 32 - 1

-- An array while it is built: the items, whose number is `length`, and `internal->size`.
pub record Growing : Type 0 where
  pub items : List Value
  pub size : ℕ

-- `value_new_array`
abbrev pub array_new : Growing
array_new = record { items = []; size = 0 }

-- `size |= 3; size <<= 1; size += 1`
unfoldable pub grow : ℕ → ℕ
grow size = (size + (3 - bit_and size 3)) * 2 + 1

unfoldable pub array_append : Growing → Value → Growing
unfolding grow
array_append a value = record {
  items = a.items ++ value ∷ [];
  size = if leb a.size (length a.items) then grow a.size else a.size;
}

unfoldable pub array_append_int32 : Growing → ℕ → Growing
array_append_int32 a i32 = array_append a (int32 i32)

unfoldable pub array_append_float32 : Growing → ℕ → Growing
array_append_float32 a f32 = array_append a (float32 f32)

unfoldable pub array_append_string : Growing → List ℕ → Growing
array_append_string a str = array_append a (string str)

unfoldable pub array_append_boolean : Growing → Bool → Growing
array_append_boolean a b = array_append a (boolean b)

-- Appending the values of a list in order.
unfoldable pub append_each : Growing → List Value → Growing
unfolding array_append
append_each a [] = a
append_each a (v ∷ vs) = append_each (array_append a v) vs
