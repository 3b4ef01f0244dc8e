-- ===== src/Value.antt =====
-- function.h: `type_t` and `value_t`, the dynamically typed values that cross the language border.
-- An `int32_t` and a `float` are kept as their 32-bit patterns; a C string is the list of the bytes
-- before its terminator.
use cagekeeper.Prelude.{ℕ, suc, Bool, List}

-- `type_t`
pub data ValueType : Type 0 where
  void float32 int32 boolean string array function : ValueType

-- `value_t`: the tag and the union as one data type. A function holds the address of the object
-- that it stands for and its `num_params`.
mutual
  pub data Value : Type 0 where
    void : Value
    float32 : ℕ → Value
    int32 : ℕ → Value
    boolean : Bool → Value
    string : List ℕ → Value
    array : Items → Value
    function : ℕ → ℕ → Value

  -- `length` and `data` of an array
  pub data Items : Type 0 where
    nil : Items
    cons : Value → Items → Items

-- the number of items, `length`
unfoldable pub count_items : Items → ℕ
count_items nil = 0
count_items (cons v vs) = suc (count_items vs)

-- the field `type`
unfoldable pub type_of : Value → ValueType
type_of void = ValueType.void
type_of (float32 f) = ValueType.float32
type_of (int32 i) = ValueType.int32
type_of (boolean b) = ValueType.boolean
type_of (string s) = ValueType.string
type_of (array vs) = ValueType.array
type_of (function p n) = ValueType.function

-- the number that C gives to each enumerator
unfoldable pub type_code : ValueType → ℕ
type_code ValueType.void = 0
type_code ValueType.float32 = 1
type_code ValueType.int32 = 2
type_code ValueType.boolean = 3
type_code ValueType.string = 4
type_code ValueType.array = 5
type_code ValueType.function = 6
