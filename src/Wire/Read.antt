-- ===== src/Wire/Read.antt =====
-- `read_string`, `_read_value`, `read_value` and `read_value_nolimit`.
use cagekeeper.Prelude.{
  ℕ, zero, suc, Bool, not, ◌&&◌, ◌||◌, List, [], ◌∷◌, length, ◌==◌, if◌then◌else◌, Option, none,
  some,
}
use cagekeeper.Value.{
  Value, Items, ValueType, void, float32, int32, boolean, string, array, nil, cons,
}
use cagekeeper.Wire.Stream.{out_of_fuel, Reader, pure, refuse, ◌>>=◌, read_bytes, read_byte}
use cagekeeper.Word.{word_at, signed_le, is_negative, add_word, sub_word, int_max}

-- an `int`, a `float` or an `int32_t`
unfoldable pub read_word : Reader ℕ
read_word = read_bytes 4 >>= λ bs. pure (word_at bs)

-- `strdup`: a copy up to the first zero byte
unfoldable pub c_string : List ℕ → List ℕ
c_string [] = []
c_string (b ∷ bs) = if b == 0 then [] else b ∷ c_string bs

-- `l < 0 || (max_size && l >= max_size)` refuses a length; `max_size` 0 is no limit.
unfoldable pub refuses_length : ℕ → ℕ → Bool
refuses_length max_size l = is_negative l || (not (max_size == 0) && signed_le max_size l)

-- The buffer as it is filled, `l` bytes; the caller reads it as a C string.
unfoldable pub read_string : ℕ → Reader (List ℕ)
read_string max_size = read_word >>= λ l. if refuses_length max_size l then refuse else read_bytes l

-- the three tests on the length of an array, with the items counted so far
unfoldable pub refuses_array : ℕ → ℕ → ℕ → Bool
refuses_array max_array_size count l =
    (not (max_array_size == 0) && signed_le max_array_size l)
    || signed_le (sub_word int_max count) l
    || (not (max_array_size == 0) && signed_le max_array_size (add_word l count))

-- the loop of the array case, over the rounds left; `read` is `_read_value` with the counter
unfoldable pub read_items : (ℕ → Reader (Value × ℕ)) → ℕ → ℕ → Reader (Items × ℕ)
read_items read zero count = pure (nil, count)
read_items read (suc n) count =
    read count >>= λ (v, c). read_items read n c >>= λ (vs, d). pure (cons v vs, d)

unfoldable pub read_array : (ℕ → Reader (Value × ℕ)) → ℕ → ℕ → Reader (Value × ℕ)
read_array read max_array_size count = read_word >>= λ l.
    if refuses_array max_array_size count l
    then refuse
    else (read_items read (if is_negative l then 0 else l) count >>= λ (vs, c).
        pure (array vs, add_word c l))

-- the tag that a byte stands for; the `switch` has no case for a function
unfoldable pub tag_of_byte : ℕ → Option ValueType
tag_of_byte b =
    if b == 0
    then some ValueType.void
    else if b == 1
    then some ValueType.float32
    else if b == 2
    then some ValueType.int32
    else if b == 3
    then some ValueType.boolean
    else if b == 4
    then some ValueType.string
    else if b == 5
    then some ValueType.array
    else none

-- the body of the `switch`
unfoldable pub read_payload :
    (ℕ → Reader (Value × ℕ)) → ℕ → ℕ → ℕ → Option ValueType → Reader (Value × ℕ)
read_payload read max_string max_array count (some ValueType.void) = pure (void, count)
read_payload read max_string max_array count (some ValueType.float32) =
    read_word >>= λ w. pure (float32 w, count)
read_payload read max_string max_array count (some ValueType.int32) =
    read_word >>= λ w. pure (int32 w, count)
read_payload read max_string max_array count (some ValueType.boolean) =
    read_byte >>= λ b. pure (boolean (not (b == 0)), count)
read_payload read max_string max_array count (some ValueType.string) =
    read_string max_string >>= λ s. pure (string (c_string s), count)
read_payload read max_string max_array count (some ValueType.array) =
    read_array read max_array count
read_payload read max_string max_array count (some ValueType.function) = refuse
read_payload read max_string max_array count none = refuse

-- `_read_value`, with fuel for the depth of the arrays; the counter is passed in and handed back.
unfoldable pub read_value_from : ℕ → ℕ → ℕ → ℕ → Reader (Value × ℕ)
read_value_from zero max_string max_array count inp = out_of_fuel
read_value_from (suc f) max_string max_array count inp =
    (read_byte >>= λ b.
    read_payload (read_value_from f max_string max_array) max_string max_array count
      (tag_of_byte b))
      inp

-- the value alone, with fuel for the bytes that there are
unfoldable pub read_limited : ℕ → ℕ → Reader Value
read_limited max_string max_array inp =
    (read_value_from (suc (length inp)) max_string max_array 0 >>= λ (v, c). pure v) inp

abbrev pub max_array_size : ℕ
max_array_size = 1024

abbrev pub max_string_size : ℕ
max_string_size = 4096

unfoldable pub read_value : Reader Value
unfolding read_limited
read_value = read_limited max_string_size max_array_size

unfoldable pub read_value_nolimit : Reader Value
unfolding read_limited
read_value_nolimit = read_limited 0 0
