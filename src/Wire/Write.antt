-- ===== src/Wire/Write.antt =====
-- `write_byte`, `write_string` and `write_value`: the bytes that each writes to the pipe.
use cagekeeper.Prelude.{ℕ, Bool, true, false, List, [], ◌∷◌, ◌++◌, length}
use cagekeeper.Value.{
  Value, Items, void, float32, int32, boolean, string, array, function, nil, cons, count_items,
  type_of, type_code,
}
use cagekeeper.Word.{word_bytes}

unfoldable pub write_byte : ℕ → List ℕ
write_byte b = b ∷ []

-- the `int` of `strlen(name)`, then the bytes without a terminator
unfoldable pub write_string : List ℕ → List ℕ
write_string name = word_bytes (length name) ++ name

abbrev bool_byte : Bool → ℕ
bool_byte true = 1
bool_byte false = 0

-- The byte of the tag, then the payload; a function has none.
unfoldable mutual
  pub write_value : Value → List ℕ
  write_value void = write_byte (type_code (type_of void))
  write_value (float32 f) = type_code (type_of (float32 f)) ∷ word_bytes f
  write_value (int32 i) = type_code (type_of (int32 i)) ∷ word_bytes i
  write_value (boolean b) = type_code (type_of (boolean b)) ∷ bool_byte b ∷ []
  write_value (string s) = type_code (type_of (string s)) ∷ write_string s
  write_value (array vs) =
      type_code (type_of (array vs)) ∷ (word_bytes (count_items vs) ++ write_items vs)
  write_value (function p n) = write_byte (type_code (type_of (function p n)))

  pub write_items : Items → List ℕ
  write_items nil = []
  write_items (cons v vs) = write_value v ++ write_items vs
