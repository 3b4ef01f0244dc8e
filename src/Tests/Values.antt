-- ===== src/Tests/Values.antt =====
-- language_proxy.c and function.c at concrete values and bytes.
use cagekeeper.Prelude.{ℕ, some, ◌≡◌, ◌<◌, ◌^◌, ◌-◌, true, [], ◌∷◌, ◌++◌, arith, length, inr}
use cagekeeper.Word.{word_bytes, add_word}
use cagekeeper.Value.{
  Value, int32, boolean, string, array, nil, cons, count_items, type_of, type_code,
}
use cagekeeper.Function.Memory.{Heap, Cell, new_value, value_destroy}
use cagekeeper.Function.Freeing.{count}
use cagekeeper.Function.Ownership.{value_destroy-new_value}
use cagekeeper.Wire.{
  ok, write_value, read_value, max_string_size, max_array_size, read_value_from, Ensures, AreBytes,
}
use cagekeeper.Wire.Counter.{nest, read_value-nest, read_value_from_negative}
use cagekeeper.Wire.Limits.{IsWithin, read_value-Ensures}
use cagekeeper.Wire.Measure.{IsSendable, total, depth}
use cagekeeper.Wire.RoundTrip.{read_value-write_value}

abbrev message : Value
message = array (cons (int32 7) (cons (string (104 ∷ 105 ∷ [])) (cons (boolean true) nil)))

message-IsSendable : IsSendable max_string_size message
unfolding IsSendable
message-IsSendable =
    (omega arith, (((omega arith, (omega arith, tt)), omega arith, inr (omega arith)), (tt, tt)))

message-total : total message < max_array_size
unfolding total count_items
message-total = omega arith

read_value-write_value_example :
    read_value (write_value message ++ 1 ∷ 2 ∷ []) ≡ ok message (1 ∷ 2 ∷ [])
read_value-write_value_example =
    read_value-write_value message (1 ∷ 2 ∷ []) message-IsSendable message-total

some_bytes : AreBytes (4 ∷ 2 ∷ 0 ∷ 0 ∷ 0 ∷ 104 ∷ 105 ∷ 255 ∷ [])
some_bytes = (
  omega arith,
  (
    omega arith,
    (omega arith, (omega arith, (omega arith, (omega arith, (omega arith, (omega arith, tt)))))),
  ),
)

read_value-Ensures_example :
    Ensures
      (λ v rest. IsWithin max_string_size max_array_size v × (length rest < 8))
      (read_value (4 ∷ 2 ∷ 0 ∷ 0 ∷ 0 ∷ 104 ∷ 105 ∷ 255 ∷ []))
read_value-Ensures_example =
    read_value-Ensures (4 ∷ 2 ∷ 0 ∷ 0 ∷ 0 ∷ 104 ∷ 105 ∷ 255 ∷ []) some_bytes

read_value-nest_example :
    (read_value (write_value (nest 5000) ++ []) ≡ ok (nest 5000) [])
    × (total (nest 5000) ≡ 5000)
    × (depth (nest 5000) ≡ 5000)
read_value-nest_example = read_value-nest 5000 []

read_value_from_negative_example :
    read_value_from 1 max_string_size max_array_size 3
      (type_code (type_of (array nil)) ∷ word_bytes (2 ^ 32 - 5) ++ 7 ∷ [])
    ≡ ok (array nil, add_word 3 (2 ^ 32 - 5)) (7 ∷ [])
read_value_from_negative_example =
    read_value_from_negative 0 3 (2 ^ 32 - 5) (7 ∷ []) (omega arith) (omega arith) (omega arith)

abbrev empty_heap : Heap
empty_heap = record { next = 0; live = [] }

value_destroy-new_value_example :
    (c : Cell) × (h₁ h₂ : Heap) × (new_value message empty_heap ≡ some (c, h₁))
    × (value_destroy c h₁ ≡ some h₂)
    × ((a : ℕ) → count a h₂.live ≡ count a empty_heap.live)
value_destroy-new_value_example = value_destroy-new_value message empty_heap
