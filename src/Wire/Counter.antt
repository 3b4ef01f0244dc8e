-- ===== src/Wire/Counter.antt =====
-- What the item counter of `_read_value` does not bound: nesting, and lengths that are negative.
use cagekeeper.Prelude.{
  ℕ, zero, suc, ◌%◌, ◌^◌, ◌≤◌, ◌<◌, ◌≡◌, refl, ◌∷◌, List, true, false, ◌++◌, append_assoc,
  append-nil, length, length-append, arith,
}
use cagekeeper.Value.{Value, void, array, nil, cons, count_items, type_of, type_code}
use cagekeeper.Wire.Measure.{total, depth, depth-le-length}
use cagekeeper.Wire.Read.{
  refuses_array, read_items, read_array, tag_of_byte, read_payload, read_value_from, read_limited,
  max_array_size, max_string_size, read_value,
}
use cagekeeper.Wire.Stream.{ok, read_byte}
use cagekeeper.Wire.RoundTrip.{read_word-word_bytes, refuses_array-small}
use cagekeeper.Wire.Write.{write_byte, write_value}
use cagekeeper.Word.{word_bytes, signed_le, is_negative, add_word, sub_word, is_negative_small}
use mathlib.Core.Logic.{inr}

-- `n` arrays of one item inside one another
unfoldable pub nest : ℕ → Value
nest zero = void
nest (suc n) = array (cons (nest n) nil)

pub total-nest : (n : ℕ) → (total (nest n) ≡ n) × (depth (nest n) ≡ n)
unfolding nest total depth count_items
total-nest zero = (refl, refl)
total-nest (suc n) = omega (arith, total-nest n)

count_up : (n : ℕ) → add_word (n % 2 ^ 32) 1 ≡ suc n % 2 ^ 32
unfolding add_word
count_up n = omega arith

read_value_from-nest :
    (n f : ℕ) (rest : List ℕ)
    → n < f
    → read_value_from f max_string_size max_array_size 0 (write_value (nest n) ++ rest)
      ≡ ok (nest n, n % 2 ^ 32) rest
unfolding read_value_from read_byte tag_of_byte read_payload read_array read_items nest write_value
    write_byte type_of type_code count_items
read_value_from-nest n zero rest h = absurd (omega arith)
read_value_from-nest zero (suc f) rest h = refl
read_value_from-nest (suc n) (suc f) rest h =
    rw
      (
        append_assoc,
        append-nil,
        read_word-word_bytes 1 (write_value (nest n) ++ rest) (omega arith),
        refuses_array-small max_array_size 0 1 (omega arith) (omega arith) (inr (omega arith)),
        is_negative_small 1 (omega arith),
        read_value_from-nest n f rest (omega arith),
      )
      (rw (count_up n))

-- The limited reader accepts values of every depth, and with any number of array items in all.
pub read_value-nest :
    (n : ℕ) (rest : List ℕ)
    → (read_value (write_value (nest n) ++ rest) ≡ ok (nest n) rest)
      × (total (nest n) ≡ n)
      × (depth (nest n) ≡ n)
unfolding read_value read_limited
read_value-nest n rest =
    let deep : n < suc (length (write_value (nest n) ++ rest)) =
      omega (
        arith,
        depth-le-length (nest n),
        total-nest n,
        length-append (write_value (nest n)) rest,
      ) in
    (rw (read_value_from-nest n _ rest deep), (total-nest n).0, (total-nest n).1)

is_negative_large : (l : ℕ) → 2 ^ 31 ≤ l → is_negative l ≡ true
unfolding is_negative
is_negative_large l h = ground arith

refuses_array_negative :
    (count l : ℕ)
    → count < max_array_size
    → 2 ^ 31 ≤ l
    → l < 2 ^ 32
    → refuses_array max_array_size count l ≡ false
unfolding refuses_array signed_le sub_word add_word
refuses_array_negative count l hc lo hi = ground arith

-- While fewer items than the limit are counted, an array whose length is negative as an `int` is
-- accepted as an empty array, and that length is added to the counter of items as a 32-bit word.
pub read_value_from_negative :
    (f count l : ℕ) (rest : List ℕ)
    → count < max_array_size
    → 2 ^ 31 ≤ l
    → l < 2 ^ 32
    → read_value_from
        (suc f)
        max_string_size
        max_array_size
        count
        (type_code (type_of (array nil)) ∷ word_bytes l ++ rest)
      ≡ ok (array nil, add_word count l) rest
unfolding read_value_from read_byte tag_of_byte read_payload read_array read_items type_of type_code
read_value_from_negative f count l rest hc lo hi = rw (
  read_word-word_bytes l rest hi,
  refuses_array_negative count l hc lo hi,
  is_negative_large l lo,
)
