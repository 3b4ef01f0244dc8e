-- ===== src/Word.antt =====
-- 32-bit machine words as the compiler lays them out: little-endian bytes, wrap-around at 2 ^ 32,
-- and the signed reading of an `int`. A word is kept as its bit pattern below 2 ^ 32.
use cagekeeper.Prelude.{
  ℕ, ◌+◌, ◌-◌, ◌*◌, ◌/◌, ◌%◌, ◌^◌, ◌<◌, ◌≡◌, Bool, false, List, [], ◌∷◌, arith, leb,
}

-- the four bytes of an `int32_t`, an `int` or a `float` in memory
unfoldable pub word_bytes : ℕ → List ℕ
word_bytes w = w % 2 ^ 8 ∷ (w / 2 ^ 8 % 2 ^ 8) ∷ (w / 2 ^ 16 % 2 ^ 8) ∷ (w / 2 ^ 24 % 2 ^ 8) ∷ []

-- the word that stands in the first four bytes of a buffer
unfoldable pub word_at : List ℕ → ℕ
word_at (b0 ∷ b1 ∷ b2 ∷ b3 ∷ _) = b0 + b1 * 2 ^ 8 + b2 * 2 ^ 16 + b3 * 2 ^ 24
word_at _ = 0

-- `a <= b` on `int`s
unfoldable pub signed_le : ℕ → ℕ → Bool
signed_le a b = leb ((a + 2 ^ 31) % 2 ^ 32) ((b + 2 ^ 31) % 2 ^ 32)

-- `a < 0` on `int`s
unfoldable pub is_negative : ℕ → Bool
is_negative a = leb (2 ^ 31) a

unfoldable pub add_word : ℕ → ℕ → ℕ
add_word a b = (a + b) % 2 ^ 32

unfoldable pub sub_word : ℕ → ℕ → ℕ
sub_word a b = (a + 2 ^ 32 - b) % 2 ^ 32

-- `INT_MAX`
abbrev pub int_max : ℕ
int_max = 2 ^ 31 - 1

pub word_at-word_bytes : (w : ℕ) → w < 2 ^ 32 → word_at (word_bytes w) ≡ w
unfolding word_at word_bytes
word_at-word_bytes w h = omega arith

-- On words that are not negative the signed order is the order of the numbers.
pub signed_le-leb : (a b : ℕ) → a < 2 ^ 31 → b < 2 ^ 31 → signed_le a b ≡ leb a b
unfolding signed_le
signed_le-leb a b h k = ground arith

pub is_negative_small : (a : ℕ) → a < 2 ^ 31 → is_negative a ≡ false
unfolding is_negative
is_negative_small a h = ground arith

pub add_word_small : (a b : ℕ) → a + b < 2 ^ 31 → add_word a b ≡ a + b
unfolding add_word
add_word_small a b h = omega arith

pub sub_word_small : (a b : ℕ) → b < a + 1 → a < 2 ^ 31 → sub_word a b ≡ a - b
unfolding sub_word
sub_word_small a b h k = omega arith
