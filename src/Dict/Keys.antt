-- ===== src/Dict/Keys.antt =====
-- dict.c: the checksum and the key types of strings and of pointers. A pointer is its address, a
-- string key the list of its bytes, or none for the null pointer.
use cagekeeper.Prelude.{
  ℕ, zero, suc, ◌*◌, ◌/◌, ◌%◌, bit_and, bit_xor, Bool, true, false, ◌&&◌, Option, none, some, List,
  [], ◌∷◌, ◌==◌,
}
use cagekeeper.Dict.Defs.{HashType}

-- the inner loop of `crc32_init`
unfoldable pub crc32_round : ℕ → ℕ → ℕ
crc32_round zero c = c
crc32_round (suc s) c = crc32_round s (bit_xor (3988292384 * bit_and c 1) (c / 2))

-- `crc32[t]`
unfoldable pub crc32 : ℕ → ℕ
unfolding crc32_round
crc32 t = crc32_round 8 t

unfoldable pub crc32_add_byte : ℕ → ℕ → ℕ
unfolding crc32
crc32_add_byte checksum b = bit_xor (checksum / 256) (crc32 (bit_and (bit_xor b checksum) 255))

unfoldable pub crc32_add_bytes : ℕ → List ℕ → ℕ
unfolding crc32_add_byte
crc32_add_bytes checksum [] = checksum
crc32_add_bytes checksum (b ∷ s) = crc32_add_bytes (crc32_add_byte checksum b) s

-- The loop ends at the zero byte; a null pointer adds nothing.
unfoldable pub crc32_add_string : ℕ → Option (List ℕ) → ℕ
unfolding crc32_add_bytes
crc32_add_string checksum none = checksum
crc32_add_string checksum (some s) = crc32_add_bytes checksum s

unfoldable pub hash_block : List ℕ → ℕ
unfolding crc32_add_bytes
hash_block block = crc32_add_bytes 0 block

-- `strcmp(o1, o2) == 0`
unfoldable pub strings_equal : List ℕ → List ℕ → Bool
strings_equal [] [] = true
strings_equal [] (d ∷ ds) = false
strings_equal (c ∷ cs) [] = false
strings_equal (c ∷ cs) (d ∷ ds) = (c == d) && strings_equal cs ds

unfoldable pub charptr_equals : Option (List ℕ) → Option (List ℕ) → Bool
unfolding strings_equal
charptr_equals none none = true
charptr_equals none (some b) = false
charptr_equals (some a) none = false
charptr_equals (some a) (some b) = strings_equal a b

unfoldable pub charptr_hash : Option (List ℕ) → ℕ
unfolding hash_block
charptr_hash none = 0
charptr_hash (some o) = hash_block o

-- `strdup` copies the bytes.
unfoldable pub charptr_dup : Option (List ℕ) → Option (List ℕ)
charptr_dup none = none
charptr_dup (some o) = some o

abbrev pub charptr_type : HashType (Option (List ℕ))
charptr_type = record { equals = charptr_equals; hash = charptr_hash; dup = charptr_dup }

-- the bytes of a pointer of `n` bytes, the lowest first
unfoldable pub pointer_bytes : ℕ → ℕ → List ℕ
pointer_bytes zero o = []
pointer_bytes (suc n) o = o % 256 ∷ pointer_bytes n (o / 256)

-- The keys of the two other types are the pointers themselves, here of `size` bytes.
unfoldable pub ptr_equals : ℕ → ℕ → Bool
ptr_equals o1 o2 = o1 == o2

unfoldable pub ptr_hash : ℕ → ℕ → ℕ
unfolding hash_block pointer_bytes
ptr_hash size o = hash_block (pointer_bytes size o)

unfoldable pub ptr_dup : ℕ → ℕ
ptr_dup o = o

abbrev pub ptr_type : ℕ → HashType ℕ
ptr_type size = record { equals = ptr_equals; hash = ptr_hash size; dup = ptr_dup }
