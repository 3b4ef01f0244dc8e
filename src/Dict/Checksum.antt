-- ===== src/Dict/Checksum.antt =====
-- dict.c: that the checksum goes on where it stopped, and that the key types are what a table needs.
use cagekeeper.Prelude.{
  ℕ, ◌≡◌, refl, sym, ap, ◌∙◌, true, Option, none, some, List, [], ◌∷◌, ◌++◌, arith, ◌==◌, ==_iff,
  Bool-cases, inl, inr,
}
use cagekeeper.Dict.Defs.{IsLawful}
use cagekeeper.Dict.Keys.{
  crc32_add_byte, crc32_add_bytes, hash_block, strings_equal, charptr_equals, charptr_hash,
  charptr_dup, charptr_type, ptr_equals, ptr_hash, ptr_dup, ptr_type,
}

crc32_add_bytes-append :
    (checksum : ℕ) (a b : List ℕ)
    → crc32_add_bytes checksum (a ++ b) ≡ crc32_add_bytes (crc32_add_bytes checksum a) b
unfolding crc32_add_bytes
crc32_add_bytes-append checksum [] b = refl
crc32_add_bytes-append checksum (c ∷ a) b = crc32_add_bytes-append (crc32_add_byte checksum c) a b

-- The hash of a block in two parts is the checksum of the second part on the hash of the first.
pub hash_block-append : (a b : List ℕ) → hash_block (a ++ b) ≡ crc32_add_bytes (hash_block a) b
unfolding hash_block
hash_block-append a b = crc32_add_bytes-append 0 a b

strings_equal_refl : (a : List ℕ) → strings_equal a a ≡ true
unfolding strings_equal
strings_equal_refl [] = refl
strings_equal_refl (c ∷ a) = ground (arith, strings_equal_refl a)

strings_equal-eq : (a b : List ℕ) → strings_equal a b ≡ true → a ≡ b
unfolding strings_equal
strings_equal-eq [] [] h = refl
strings_equal-eq [] (d ∷ b) h = ground arith
strings_equal-eq (c ∷ a) [] h = ground arith
strings_equal-eq (c ∷ a) (d ∷ b) h = elim (Bool-cases (c == d)) [
  | inl e ↦
      let same : a ≡ b = strings_equal-eq a b (rw e at h) in
      ap (λ x. x ∷ a) ((==_iff c d).0 e) ∙ ap (λ x. d ∷ x) same
  | inr e ↦ ground arith
]

charptr_equals-eq : (a b : Option (List ℕ)) → charptr_equals a b ≡ true → a ≡ b
unfolding charptr_equals
charptr_equals-eq none none h = refl
charptr_equals-eq none (some b) h = ground arith
charptr_equals-eq (some a) none h = ground arith
charptr_equals-eq (some a) (some b) h = ap some (strings_equal-eq a b h)

charptr_equals_refl : (a : Option (List ℕ)) → charptr_equals a a ≡ true
unfolding charptr_equals
charptr_equals_refl none = refl
charptr_equals_refl (some a) = strings_equal_refl a

charptr_dup-eq : (a : Option (List ℕ)) → charptr_dup a ≡ a
unfolding charptr_dup
charptr_dup-eq none = refl
charptr_dup-eq (some a) = refl

charptr_equals-sym : (a b : Option (List ℕ)) → charptr_equals a b ≡ charptr_equals b a
charptr_equals-sym a b = elim (Bool-cases (charptr_equals a b)) [
  | inl e ↦ e ∙ sym (rw (charptr_equals-eq a b e) (charptr_equals_refl b))
  | inr e ↦ elim (Bool-cases (charptr_equals b a)) [
    | inl e' ↦ sym (e' ∙ sym (rw (charptr_equals-eq b a e') (charptr_equals_refl a)))
    | inr e' ↦ e ∙ sym e'
  ]
]

-- The keys of a table of strings are compared, hashed and copied as a table needs it: equality is an
-- equivalence, equal keys have one hash, and a copy equals its key.
pub charptr_type-IsLawful : IsLawful charptr_type
charptr_type-IsLawful = record {
  refl_lem = charptr_equals_refl;
  symm = charptr_equals-sym;
  trans = λ a b c e f. rw (charptr_equals-eq a b e) f;
  hash-equals = λ a b e. ap charptr_hash (charptr_equals-eq a b e);
  equals-dup = λ a. rw (charptr_dup-eq a) (charptr_equals_refl a);
}

-- So are the keys of a table of pointers of any size.
pub ptr_type-IsLawful : (size : ℕ) → IsLawful (ptr_type size)
unfolding ptr_equals ptr_dup
ptr_type-IsLawful size = record {
  refl_lem = λ a. ground arith;
  symm = λ a b. ground arith;
  trans = λ a b c e f. ground arith;
  hash-equals = λ a b e. ap (ptr_hash size) ((==_iff a b).0 e);
  equals-dup = λ a. ground arith;
}
