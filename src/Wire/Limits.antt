-- ===== src/Wire/Limits.antt =====
-- What `_read_value` lets through, and that it comes to an end.
use cagekeeper.Prelude.{
  ℕ, zero, suc, ◌+◌, ◌^◌, ◌≤◌, ◌<◌, ◌≡◌, ◌≢◌, refl, ap, false, inl, inr, List, [], ◌∷◌, All, length,
  arith, ◌==◌, if◌then◌else◌, Bool-cases, Option, none, some,
}
use cagekeeper.Value.{
  Value, Items, ValueType, void, float32, int32, boolean, string, array, function, nil, cons,
  count_items,
}
use cagekeeper.Wire.Measure.{IsBelow, IsBelow-le}
use cagekeeper.Wire.Read.{
  read_word, c_string, refuses_length, read_string, refuses_array, read_items, read_array,
  tag_of_byte, read_payload, read_value_from, read_limited, max_array_size, max_string_size,
  read_value,
}
use cagekeeper.Wire.Stream.{
  Reader, Ensures, returns, fails, Ensures-bind, Ensures-imp, AreBytes, read_byte-Ensures,
  read_bytes-Ensures,
}
use cagekeeper.Word.{signed_le, is_negative, word_at}

-- No function, no zero byte in a string, and each string and each array below its limit.
unfoldable mutual
  pub IsWithin : ℕ → ℕ → Value → Type 0
  IsWithin ms ma void = Unit
  IsWithin ms ma (float32 f) = Unit
  IsWithin ms ma (int32 i) = Unit
  IsWithin ms ma (boolean b) = Unit
  IsWithin ms ma (string s) = All (λ b. b ≢ 0) s × IsBelow ms (length s)
  IsWithin ms ma (array vs) = IsBelow ma (count_items vs) × AreWithin ms ma vs
  IsWithin ms ma (function p n) = ⊥

  pub AreWithin : ℕ → ℕ → Items → Type 0
  AreWithin ms ma nil = Unit
  AreWithin ms ma (cons v vs) = IsWithin ms ma v × AreWithin ms ma vs

-- What a reader that used at least `n` of the bytes left behind.
abbrev pub Leaves : ℕ → List ℕ → List ℕ → Type 0
Leaves n inp rest = (n + length rest ≤ length inp) × AreBytes rest

word_at-lt : (bs : List ℕ) → AreBytes bs → word_at bs < 2 ^ 32
unfolding word_at
word_at-lt [] h = omega arith
word_at-lt (a ∷ []) h = omega arith
word_at-lt (a ∷ b ∷ []) h = omega arith
word_at-lt (a ∷ b ∷ c ∷ []) h = omega arith
word_at-lt (a ∷ b ∷ c ∷ d ∷ bs) h = omega arith

read_word-Ensures :
    (inp : List ℕ)
    → AreBytes inp
    → Ensures (λ w rest. (w < 2 ^ 32) × Leaves 4 inp rest) (read_word inp)
unfolding read_word
read_word-Ensures inp h =
    Ensures-bind (read_bytes-Ensures 4 inp h)
      λ bs rest e. returns (word_at-lt bs e.2, (omega arith, e.3))

length-c_string-le : (s : List ℕ) → length (c_string s) ≤ length s
unfolding c_string
length-c_string-le [] = omega arith
length-c_string-le (b ∷ s) = ground (arith, length-c_string-le s)

c_string-ne-zero : (s : List ℕ) → All (λ b. b ≢ 0) (c_string s)
unfolding c_string
c_string-ne-zero [] = tt
c_string-ne-zero (b ∷ s) = elim (Bool-cases (b == 0)) [
  | inl z ↦ rw z tt
  | inr n ↦ rw n (ground arith, c_string-ne-zero s)
]

-- A length that passes the test is below the limit.
refuses_length-IsBelow : (ms l : ℕ) → ms < 2 ^ 31 → refuses_length ms l ≡ false → IsBelow ms l
unfolding refuses_length is_negative signed_le
refuses_length-IsBelow zero l hm h = inl refl
refuses_length-IsBelow (suc ms) l hm h = inr (ground arith)

-- An array whose length passes the tests makes fewer rounds than the limit.
refuses_array-IsBelow :
    (ma count l : ℕ)
    → ma < 2 ^ 31
    → l < 2 ^ 32
    → refuses_array ma count l ≡ false
    → IsBelow ma (if is_negative l then 0 else l)
unfolding refuses_array is_negative signed_le
refuses_array-IsBelow zero count l hm hl h = inl refl
refuses_array-IsBelow (suc ma) count l hm hl h = inr (ground arith)

module _ (ms ma : ℕ) (hs : ms < 2 ^ 31) (ha : ma < 2 ^ 31) where
  -- What a reader of values ensures: the value is within the limits, and bytes were used up.
  abbrev Checks : ℕ → (ℕ → Reader (Value × ℕ)) → Type 0
  Checks n read =
      (count : ℕ) (inp : List ℕ)
      → AreBytes inp
      → length inp < n
      → Ensures (λ v rest. IsWithin ms ma v.0 × Leaves 1 inp rest) (read count inp)

  pub read_string-Ensures :
      (inp : List ℕ)
      → AreBytes inp
      → Ensures (λ s rest. IsBelow ms (length s) × Leaves 4 inp rest) (read_string ms inp)
  unfolding read_string
  read_string-Ensures inp h = Ensures-bind (read_word-Ensures inp h) λ l rest e.
      elim (Bool-cases (refuses_length ms l)) [
        | inl bad ↦ rw bad fails
        | inr good ↦ rw good (
            Ensures-imp (read_bytes-Ensures l rest e.1.1) λ s rest' k.
              returns (rw k.0 (refuses_length-IsBelow ms l hs good), (omega arith, k.3)))
      ]

  read_items-Ensures :
      (read : ℕ → Reader (Value × ℕ)) (d : ℕ)
      → Checks d read
      → (n count : ℕ) (inp : List ℕ) → AreBytes inp
      → length inp < d
      → Ensures
          (λ vs rest. (count_items vs.0 ≡ n) × AreWithin ms ma vs.0 × Leaves 0 inp rest)
          (read_items read n count inp)
  unfolding read_items IsWithin count_items
  read_items-Ensures read d check zero count inp h lt = returns (refl, tt, (omega arith, h))
  read_items-Ensures read d check (suc n) count inp h lt =
      Ensures-bind (check count inp h lt) λ v rest e.
        Ensures-bind (read_items-Ensures read d check n v.1 rest e.1.1 (omega arith))
          λ vs rest' k. returns (ap suc k.0, (e.0, k.1), (omega arith, k.2.1))

  read_array-Ensures :
      (read : ℕ → Reader (Value × ℕ)) (d : ℕ)
      → Checks d read
      → (count : ℕ) (inp : List ℕ) → AreBytes inp
      → length inp < d + 4
      → Ensures (λ v rest. IsWithin ms ma v.0 × Leaves 4 inp rest) (read_array read ma count inp)
  unfolding read_array IsWithin
  read_array-Ensures read d check count inp h lt =
      Ensures-bind (read_word-Ensures inp h) λ l rest e.
        elim (Bool-cases (refuses_array ma count l)) [
          | inl bad ↦ rw bad fails
          | inr good ↦ rw good (
              Ensures-bind (read_items-Ensures read d check _ count rest e.1.1 (omega arith))
                λ vs rest' k. returns (
                  (rw k.0 (refuses_array-IsBelow ma count l ha e.0 good), k.1),
                  (omega arith, k.2.1),
                ))
        ]

  read_payload-Ensures :
      (read : ℕ → Reader (Value × ℕ)) (d : ℕ)
      → Checks d read
      → (count : ℕ) (tag : Option ValueType) (inp : List ℕ) → AreBytes inp
      → length inp < d + 4
      → Ensures
          (λ v rest. IsWithin ms ma v.0 × Leaves 0 inp rest)
          (read_payload read ms ma count tag inp)
  unfolding read_payload IsWithin
  read_payload-Ensures read d check count none inp h lt = fails
  read_payload-Ensures read d check count (some void) inp h lt = returns (tt, (omega arith, h))
  read_payload-Ensures read d check count (some float32) inp h lt =
      Ensures-bind (read_word-Ensures inp h) λ w rest e. returns (tt, (omega arith, e.1.1))
  read_payload-Ensures read d check count (some int32) inp h lt =
      Ensures-bind (read_word-Ensures inp h) λ w rest e. returns (tt, (omega arith, e.1.1))
  read_payload-Ensures read d check count (some boolean) inp h lt =
      Ensures-bind (read_byte-Ensures inp h) λ b rest e. returns (tt, (omega arith, e.2))
  read_payload-Ensures read d check count (some string) inp h lt =
      Ensures-bind (read_string-Ensures inp h) λ s rest e.
        returns
          ((c_string-ne-zero s, IsBelow-le ms _ _ (length-c_string-le s) e.0), (omega arith, e.1.1))
  read_payload-Ensures read d check count (some array) inp h lt =
      Ensures-imp (read_array-Ensures read d check count inp h lt)
        λ v rest e. returns (e.0, (omega arith, e.1.1))
  read_payload-Ensures read d check count (some function) inp h lt = fails

  -- With a unit of fuel for each byte the reader ends, and what it returns is within the limits.
  read_value_from-Ensures : (f : ℕ) → Checks f (read_value_from f ms ma)
  unfolding read_value_from
  read_value_from-Ensures zero count inp h lt = elim lt [ ]
  read_value_from-Ensures (suc f) count inp h lt =
      Ensures-bind (read_byte-Ensures inp h) λ b rest e.
        Ensures-imp
          (read_payload-Ensures (read_value_from f ms ma) f (read_value_from-Ensures f) count
            (tag_of_byte b) rest e.2 (omega arith))
          λ v rest' k. returns (k.0, (omega arith, k.1.1))

  read_limited-Ensures :
      (inp : List ℕ)
      → AreBytes inp
      → Ensures (λ v rest. IsWithin ms ma v × (length rest < length inp)) (read_limited ms ma inp)
  unfolding read_limited
  read_limited-Ensures inp h =
      Ensures-bind (read_value_from-Ensures (suc (length inp)) 0 inp h (omega arith))
        λ v rest e. returns (e.0, omega arith)

-- What the limited reader leaves.
pub read_value-Leaves :
    (inp : List ℕ) → AreBytes inp → Ensures (λ v rest. Leaves 1 inp rest) (read_value inp)
unfolding read_value read_limited
read_value-Leaves inp h =
    Ensures-bind
      (read_value_from-Ensures max_string_size max_array_size (omega arith) (omega arith)
        (suc (length inp)) 0 inp h (omega arith))
      λ v rest e. returns (omega arith, e.1.1)

-- What the limited reader returns, and that it leaves bytes.
pub read_value-IsWithin :
    (inp : List ℕ)
    → AreBytes inp
    → Ensures (λ v rest. IsWithin max_string_size max_array_size v × AreBytes rest) (read_value inp)
unfolding read_value read_limited
read_value-IsWithin inp h =
    Ensures-bind
      (read_value_from-Ensures max_string_size max_array_size (omega arith) (omega arith)
        (suc (length inp)) 0 inp h (omega arith))
      λ v rest e. returns (e.0, e.1.1)

-- On any bytes whatever the limited reader ends, and a value that it returns holds no function, no
-- zero byte in a string, strings below 4096 bytes and arrays below 1024 items, and took at least a
-- byte from the pipe.
pub read_value-Ensures :
    (inp : List ℕ)
    → AreBytes inp
    → Ensures
        (λ v rest. IsWithin max_string_size max_array_size v × (length rest < length inp))
        (read_value inp)
unfolding read_value
read_value-Ensures inp h =
    read_limited-Ensures max_string_size max_array_size (omega arith) (omega arith) inp h
