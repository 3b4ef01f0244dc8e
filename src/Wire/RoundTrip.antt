-- ===== src/Wire/RoundTrip.antt =====
-- What `write_value` writes, `_read_value` reads back.
use cagekeeper.Prelude.{
  ℕ, zero, suc, ◌+◌, ◌-◌, ◌^◌, ◌<◌, ◌≡◌, ◌≢◌, refl, true, false, inl, inr, List, [], ◌∷◌, ◌++◌,
  append_assoc, All, length, length-append, arith,
}
use native.Mathlib.Nat.{add-zero, zero-add, add_assoc}
use cagekeeper.Value.{
  Value, Items, void, float32, int32, boolean, string, array, function, nil, cons, count_items,
  type_of, type_code,
}
use cagekeeper.Wire.Measure.{
  total, total_items, depth, depth_items, IsBelow, IsBelow-le, IsSendable, AreSendable,
  depth-le-length,
}
use cagekeeper.Wire.Read.{
  read_word, c_string, refuses_length, read_string, refuses_array, read_items, read_array,
  tag_of_byte, read_payload, read_value_from, read_limited, max_array_size, max_string_size,
  read_value, read_value_nolimit,
}
use cagekeeper.Wire.Stream.{ok, Reader, bind_outcome, read_byte, read_bytes-append}
use cagekeeper.Wire.Write.{write_byte, write_string, write_value, write_items}
use cagekeeper.Word.{
  word_bytes, int_max, word_at-word_bytes, signed_le-leb, is_negative_small, add_word_small,
  sub_word_small,
}

pub read_word-word_bytes :
    (w : ℕ) (rest : List ℕ) → w < 2 ^ 32 → read_word (word_bytes w ++ rest) ≡ ok w rest
unfolding read_word
read_word-word_bytes w rest h =
    rw (read_bytes-append (word_bytes w) rest 4 (unfold word_bytes in refl))
      (rw (word_at-word_bytes w h))

pub c_string-All : (s : List ℕ) → All (λ b. b ≢ 0) s → c_string s ≡ s
unfolding c_string
c_string-All [] h = refl
c_string-All (b ∷ s) h = ground (arith, c_string-All s h.1)

-- A length below the limit is not refused.
refuses_length-small :
    (ms l : ℕ) → ms < 2 ^ 31 → l < 2 ^ 31 → IsBelow ms l → refuses_length ms l ≡ false
unfolding refuses_length
refuses_length-small ms l hm hl below =
    rw (is_negative_small l hl, signed_le-leb ms l hm hl) (ground arith)

pub read_string-write_string :
    (ms : ℕ) (s rest : List ℕ)
    → ms < 2 ^ 31
    → length s < 2 ^ 31
    → IsBelow ms (length s)
    → read_string ms (write_string s ++ rest) ≡ ok s rest
unfolding read_string write_string
read_string-write_string ms s rest hm hl below = rw (
  append_assoc,
  read_word-word_bytes (length s) (s ++ rest) (omega arith),
  refuses_length-small ms (length s) hm hl below,
  read_bytes-append s rest (length s) refl,
)

pub refuses_array-small :
    (ma count l : ℕ)
    → ma < 2 ^ 31
    → count + l < int_max
    → IsBelow ma (count + l)
    → refuses_array ma count l ≡ false
unfolding refuses_array
refuses_array-small ma count l hm hl below =
    rw
      (
        signed_le-leb ma l hm (omega arith),
        sub_word_small int_max count (omega arith) (omega arith),
        signed_le-leb (int_max - count) l (omega arith) (omega arith),
        add_word_small l count (omega arith),
        signed_le-leb ma (l + count) hm (omega arith),
      )
      (ground arith)

-- `read` gets back every value of depth below `d` that its limits admit, and counts its items.
abbrev ReadsBack : ℕ → ℕ → ℕ → (ℕ → Reader (Value × ℕ)) → Type 0
ReadsBack ms ma d read =
    (v : Value) (count : ℕ) (rest : List ℕ)
    → depth v < d
    → IsSendable ms v
    → count + total v < int_max
    → IsBelow ma (count + total v)
    → read count (write_value v ++ rest) ≡ ok (v, count + total v) rest

module _ (ms ma : ℕ) (hs : ms < 2 ^ 31) (ha : ma < 2 ^ 31) where
  read_items-write_items :
      (read : ℕ → Reader (Value × ℕ)) (d : ℕ)
      → ReadsBack ms ma d read
      → (vs : Items) (count : ℕ) (rest : List ℕ) → depth_items vs < d
      → AreSendable ms vs
      → count + total_items vs < int_max
      → IsBelow ma (count + total_items vs)
      → read_items read (count_items vs) count (write_items vs ++ rest)
        ≡ ok (vs, count + total_items vs) rest
  unfolding read_items write_value total depth IsSendable count_items
  read_items-write_items read d back nil count rest deep send small below = rw (add-zero count)
  read_items-write_items read d back (cons v vs) count rest deep send small below =
      simp
        (
          append_assoc,
          back v count (write_items vs ++ rest) (omega arith) send.0 (omega arith)
              (IsBelow-le ma _ _ (omega arith) below),
          read_items-write_items read d back vs (count + total v) rest (omega arith) send.1
              (omega arith) (rw (add_assoc) below),
        )
        (rw (add_assoc))

  payload-ReadsBack :
      (read : ℕ → Reader (Value × ℕ)) (d : ℕ)
      → ReadsBack ms ma d read
      → (v : Value) (count : ℕ) (rest : List ℕ) → depth v < suc d
      → IsSendable ms v
      → count + total v < int_max
      → IsBelow ma (count + total v)
      → bind_outcome
          (read_byte (write_value v ++ rest))
          (λ b. read_payload read ms ma count (tag_of_byte b))
        ≡ ok (v, count + total v) rest
  unfolding write_value total depth IsSendable read_payload tag_of_byte read_array type_of type_code
      read_byte write_byte
  payload-ReadsBack read d back void count rest deep send small below = rw (add-zero count)
  payload-ReadsBack read d back (float32 w) count rest deep send small below =
      rw (read_word-word_bytes w rest send, add-zero count)
  payload-ReadsBack read d back (int32 w) count rest deep send small below =
      rw (read_word-word_bytes w rest send, add-zero count)
  payload-ReadsBack read d back (boolean true) count rest deep send small below =
      rw (add-zero count)
  payload-ReadsBack read d back (boolean false) count rest deep send small below =
      rw (add-zero count)
  payload-ReadsBack read d back (string s) count rest deep send small below =
      rw
        (read_string-write_string ms s rest hs send.1 send.2, c_string-All s send.0, add-zero count)
  payload-ReadsBack read d back (array vs) count rest deep send small below = rw (
    append_assoc,
    read_word-word_bytes (count_items vs) (write_items vs ++ rest) (omega arith),
    refuses_array-small ma count (count_items vs) ha (omega arith)
        (IsBelow-le ma _ _ (omega arith) below),
    is_negative_small (count_items vs) (omega arith),
    read_items-write_items read d back vs count rest (omega arith) send (omega arith)
        (IsBelow-le ma _ _ (omega arith) below),
    add_word_small (count + total_items vs) (count_items vs) (omega arith),
    add_assoc,
  )
  payload-ReadsBack read d back (function p n) count rest deep send small below = elim send [ ]

  read_value_from-ReadsBack : (f : ℕ) → ReadsBack ms ma f (read_value_from f ms ma)
  unfolding read_value_from
  read_value_from-ReadsBack zero v count rest deep = absurd (omega arith)
  read_value_from-ReadsBack (suc f) v count rest deep =
      payload-ReadsBack (read_value_from f ms ma) f (read_value_from-ReadsBack f) v count rest deep

  -- A limited reader gets back every value within its limits from the bytes that were written,
  -- whatever follows them.
  pub read_limited-write_value :
      (v : Value) (rest : List ℕ)
      → IsSendable ms v
      → total v < int_max
      → IsBelow ma (total v)
      → read_limited ms ma (write_value v ++ rest) ≡ ok v rest
  unfolding read_limited
  read_limited-write_value v rest send small below =
      let inp = write_value v ++ rest in
      let deep : depth v < suc (length inp) =
        omega (arith, depth-le-length v, length-append (write_value v) rest) in
      rw (
        read_value_from-ReadsBack (suc (length inp)) v 0 rest deep send (rw zero-add small)
          (rw zero-add below))

-- Every value of 32-bit numbers that holds no function, no zero byte in a string, strings below
-- 4096 bytes and fewer than 1024 array items in all is read back by the limited reader, whatever bytes follow it.
pub read_value-write_value :
    (v : Value) (rest : List ℕ)
    → IsSendable max_string_size v
    → total v < max_array_size
    → read_value (write_value v ++ rest) ≡ ok v rest
unfolding read_value
read_value-write_value v rest send small =
    read_limited-write_value max_string_size max_array_size (omega arith) (omega arith) v rest send
      (omega arith) (inr small)

-- The unlimited reader of the sandbox gets back every value of 32-bit numbers with no function, no
-- zero byte in a string, strings below 2 ^ 31 bytes and fewer than `INT_MAX` array items in all.
pub read_value_nolimit-write_value :
    (v : Value) (rest : List ℕ)
    → IsSendable 0 v
    → total v < int_max
    → read_value_nolimit (write_value v ++ rest) ≡ ok v rest
unfolding read_value_nolimit
read_value_nolimit-write_value v rest send small =
    read_limited-write_value 0 0 (omega arith) (omega arith) v rest send small (inl refl)
