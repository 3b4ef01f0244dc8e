-- ===== src/Wire/Leaving.antt =====
-- What the readers leave in the pipe, whether they succeed or fail: never more than there was.
use cagekeeper.Prelude.{
  ◌≡◌, refl, ℕ, zero, suc, ◌≤◌, arith, inl, inr, List, [], ◌∷◌, length, if◌then◌else◌, Bool-cases,
  Option, none, some,
}
use cagekeeper.Value.{ValueType, void, float32, int32, boolean, string, array, function}
use cagekeeper.Value.{Value}
use cagekeeper.Wire.Read.{
  read_word, refuses_length, read_string, refuses_array, read_items, read_array, tag_of_byte,
  read_payload, read_value_from, read_limited, read_value_nolimit,
}
use cagekeeper.Wire.Stream.{
  Outcome, ok, failed, short, out_of_fuel, Failure, Reader, bind_outcome, read_byte, read_bytes,
}
use cagekeeper.Word.{is_negative}

-- However a reader ends, at most `n` bytes are left.
pub data Leaving {A : Type 0} (n : ℕ) : Outcome A → Type 0 where
  returning : {a : A} {rest : List ℕ} → length rest ≤ n → Leaving n (ok a rest)
  failing : {why : Failure} {rest : List ℕ} → length rest ≤ n → Leaving n (failed why rest)
  spending : Leaving n out_of_fuel

Leaving-bind :
    {A B : Type 0} {n : ℕ} {m : Outcome A} {f : A → Reader B}
    → Leaving n m
    → ((a : A) (rest : List ℕ) → length rest ≤ n → Leaving n (f a rest))
    → Leaving n (bind_outcome m f)
Leaving-bind (returning {a} {rest} h) k = k a rest h
Leaving-bind (failing h) k = failing h
Leaving-bind spending k = spending

read_bytes-Leaving : (k n : ℕ) (inp : List ℕ) → length inp ≤ n → Leaving n (read_bytes k inp)
unfolding read_bytes
read_bytes-Leaving zero n inp h = returning h
read_bytes-Leaving (suc k) n [] h = failing h
read_bytes-Leaving (suc k) n (b ∷ inp) h =
    Leaving-bind (read_bytes-Leaving k n inp (omega arith)) λ bs rest e. returning e

pub read_byte-Leaving : (n : ℕ) (inp : List ℕ) → length inp ≤ n → Leaving n (read_byte inp)
unfolding read_byte
read_byte-Leaving n [] h = failing h
read_byte-Leaving n (b ∷ inp) h = returning (omega arith)

read_word-Leaving : (n : ℕ) (inp : List ℕ) → length inp ≤ n → Leaving n (read_word inp)
unfolding read_word
read_word-Leaving n inp h = Leaving-bind (read_bytes-Leaving 4 n inp h) λ bs rest e. returning e

pub read_string-Leaving :
    (ms n : ℕ) (inp : List ℕ) → length inp ≤ n → Leaving n (read_string ms inp)
unfolding read_string
read_string-Leaving ms n inp h = Leaving-bind (read_word-Leaving n inp h) λ l rest e.
    elim (Bool-cases (refuses_length ms l)) [
      | inl bad ↦ rw bad (failing e)
      | inr good ↦ rw good (read_bytes-Leaving l n rest e)
    ]

module _ (ms ma : ℕ) where
  -- What a reader of values leaves.
  abbrev Leaves : (ℕ → Reader (Value × ℕ)) → Type 0
  Leaves read = (count n : ℕ) (inp : List ℕ) → length inp ≤ n → Leaving n (read count inp)

  read_items-Leaving :
      (read : ℕ → Reader (Value × ℕ))
      → Leaves read
      → (l count n : ℕ) (inp : List ℕ) → length inp ≤ n
      → Leaving n (read_items read l count inp)
  unfolding read_items
  read_items-Leaving read leaves zero count n inp h = returning h
  read_items-Leaving read leaves (suc l) count n inp h =
      Leaving-bind (leaves count n inp h) λ v rest e.
        Leaving-bind (read_items-Leaving read leaves l v.1 n rest e) λ vs rest' e'. returning e'

  read_array-Leaving : (read : ℕ → Reader (Value × ℕ)) → Leaves read → Leaves (read_array read ma)
  unfolding read_array
  read_array-Leaving read leaves count n inp h =
      Leaving-bind (read_word-Leaving n inp h) λ l rest e.
        elim (Bool-cases (refuses_array ma count l)) [
          | inl bad ↦ rw bad (failing e)
          | inr good ↦ rw good (
              Leaving-bind
                (read_items-Leaving read leaves (if is_negative l then 0 else l) count n rest e)
                λ vs rest' e'. returning e')
        ]

  read_payload-Leaving :
      (read : ℕ → Reader (Value × ℕ))
      → Leaves read
      → (tag : Option ValueType) → Leaves (λ count. read_payload read ms ma count tag)
  unfolding read_payload
  read_payload-Leaving read leaves none count n inp h = failing h
  read_payload-Leaving read leaves (some void) count n inp h = returning h
  read_payload-Leaving read leaves (some float32) count n inp h =
      Leaving-bind (read_word-Leaving n inp h) λ w rest e. returning e
  read_payload-Leaving read leaves (some int32) count n inp h =
      Leaving-bind (read_word-Leaving n inp h) λ w rest e. returning e
  read_payload-Leaving read leaves (some boolean) count n inp h =
      Leaving-bind (read_byte-Leaving n inp h) λ b rest e. returning e
  read_payload-Leaving read leaves (some string) count n inp h =
      Leaving-bind (read_string-Leaving ms n inp h) λ s rest e. returning e
  read_payload-Leaving read leaves (some array) count n inp h =
      read_array-Leaving read leaves count n inp h
  read_payload-Leaving read leaves (some function) count n inp h = failing h

  read_value_from-Leaving : (f : ℕ) → Leaves (read_value_from f ms ma)
  unfolding read_value_from
  read_value_from-Leaving zero count n inp h = spending
  read_value_from-Leaving (suc f) count n inp h =
      Leaving-bind (read_byte-Leaving n inp h) λ b rest e.
        read_payload-Leaving (read_value_from f ms ma) (read_value_from-Leaving f) (tag_of_byte b)
          count n rest e

pub read_value_nolimit-Leaving :
    (n : ℕ) (inp : List ℕ) → length inp ≤ n → Leaving n (read_value_nolimit inp)
unfolding read_value_nolimit read_limited
read_value_nolimit-Leaving n inp h =
    Leaving-bind (read_value_from-Leaving 0 0 (suc (length inp)) 0 n inp h) λ v rest e. returning e

-- Where nothing has come there is no value.
pub read_value_nolimit-nil : read_value_nolimit [] ≡ failed short []
unfolding read_value_nolimit read_limited read_value_from read_byte
read_value_nolimit-nil = refl
