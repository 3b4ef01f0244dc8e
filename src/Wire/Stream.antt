-- ===== src/Wire/Stream.antt =====
-- The reading end of a pipe as the bytes that will still arrive. A read that asks for more than
-- those fails (`read_with_timeout` and `read_with_retry` of util.c return false) and has used them up.
use cagekeeper.Prelude.{
  ℕ, zero, suc, ◌+◌, ◌≤◌, ◌<◌, ◌≡◌, refl, ap, List, [], ◌∷◌, ◌++◌, arith, length, All,
}

-- Why a reader gave up: too few bytes, or bytes that it does not accept.
pub data Failure : Type 0 where
  short refused : Failure

-- `out_of_fuel` has no counterpart in the program.
pub data Outcome {ℓ} (A : Type ℓ) : Type ℓ where
  ok : A → List ℕ → Outcome A
  failed : Failure → List ℕ → Outcome A
  out_of_fuel : Outcome A

abbrev pub Reader {ℓ} : Type ℓ → Type ℓ
Reader A = List ℕ → Outcome A

abbrev pub pure {ℓ} : {A : Type ℓ} → A → Reader A
pure a inp = ok a inp

-- `return NULL`
abbrev pub refuse {ℓ} : {A : Type ℓ} → Reader A
refuse inp = failed refused inp

abbrev pub bind_outcome {ℓ κ} : {A : Type ℓ} {B : Type κ} → Outcome A → (A → Reader B) → Outcome B
bind_outcome (ok a rest) f = f a rest
bind_outcome (failed why rest) f = failed why rest
bind_outcome out_of_fuel f = out_of_fuel

infixl 1 ◌>>=◌
abbrev pub ◌>>=◌ {ℓ κ} : {A : Type ℓ} {B : Type κ} → Reader A → (A → Reader B) → Reader B
(m >>= f) inp = bind_outcome (m inp) f

-- `read_with_timeout(fd, data, len, timeout)`
unfoldable pub read_bytes : ℕ → Reader (List ℕ)
read_bytes zero inp = ok [] inp
read_bytes (suc n) [] = failed short []
read_bytes (suc n) (b ∷ inp) = bind_outcome (read_bytes n inp) λ bs rest. ok (b ∷ bs) rest

-- `read_with_timeout(fd, &b, 1, timeout)`
unfoldable pub read_byte : Reader ℕ
read_byte [] = failed short []
read_byte (b ∷ inp) = ok b inp

pub read_bytes-append :
    (bs rest : List ℕ) (n : ℕ) → length bs ≡ n → read_bytes n (bs ++ rest) ≡ ok bs rest
unfolding read_bytes
read_bytes-append [] rest zero e = refl
read_bytes-append [] rest (suc n) e = absurd (omega arith)
read_bytes-append (b ∷ bs) rest zero e = absurd (omega arith)
read_bytes-append (b ∷ bs) rest (suc n) e = simp (read_bytes-append bs rest n (omega arith))

-- A postcondition of a reader that keeps within its fuel: `P a rest` if it returns, and `Q rest`
-- of what it leaves if it fails.
pub data Ensures {ℓ κ} {A : Type ℓ} (P : A → List ℕ → Type κ) : Outcome A → Type (ℓ ⊔ κ) where
  returns : {a : A} {rest : List ℕ} → P a rest → Ensures P (ok a rest)
  fails : {why : Failure} {rest : List ℕ} → Ensures P (failed why rest)

module _ {ℓ κ} {A : Type ℓ} {P : A → List ℕ → Type κ} where
  pub Ensures-bind {ℓ' κ'} :
      {B : Type ℓ'} {Q : B → List ℕ → Type κ'} {m : Outcome A} {f : A → Reader B}
      → Ensures P m
      → ((a : A) (rest : List ℕ) → P a rest → Ensures Q (f a rest))
      → Ensures Q (bind_outcome m f)
  Ensures-bind (returns {a} {rest} h) k = k a rest h
  Ensures-bind fails k = fails

pub Ensures-imp {ℓ κ κ'} :
    {A : Type ℓ} {P : A → List ℕ → Type κ} {Q : A → List ℕ → Type κ'} {m : Outcome A}
    → Ensures P m
    → ((a : A) (rest : List ℕ) → P a rest → Ensures Q (ok a rest))
    → Ensures Q m
Ensures-imp (returns {a} {rest} h) k = k a rest h
Ensures-imp fails k = fails

-- What a byte can be.
abbrev pub AreBytes : List ℕ → Type 0
AreBytes = All (λ b. b < 256)

-- A read hands out bytes and leaves bytes, and none are lost.
pub read_byte-Ensures :
    (inp : List ℕ)
    → AreBytes inp
    → Ensures
        (λ b rest. (b < 256) × (suc (length rest) ≤ length inp) × AreBytes rest)
        (read_byte inp)
unfolding read_byte
read_byte-Ensures [] h = fails
read_byte-Ensures (b ∷ inp) h = returns (h.0, omega arith, h.1)

pub read_bytes-Ensures :
    (n : ℕ) (inp : List ℕ)
    → AreBytes inp
    → Ensures
        (λ bs rest. (length bs ≡ n) × (n + length rest ≡ length inp) × AreBytes bs × AreBytes rest)
        (read_bytes n inp)
unfolding read_bytes
read_bytes-Ensures zero inp h = returns (refl, omega arith, tt, h)
read_bytes-Ensures (suc n) [] h = fails
read_bytes-Ensures (suc n) (b ∷ inp) h =
    Ensures-bind (read_bytes-Ensures n inp h.1)
      λ bs rest e. returns (ap suc e.0, omega arith, (h.0, e.2), e.3)
