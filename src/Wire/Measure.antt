-- ===== src/Wire/Measure.antt =====
-- The size and the nesting of a value, and which values a pipe with given limits can carry.
use cagekeeper.Prelude.{
  ℕ, suc, ◌+◌, ◌≤◌, ◌<◌, ◌≡◌, ◌⊎◌, inl, inr, ◌≢◌, ◌^◌, All, length, length-append, arith,
}
use cagekeeper.Value.{
  Value, Items, void, float32, int32, boolean, string, array, function, nil, cons, count_items,
}
use cagekeeper.Wire.Write.{write_value, write_items}
use cagekeeper.Word.{word_bytes}
use Prim.Native.Nat.{max}

-- The number of items of all the arrays in a value together.
unfoldable mutual
  pub total : Value → ℕ
  total void = 0
  total (float32 f) = 0
  total (int32 i) = 0
  total (boolean b) = 0
  total (string s) = 0
  total (array vs) = total_items vs + count_items vs
  total (function p n) = 0

  pub total_items : Items → ℕ
  total_items nil = 0
  total_items (cons v vs) = total v + total_items vs

-- How deep the arrays nest.
unfoldable mutual
  pub depth : Value → ℕ
  depth void = 0
  depth (float32 f) = 0
  depth (int32 i) = 0
  depth (boolean b) = 0
  depth (string s) = 0
  depth (array vs) = suc (depth_items vs)
  depth (function p n) = 0

  pub depth_items : Items → ℕ
  depth_items nil = 0
  depth_items (cons v vs) = max (depth v) (depth_items vs)

-- A limit of 0 stands for none.
abbrev pub IsBelow : ℕ → ℕ → Type 0
IsBelow limit n = (limit ≡ 0) ⊎ (n < limit)

pub IsBelow-le : (limit a b : ℕ) → a ≤ b → IsBelow limit b → IsBelow limit a
IsBelow-le limit a b h (inl e) = inl e
IsBelow-le limit a b h (inr k) = inr (omega arith)

-- No function anywhere, words of 32 bits, and C strings below the limit on strings.
unfoldable mutual
  pub IsSendable : ℕ → Value → Type 0
  IsSendable ms void = Unit
  IsSendable ms (float32 f) = f < 2 ^ 32
  IsSendable ms (int32 i) = i < 2 ^ 32
  IsSendable ms (boolean b) = Unit
  IsSendable ms (string s) = All (λ b. b ≢ 0) s × (length s < 2 ^ 31) × IsBelow ms (length s)
  IsSendable ms (array vs) = AreSendable ms vs
  IsSendable ms (function p n) = ⊥

  pub AreSendable : ℕ → Items → Type 0
  AreSendable ms nil = Unit
  AreSendable ms (cons v vs) = IsSendable ms v × AreSendable ms vs

-- A value takes at least a byte for each level of nesting.
mutual
  unfolding depth write_value word_bytes

  pub depth-le-length : (v : Value) → depth v ≤ length (write_value v)
  depth-le-length void = omega arith
  depth-le-length (float32 f) = omega arith
  depth-le-length (int32 i) = omega arith
  depth-le-length (boolean b) = omega arith
  depth-le-length (string s) = omega arith
  depth-le-length (array vs) = omega (arith, depth_items-le-length vs)
  depth-le-length (function p n) = omega arith

  depth_items-le-length : (vs : Items) → depth_items vs ≤ length (write_items vs)
  depth_items-le-length nil = omega arith
  depth_items-le-length (cons v vs) = omega (
    arith,
    depth-le-length v,
    depth_items-le-length vs,
    length-append (write_value v) (write_items vs),
  )
