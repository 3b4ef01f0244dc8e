-- ===== src/Binding/Arrays.antt =====
-- The loops over arrays, over what the interpreter's library does with one entry.
use cagekeeper.Prelude.{ℕ, zero, suc, Option, none, some, List, [], ◌∷◌}

-- The result of a conversion; `refused` ends it early. Arrays of an interpreter can hold themselves,
-- so that a conversion has fuel.
pub data Converted {ℓ} (A : Type ℓ) : Type ℓ where
  converted : A → Converted A
  refused out_of_fuel : Converted A

infixl 5 ◌>>=◌
abbrev pub ◌>>=◌ {ℓ κ} : {A : Type ℓ} {B : Type κ} → Converted A → (A → Converted B) → Converted B
converted a >>= k = k a
refused >>= k = refused
out_of_fuel >>= k = out_of_fuel

-- `for(i=…) { store(array, i, entry) }`
unfoldable pub store_all : {V : Type 0} → (V → ℕ → V → V) → V → ℕ → List V → V
store_all store a i [] = a
store_all store a i (x ∷ xs) = store_all store (store a i x) (suc i) xs

-- An entry that the library does not give ends the loop.
unfoldable pub entry_or_refuse : {V A : Type 0} → (V → Converted A) → Option V → Converted A
entry_or_refuse convert none = refused
entry_or_refuse convert (some v) = convert v

-- `for(i=…) { array_append(array, convert(read(i))) }`, over the rounds left
unfoldable pub collect :
    {V A : Type 0} → (V → Converted A) → (ℕ → Option V) → ℕ → ℕ → Converted (List A)
unfolding entry_or_refuse
collect convert read zero i = converted []
collect convert read (suc left) i = entry_or_refuse convert (read i) >>= λ x.
    collect convert read left (suc i) >>= λ xs. converted (x ∷ xs)
