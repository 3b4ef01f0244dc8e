-- ===== src/Binding/Built.antt =====
-- An interpreter's array that the loop of a binding has built reads back, entry by entry.
use cagekeeper.Prelude.{
  ℕ, zero, suc, ◌+◌, ◌≤◌, ◌<◌, ◌≡◌, refl, ap, ◌∙◌, Option, none, some, List, [], ◌∷◌, ◌++◌,
  append_assoc, append-nil, length, length-append, arith,
}
use cagekeeper.Binding.Arrays.{Converted, converted, ◌>>=◌, store_all, entry_or_refuse, collect}

unfoldable pub nth : {V : Type 0} → List V → ℕ → Option V
nth [] i = none
nth (x ∷ xs) zero = some x
nth (x ∷ xs) (suc i) = nth xs i

-- What is documented of an array: `Built n a xs` says that it was made for `n` entries, of which the
-- first are stored, namely `xs`.
pub record IsArray {V : Type 0} (create : ℕ → V) (store : V → ℕ → V → V) (size : V → ℕ)
    (read : V → ℕ → Option V) : Type 1 where
  pub Built : ℕ → V → List V → Type 0
  pub fresh : (n : ℕ) → Built n (create n) []
  pub stored :
      (n : ℕ) (a : V) (xs : List V) (x : V)
      → length xs < n
      → Built n a xs
      → Built n (store a (length xs) x) (xs ++ x ∷ [])
  pub sized : (a : V) (xs : List V) → Built (length xs) a xs → size a ≡ length xs
  pub reads : (a : V) (xs : List V) (i : ℕ) → Built (length xs) a xs → read a i ≡ nth xs i

module _ {V : Type 0} {create : ℕ → V} {store : V → ℕ → V → V} {size : V → ℕ}
    {read : V → ℕ → Option V} (laws : IsArray create store size read) where
  store_all-Built :
      (n : ℕ) (a : V) (xs ys : List V)
      → length xs + length ys ≤ n
      → laws.Built n a xs
      → laws.Built n (store_all store a (length xs) ys) (xs ++ ys)
  unfolding store_all
  store_all-Built n a xs [] small h = rw (append-nil xs) h
  store_all-Built n a xs (y ∷ ys) small h =
      let next = laws.stored n a xs y (omega arith) h in
      let len : length (xs ++ y ∷ []) ≡ suc (length xs) =
        omega (arith, length-append xs (y ∷ [])) in
      rw (← append_assoc xs (y ∷ []) ys, ← len)
        (store_all-Built n (store a (length xs) y) (xs ++ y ∷ []) ys (omega arith) next)

  pub Built-store_all :
      (xs : List V) → laws.Built (length xs) (store_all store (create (length xs)) 0 xs) xs
  Built-store_all xs =
      store_all-Built (length xs) (create (length xs)) [] xs (omega arith) (laws.fresh (length xs))

-- A conversion of each entry, in order.
unfoldable pub convert_each : {V A : Type 0} → (V → Converted A) → List V → Converted (List A)
convert_each convert [] = converted []
convert_each convert (x ∷ xs) =
    convert x >>= λ y. convert_each convert xs >>= λ ys. converted (y ∷ ys)

module _ {V A : Type 0} (convert : V → Converted A) (read : ℕ → Option V) where
  collect-each :
      (xs : List V) (i : ℕ)
      → ((k : ℕ) → read (i + k) ≡ nth xs k)
      → collect convert read (length xs) i ≡ convert_each convert xs
  unfolding collect convert_each entry_or_refuse nth
  collect-each [] i h = refl
  collect-each (x ∷ xs) i h =
      let here : read i ≡ some x = ap read (omega arith) ∙ h 0 in
      let later : (k : ℕ) → read (suc i + k) ≡ nth xs k = λ k. ap read (omega arith) ∙ h (suc k) in
      rw (here, collect-each xs (suc i) later) refl

-- Reading a built array converts what was stored in it.
pub collect-Built :
    {V A : Type 0} {create : ℕ → V} {store : V → ℕ → V → V} {size : V → ℕ} {read : V → ℕ → Option V}
    (laws : IsArray create store size read) (convert : V → Converted A) (xs : List V)
    → let a = store_all store (create (length xs)) 0 xs in
      collect convert (read a) (size a) 0 ≡ convert_each convert xs
collect-Built {create = create} {store = store} {read = read} laws convert xs =
    let a = store_all store (create (length xs)) 0 xs in
    let built = Built-store_all laws xs in
    rw (laws.sized a xs built) (
      collect-each convert (read a) xs 0 (λ k. ap (read a) (omega arith) ∙ laws.reads a xs k built))
