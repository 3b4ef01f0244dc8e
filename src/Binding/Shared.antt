-- ===== src/Binding/Shared.antt =====
-- Values that every interpreter can hold, and values as pointers.
use cagekeeper.Prelude.{Bool, true, false, ◌||◌, ℕ, List, [], ◌∷◌, All, ◌≢◌, ◌≡◌, refl, ap}
use cagekeeper.Function.Values.{Copy, null, scalar, copied_array, Copies, no_copies, one_more}
use cagekeeper.Value.{
  Value, Items, void, float32, int32, boolean, string, array, function, nil, cons,
}

unfoldable pub items_of_list : List Value → Items
items_of_list [] = nil
items_of_list (v ∷ vs) = cons v (items_of_list vs)

unfoldable pub copies_of_list : List Copy → Copies
copies_of_list [] = no_copies
copies_of_list (c ∷ cs) = one_more c (copies_of_list cs)

unfoldable pub list_of_items : Items → List Value
list_of_items nil = []
list_of_items (cons v vs) = v ∷ list_of_items vs

-- The pointer to a value, with no NULL inside.
unfoldable mutual
  pub pointer_to : Value → Copy
  pointer_to void = scalar void
  pointer_to (float32 f) = scalar (float32 f)
  pointer_to (int32 i) = scalar (int32 i)
  pointer_to (boolean b) = scalar (boolean b)
  pointer_to (string s) = scalar (string s)
  pointer_to (array vs) = copied_array (pointers_to vs)
  pointer_to (function p n) = scalar (function p n)

  pub pointers_to : Items → Copies
  pointers_to nil = no_copies
  pointers_to (cons v vs) = one_more (pointer_to v) (pointers_to vs)

unfoldable pub pointer_list : Items → List Copy
unfolding pointer_to
pointer_list nil = []
pointer_list (cons v vs) = pointer_to v ∷ pointer_list vs

pub copies_of_list-pointer_list : (vs : Items) → copies_of_list (pointer_list vs) ≡ pointers_to vs
unfolding copies_of_list pointer_list pointer_to
copies_of_list-pointer_list nil = refl
copies_of_list-pointer_list (cons v vs) =
    ap (one_more (pointer_to v)) (copies_of_list-pointer_list vs)

-- A null pointer somewhere inside, which `value_destroy` reads.
unfoldable mutual
  pub has_null : Copy → Bool
  has_null null = true
  has_null (scalar v) = false
  has_null (copied_array cs) = any_null cs

  pub any_null : Copies → Bool
  any_null no_copies = false
  any_null (one_more c cs) = has_null c || any_null cs

-- No function, whole numbers for which `P` holds, and C strings.
unfoldable mutual
  pub IsShared : (ℕ → Type 0) → Value → Type 0
  IsShared P void = Unit
  IsShared P (float32 f) = Unit
  IsShared P (int32 i) = P i
  IsShared P (boolean b) = Unit
  IsShared P (string s) = All (λ b. b ≢ 0) s
  IsShared P (array vs) = AreShared P vs
  IsShared P (function p n) = ⊥

  pub AreShared : (ℕ → Type 0) → Items → Type 0
  AreShared P nil = Unit
  AreShared P (cons v vs) = IsShared P v × AreShared P vs
