-- ===== src/Function/Cloning.antt =====
-- function.c, array_append and value_clone: that no item is written outside the array, and which
-- values a copy keeps.
use cagekeeper.Prelude.{
  ℕ, ◌≤◌, ◌<◌, ◌≡◌, refl, sym, ap, ◌∙◌, List, [], ◌∷◌, ◌++◌, append_assoc, append-nil, length,
  length-append, arith,
}
use cagekeeper.Value.{
  Value, Items, void, float32, int32, boolean, string, array, function, nil, cons,
}
use cagekeeper.Function.Values.{
  Copy, null, scalar, copied_array, Copies, no_copies, one_more, value_clone, clone_items, Growing,
  array_new, grow, array_append, append_each,
}

grow-lt : (size : ℕ) → size < grow size
unfolding grow
grow-lt size = omega arith

append_each-fits :
    (vs : List Value) (a : Growing)
    → length a.items ≤ a.size
    → ((append_each a vs).items ≡ a.items ++ vs)
      × (length (append_each a vs).items ≤ (append_each a vs).size)
unfolding append_each array_append
append_each-fits [] a h = (sym (append-nil a.items), h)
append_each-fits (v ∷ vs) a h =
    let room : length (array_append a v).items ≤ (array_append a v).size =
      ground (arith, grow-lt a.size, length-append a.items (v ∷ [])) in
    let (e, r) = append_each-fits vs (array_append a v) room in
    (e ∙ append_assoc a.items (v ∷ []) vs, r)

-- However many values are appended to a new array, it holds them in order, and never more than its
-- allocated size.
pub append_each_lem :
    (vs : List Value)
    → ((append_each array_new vs).items ≡ vs)
      × (length (append_each array_new vs).items ≤ (append_each array_new vs).size)
append_each_lem vs = append_each-fits vs array_new (omega arith)

-- A value without void and functions.
unfoldable mutual
  pub IsCopied : Value → Type 0
  IsCopied void = ⊥
  IsCopied (float32 f) = Unit
  IsCopied (int32 i) = Unit
  IsCopied (boolean b) = Unit
  IsCopied (string s) = Unit
  IsCopied (array vs) = AreCopied vs
  IsCopied (function p n) = ⊥

  pub AreCopied : Items → Type 0
  AreCopied nil = Unit
  AreCopied (cons v vs) = IsCopied v × AreCopied vs

-- The value that a pointer points to, with a void value for NULL inside an array.
unfoldable mutual
  pub value_of_copy : Copy → Value
  value_of_copy null = void
  value_of_copy (scalar v) = v
  value_of_copy (copied_array cs) = array (items_of_copies cs)

  pub items_of_copies : Copies → Items
  items_of_copies no_copies = nil
  items_of_copies (one_more c cs) = cons (value_of_copy c) (items_of_copies cs)

mutual
  unfolding IsCopied value_clone value_of_copy

  value_clone-copied : (v : Value) → IsCopied v → value_of_copy (value_clone v) ≡ v
  value_clone-copied void h = elim h [ ]
  value_clone-copied (float32 f) h = refl
  value_clone-copied (int32 i) h = refl
  value_clone-copied (boolean b) h = refl
  value_clone-copied (string s) h = refl
  value_clone-copied (array vs) h = ap array (clone_items-copied vs h)
  value_clone-copied (function p n) h = elim h [ ]

  clone_items-copied : (vs : Items) → AreCopied vs → items_of_copies (clone_items vs) ≡ vs
  clone_items-copied nil h = refl
  clone_items-copied (cons v vs) h =
      ap (λ x. cons x (items_of_copies (clone_items vs))) (value_clone-copied v h.0)
      ∙ ap (cons v) (clone_items-copied vs h.1)

-- The copy of a value without void and functions inside holds that value.
pub value_clone_lem : (v : Value) → IsCopied v → value_of_copy (value_clone v) ≡ v
value_clone_lem v h = value_clone-copied v h
