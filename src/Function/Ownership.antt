-- ===== src/Function/Ownership.antt =====
-- The blocks of a value in memory: that making a value allocates them, and destroying it frees them.
use cagekeeper.Prelude.{
  ℕ, suc, ◌+◌, ◌≡◌, refl, ap, ◌∙◌, Option, none, some, [], ◌∷◌, ◌++◌, leb, if◌then◌else◌,
  Bool-cases, inl, inr, arith,
}
use cagekeeper.Function.Freeing.{
  count, count-append, pointer_blocks, blocks, blocks_of, Holds, value_destroy-Frees, count-snoc,
  reallocate-Owns,
}
use cagekeeper.Function.Memory.{
  Heap, malloc, Cell, Cells, growing, no_cells, value_destroy, value_new_simple, value_new_string,
  value_new_array, value_new_cfunction, snoc, reallocate, hand_on, array_append, new_value,
  append_values, count_cells,
}
use cagekeeper.Function.Values.{grow}
use cagekeeper.Value.{
  Value, Items, void, float32, int32, boolean, string, array, function, nil, cons,
}

-- Appending moves the block of the items where it is full, and the array then owns the value too.
array_append-Holds :
    (node internal : ℕ) (data_block : Option ℕ) (size : ℕ) (items : Cells) (c : Cell) (h : Heap)
    (rest : ℕ → ℕ)
    → ((a : ℕ)
        → count a h.live
          ≡ count a (blocks (growing node internal data_block size items))
            + count a (blocks c)
            + rest a)
    → (data_block' : Option ℕ) × (size' : ℕ) × (h' : Heap) × (array_append
          (growing node internal data_block size items)
          c
          h
        ≡ some (growing node internal data_block' size' (snoc items c), h'))
      × Holds (blocks (growing node internal data_block' size' (snoc items c))) rest h'
unfolding array_append blocks count
array_append-Holds node internal data_block size items c h rest holds =
    let tail = internal ∷ node ∷ [] in
    let moved : ℕ → Heap → Option (Cell × Heap) =
      λ d h'. some (growing node internal (some d) (grow size) (snoc items c), h') in
    let still : Option (Cell × Heap) =
      some (growing node internal data_block size (snoc items c), h) in
    elim (Bool-cases (leb size (count_cells items))) [
      | inl e ↦
          let (d, h', e', holds') =
            reallocate-Owns data_block h
              (λ a. count a (blocks_of items) + (count a tail + (count a (blocks c) + rest a)))
              (λ a. omega (
                arith,
                holds a,
                count-append a (blocks_of items) (pointer_blocks data_block ++ tail),
                count-append a (pointer_blocks data_block) tail,
              )) in
          (
            some d,
            grow size,
            h',
            ap (λ t. if t then hand_on (reallocate data_block h) moved else still) e
                ∙ ap (λ o. hand_on o moved) e',
            λ a. omega (
              arith,
              holds' a,
              count-append a (blocks_of (snoc items c)) (d ∷ tail),
              count-snoc a items c,
            ),
          )
      | inr e ↦ (
        data_block,
        size,
        h,
        ap (λ t. if t then hand_on (reallocate data_block h) moved else still) e,
        λ a. omega (
          arith,
          holds a,
          count-append a (blocks_of items) (pointer_blocks data_block ++ tail),
          count-append a (blocks_of (snoc items c)) (pointer_blocks data_block ++ tail),
          count-snoc a items c,
        ),
      )
    ]

-- Making a value only adds the blocks that it owns.
mutual
  unfolding new_value value_new_simple value_new_string value_new_array value_new_cfunction malloc
      blocks count

  pub new_value-Holds :
      (v : Value) (h : Heap)
      → (c : Cell) × (h' : Heap) × (new_value v h ≡ some (c, h'))
        × Holds (blocks c) (λ a. count a h.live) h'
  new_value-Holds void h = (_, _, refl, λ a. omega arith)
  new_value-Holds (float32 f) h = (_, _, refl, λ a. omega arith)
  new_value-Holds (int32 i) h = (_, _, refl, λ a. omega arith)
  new_value-Holds (boolean b) h = (_, _, refl, λ a. omega arith)
  new_value-Holds (string s) h = (_, _, refl, λ a. omega arith)
  new_value-Holds (array vs) h =
      append_values-Holds vs h.next (suc h.next) none 0 no_cells
        (record { next = suc (suc h.next); live = suc h.next ∷ h.next ∷ h.live })
        (λ a. count a h.live) (λ a. omega arith)
  new_value-Holds (function p n) h = (_, _, refl, λ a. omega arith)

  append_values-Holds :
      (vs : Items) (node internal : ℕ) (data_block : Option ℕ) (size : ℕ) (items : Cells) (h : Heap)
      (rest : ℕ → ℕ)
      → Holds (blocks (growing node internal data_block size items)) rest h
      → (c : Cell) × (h' : Heap) × (append_values vs (growing node internal data_block size items) h
          ≡ some (c, h'))
        × Holds (blocks c) rest h'
  append_values-Holds nil node internal data_block size items h rest holds = (_, _, refl, holds)
  append_values-Holds (cons v vs) node internal data_block size items h rest holds =
      let (c, h₁, e₁, holds₁) = new_value-Holds v h in
      let (data_block', size', h₂, e₂, holds₂) =
        array_append-Holds node internal data_block size items c h₁ rest
          (λ a. omega (arith, holds a, holds₁ a)) in
      let (c', h₃, e₃, holds₃) =
        append_values-Holds vs node internal data_block' size' (snoc items c) h₂ rest holds₂ in
      (
        c',
        h₃,
        ap
              (λ o. hand_on o (λ c h₁.
                hand_on (array_append (growing node internal data_block size items) c h₁)
                  (append_values vs)))
              e₁
            ∙ ap (λ o. hand_on o (append_values vs)) e₂
            ∙ e₃,
        holds₃,
      )

-- From any heap, whatever value is made by value_new_* and array_append: nothing is freed on the way
-- that is not allocated, value_destroy then finds every block that it frees allocated, and afterwards
-- each address is allocated as often as before. So what a value allocates is freed, once, and nothing
-- else is.
pub value_destroy-new_value :
    (v : Value) (h : Heap)
    → (c : Cell) × (h₁ h₂ : Heap) × (new_value v h ≡ some (c, h₁))
      × (value_destroy c h₁ ≡ some h₂)
      × ((a : ℕ) → count a h₂.live ≡ count a h.live)
unfolding count
value_destroy-new_value v h =
    let (c, h₁, made, holds) = new_value-Holds v h in
    let (h₂, freed, back) = value_destroy-Frees c h₁ (λ a. count a h.live) holds in
    (c, h₁, h₂, made, freed, λ a. omega (arith, back a))
