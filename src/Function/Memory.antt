-- ===== src/Function/Memory.antt =====
-- function.c: the memory of values. Each value_new_* allocates blocks, array_append replaces the
-- block of the items, and value_destroy frees them.
use cagekeeper.Prelude.{ℕ, suc, Option, none, some, List, [], ◌∷◌, leb, ◌==◌, if◌then◌else◌}
use cagekeeper.Function.Values.{grow}
use cagekeeper.Value.{
  Value, Items, void, float32, int32, boolean, string, array, function, nil, cons,
}

-- The addresses of the blocks that are allocated, and an address that was never used.
pub record Heap : Type 0 where
  pub next : ℕ
  pub live : List ℕ

abbrev pub kept_block : ℕ → Option (List ℕ) → Option (List ℕ)
kept_block b none = none
kept_block b (some l) = some (b ∷ l)

unfoldable pub remove : ℕ → List ℕ → Option (List ℕ)
remove a [] = none
remove a (b ∷ l) = let rest = kept_block b (remove a l) in if a == b then some l else rest

-- `malloc`, `calloc` and `strdup`
unfoldable pub malloc : Heap → ℕ × Heap
malloc h = (h.next, record { next = suc h.next; live = h.next ∷ h.live })

abbrev pub with_live : Heap → Option (List ℕ) → Option Heap
with_live h none = none
with_live h (some l) = some (record h { live = l })

-- `free`; `none` is the freeing of a block that is not allocated, or not any more.
unfoldable pub free : ℕ → Heap → Option Heap
free a h = with_live h (remove a h.live)

abbrev pub and_then {ℓ} : {A : Type ℓ} → Option Heap → (Heap → Option A) → Option A
and_then none g = none
and_then (some h) g = g h

infixr 20 ◌>=>◌
abbrev pub ◌>=>◌ {ℓ} : {A : Type ℓ} → (Heap → Option Heap) → (Heap → Option A) → Heap → Option A
(f >=> g) h = and_then (f h) g

-- A `value_t` in memory, by the addresses of its blocks: the node itself first. `simple` has no
-- other. `growing` is an array with its `internal`, its `data` or NULL, and `internal->size`; a C
-- function has `internal`, and in it `params` and `ret`; a function of the program, as the sandbox
-- sees it, has `internal` and in it `name`.
mutual
  pub data Cell : Type 0 where
    simple : ℕ → Cell
    text : ℕ → ℕ → Cell
    growing : ℕ → ℕ → Option ℕ → ℕ → Cells → Cell
    cfunction : ℕ → ℕ → ℕ → ℕ → Cell
    proxy_function : ℕ → ℕ → ℕ → Cell

  pub data Cells : Type 0 where
    no_cells : Cells
    more_cells : Cell → Cells → Cells

-- `free` of a pointer, which does nothing for NULL
unfoldable pub free_pointer : Option ℕ → Heap → Option Heap
free_pointer none h = some h
free_pointer (some a) h = free a h

-- `value_destroy`, which goes by the `destroy` of the value
unfoldable mutual
  pub value_destroy : Cell → Heap → Option Heap
  value_destroy (simple node) = free node
  value_destroy (text node str) = free str >=> free node
  value_destroy (growing node internal data_block size items) =
      destroy_items items >=> free_pointer data_block >=> free internal >=> free node
  value_destroy (cfunction node internal params ret) =
      free params >=> free ret >=> free internal >=> free node
  value_destroy (proxy_function node internal name) = free name >=> free internal >=> free node

  -- the loop of `value_destroy_array`
  pub destroy_items : Cells → Heap → Option Heap
  destroy_items no_cells = some
  destroy_items (more_cells c cs) = value_destroy c >=> destroy_items cs

unfoldable pub value_new_simple : Heap → Cell × Heap
value_new_simple h = let (node, h₁) = malloc h in (simple node, h₁)

unfoldable pub value_new_string : Heap → Cell × Heap
value_new_string h = let (node, h₁) = malloc h in let (str, h₂) = malloc h₁ in (text node str, h₂)

unfoldable pub value_new_array : Heap → Cell × Heap
value_new_array h =
    let (node, h₁) = malloc h in
    let (internal, h₂) = malloc h₁ in (growing node internal none 0 no_cells, h₂)

unfoldable pub value_new_cfunction : Heap → Cell × Heap
value_new_cfunction h =
    let (internal, h₁) = malloc h in
    let (params, h₂) = malloc h₁ in
    let (ret, h₃) = malloc h₂ in
    let (node, h₄) = malloc h₃ in (cfunction node internal params ret, h₄)

unfoldable pub count_cells : Cells → ℕ
count_cells no_cells = 0
count_cells (more_cells c cs) = suc (count_cells cs)

unfoldable pub snoc : Cells → Cell → Cells
snoc no_cells v = more_cells v no_cells
snoc (more_cells c cs) v = more_cells c (snoc cs v)

-- `malloc` where there is no block yet, and `realloc`, which moves it
unfoldable pub reallocate : Option ℕ → Heap → Option (ℕ × Heap)
reallocate data_block = free_pointer data_block >=> (λ h. some (malloc h))

-- What a step makes, and the heap that it leaves, handed on to the next step.
abbrev pub hand_on {ℓ} :
    {A : Type ℓ} → Option (A × Heap) → (A → Heap → Option (Cell × Heap)) → Option (Cell × Heap)
hand_on none k = none
hand_on (some (a, h)) k = k a h

-- `array_append`, on an array
unfoldable pub array_append : Cell → Cell → Heap → Option (Cell × Heap)
array_append (growing node internal data_block size items) value h =
    if leb size (count_cells items)
    then hand_on (reallocate data_block h)
        (λ d h'. some (growing node internal (some d) (grow size) (snoc items value), h'))
    else some (growing node internal data_block size (snoc items value), h)
array_append _ value h = none

-- How the program makes a value: by value_new_*, and an array by appending its items in turn.
unfoldable mutual
  pub new_value : Value → Heap → Option (Cell × Heap)
  new_value void h = some (value_new_simple h)
  new_value (float32 f) h = some (value_new_simple h)
  new_value (int32 i) h = some (value_new_simple h)
  new_value (boolean b) h = some (value_new_simple h)
  new_value (string s) h = some (value_new_string h)
  new_value (array vs) h = let (a, h') = value_new_array h in append_values vs a h'
  new_value (function p n) h = some (value_new_cfunction h)

  pub append_values : Items → Cell → Heap → Option (Cell × Heap)
  append_values nil a h = some (a, h)
  append_values (cons v vs) a h =
      hand_on (new_value v h) λ c h₁. hand_on (array_append a c h₁) (append_values vs)
