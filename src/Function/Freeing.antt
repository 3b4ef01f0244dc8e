-- ===== src/Function/Freeing.antt =====
-- The blocks that a value owns, and that value_destroy frees these and no others.
use cagekeeper.Prelude.{
  ℕ, ◌+◌, ◌<◌, ◌≡◌, refl, ap, ◌∙◌, Option, none, some, List, [], ◌∷◌, ◌++◌, ◌==◌, ==_iff,
  if◌then◌else◌, Bool-cases, inl, inr, arith,
}
use cagekeeper.Function.Memory.{
  Heap, kept_block, remove, with_live, malloc, free, and_then, ◌>=>◌, Cell, Cells, simple, text,
  growing, cfunction, proxy_function, no_cells, more_cells, free_pointer, value_destroy,
  destroy_items, snoc, reallocate,
}

abbrev pub one_if : ℕ → ℕ → ℕ
one_if a b = if a == b then 1 else 0

-- How often an address is in a list.
unfoldable pub count : ℕ → List ℕ → ℕ
count a [] = 0
count a (b ∷ l) = one_if a b + count a l

pub count-append : (a : ℕ) (l l' : List ℕ) → count a (l ++ l') ≡ count a l + count a l'
unfolding count
count-append a [] l' = omega arith
count-append a (b ∷ l) l' = omega (arith, count-append a l l')

abbrev pub pointer_blocks : Option ℕ → List ℕ
pointer_blocks none = []
pointer_blocks (some a) = a ∷ []

-- The blocks that a value owns.
unfoldable mutual
  pub blocks : Cell → List ℕ
  blocks (simple node) = node ∷ []
  blocks (text node str) = str ∷ node ∷ []
  blocks (growing node internal data_block size items) =
      blocks_of items ++ (pointer_blocks data_block ++ internal ∷ node ∷ [])
  blocks (cfunction node internal params ret) = params ∷ ret ∷ internal ∷ node ∷ []
  blocks (proxy_function node internal name) = name ∷ internal ∷ node ∷ []

  pub blocks_of : Cells → List ℕ
  blocks_of no_cells = []
  blocks_of (more_cells c cs) = blocks c ++ blocks_of cs

-- A heap in which these blocks are allocated, and `rest` of every address besides.
abbrev pub Holds : List ℕ → (ℕ → ℕ) → Heap → Type 0
Holds bs rest h = (a : ℕ) → count a h.live ≡ count a bs + rest a

-- Wherever these blocks are allocated, `f` frees them and no other.
abbrev pub Frees : List ℕ → (Heap → Option Heap) → Type 0
Frees bs f =
    (h : Heap) (rest : ℕ → ℕ) → Holds bs rest h → (h' : Heap) × (f h ≡ some h') × Holds [] rest h'

remove-count :
    (a : ℕ) (l : List ℕ)
    → 0 < count a l
    → (l' : List ℕ) × (remove a l ≡ some l') × ((b : ℕ) → count b l ≡ one_if b a + count b l')
unfolding remove count
remove-count a [] lt = absurd (omega arith)
remove-count a (c ∷ l) lt = elim (Bool-cases (a == c)) [
  | inl e ↦ (
    l,
    ap (λ t. if t then some l else kept_block c (remove a l)) e,
    λ b. rw ((==_iff a c).0 e) refl,
  )
  | inr e ↦
      let (l', found, counts) = remove-count a l (omega (arith, rw e at lt)) in
      (
        c ∷ l',
        ap (λ t. if t then some l else kept_block c (remove a l)) e ∙ ap (kept_block c) found,
        λ b. omega (arith, counts b),
      )
]

free-Frees : (a : ℕ) → Frees (a ∷ []) (free a)
unfolding free count
free-Frees a h rest holds =
    let there : 0 < count a h.live = ground (arith, holds a) in
    let (l', found, counts) = remove-count a h.live there in
    (record h { live = l' }, ap (with_live h) found, λ b. omega (arith, counts b, holds b))

none-Frees : Frees [] some
none-Frees h rest holds = (h, refl, holds)

then-Frees :
    (bs bs' : List ℕ) (f g : Heap → Option Heap)
    → Frees bs f
    → Frees bs' g
    → Frees (bs ++ bs') (f >=> g)
unfolding count
then-Frees bs bs' f g k k' h rest holds =
    let (h₁, e, holds₁) =
      k h (λ a. count a bs' + rest a) (λ a. omega (arith, holds a, count-append a bs bs')) in
    let (h₂, e', holds₂) = k' h₁ rest (λ a. omega (arith, holds₁ a)) in
    (h₂, ap (λ o. and_then o g) e ∙ e', holds₂)

free_pointer-Frees : (o : Option ℕ) → Frees (pointer_blocks o) (free_pointer o)
unfolding free_pointer
free_pointer-Frees none = none-Frees
free_pointer-Frees (some a) = free-Frees a

mutual
  unfolding blocks value_destroy

  pub value_destroy-Frees : (c : Cell) → Frees (blocks c) (value_destroy c)
  value_destroy-Frees (simple node) = free-Frees node
  value_destroy-Frees (text node str) =
      then-Frees (str ∷ []) (node ∷ []) _ _ (free-Frees str) (free-Frees node)
  value_destroy-Frees (growing node internal data_block size items) =
      then-Frees _ _ _ _ (destroy_items-Frees items) (
        then-Frees _ _ _ _ (free_pointer-Frees data_block)
          (then-Frees (internal ∷ []) (node ∷ []) _ _ (free-Frees internal) (free-Frees node)))
  value_destroy-Frees (cfunction node internal params ret) =
      then-Frees (params ∷ []) _ _ _ (free-Frees params) (
        then-Frees (ret ∷ []) _ _ _ (free-Frees ret)
          (then-Frees (internal ∷ []) (node ∷ []) _ _ (free-Frees internal) (free-Frees node)))
  value_destroy-Frees (proxy_function node internal name) =
      then-Frees (name ∷ []) _ _ _ (free-Frees name)
        (then-Frees (internal ∷ []) (node ∷ []) _ _ (free-Frees internal) (free-Frees node))

  destroy_items-Frees : (cs : Cells) → Frees (blocks_of cs) (destroy_items cs)
  destroy_items-Frees no_cells = none-Frees
  destroy_items-Frees (more_cells c cs) =
      then-Frees _ _ _ _ (value_destroy-Frees c) (destroy_items-Frees cs)

pub count-snoc :
    (a : ℕ) (cs : Cells) (c : Cell)
    → count a (blocks_of (snoc cs c)) ≡ count a (blocks_of cs) + count a (blocks c)
unfolding snoc blocks count
count-snoc a no_cells c = omega (arith, count-append a (blocks c) [])
count-snoc a (more_cells d cs) c = omega (
  arith,
  count-append a (blocks d) (blocks_of (snoc cs c)),
  count-append a (blocks d) (blocks_of cs),
  count-snoc a cs c,
)

-- What is left besides an array is the same after its block has moved.
pub reallocate-Owns :
    (data_block : Option ℕ) (h : Heap) (rest : ℕ → ℕ)
    → Holds (pointer_blocks data_block) rest h
    → (d : ℕ) × (h' : Heap) × (reallocate data_block h ≡ some (d, h')) × Holds (d ∷ []) rest h'
unfolding reallocate malloc count
reallocate-Owns data_block h rest holds =
    let (h₁, e, holds₁) = free_pointer-Frees data_block h rest holds in
    (h₁.next, _, ap (λ o. and_then o (λ k. some (malloc k))) e, λ a. omega (arith, holds₁ a))
