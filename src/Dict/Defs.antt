-- ===== src/Dict/Defs.antt =====
-- The operations of dict.c. The fields `slots` and `hashsize` are one list, whose length is
-- `hashsize`; a chain is the list of its entries; `key_type` is the parameter `t`.
use cagekeeper.Prelude.{
  ℕ, zero, suc, ◌+◌, ◌-◌, ◌*◌, ◌%◌, Bool, true, false, ◌&&◌, Option, none, some, List, [], ◌∷◌,
  ◌++◌, ltb, leb, ◌==◌, if◌then◌else◌, length, get_or, set, replicate, ◌≡◌,
}

-- `hashtype_t`; `free` releases memory and is left out. `hash` is an `unsigned int`.
pub record HashType {ℓ} (K : Type ℓ) : Type ℓ where
  pub equals : K → K → Bool
  pub hash : K → ℕ
  pub dup : K → K

-- What a table needs of its key type.
pub record IsLawful {ℓ} {K : Type ℓ} (t : HashType K) : Type ℓ where
  pub refl_lem : (a : K) → t.equals a a ≡ true
  pub symm : (a b : K) → t.equals a b ≡ t.equals b a
  pub trans : (a b c : K) → t.equals a b ≡ true → t.equals b c ≡ true → t.equals a c ≡ true
  pub hash-equals : (a b : K) → t.equals a b ≡ true → t.hash a ≡ t.hash b
  pub equals-dup : (a : K) → t.equals (t.dup a) a ≡ true

-- `dictentry_t`
pub record Entry {ℓ} (K V : Type ℓ) : Type ℓ where
  pub key : K
  pub hash : ℕ
  pub value : V

-- `dict_t`
pub record Dict {ℓ} (K V : Type ℓ) : Type ℓ where
  pub slots : List (List (Entry K V))
  pub num : ℕ

-- `while(num*3 >= newsize*2) newsize = newsize<15 ? 15 : (newsize+1)*2-1`, with fuel
unfoldable pub new_size : ℕ → ℕ → ℕ → ℕ
new_size zero num newsize = newsize
new_size (suc fuel) num newsize =
    let next = new_size fuel num (if ltb newsize 15 then 15 else (newsize + 1) * 2 - 1) in
    if leb (newsize * 2) (num * 3) then next else newsize

module _ {ℓ} {K V : Type ℓ} where
  abbrev pub hashsize : Dict K V → ℕ
  hashsize h = length h.slots

  -- `dict_init2`, and `dict_init`, which fixes the key type
  unfoldable pub dict_init : ℕ → Dict K V
  dict_init size = record { slots = replicate size []; num = 0 }

  -- `INITIAL_SIZE` is 1
  unfoldable pub dict_new : Dict K V
  unfolding dict_init
  dict_new = dict_init 1

  -- `e->next = slots[i]; slots[i] = e`
  unfoldable pub push : ℕ → Entry K V → List (List (Entry K V)) → List (List (Entry K V))
  push i e slots = set slots i (e ∷ get_or slots i [])

  -- the inner loop of `dict_expand`: one chain is moved entry by entry
  unfoldable pub move_chain :
      ℕ → List (Entry K V) → List (List (Entry K V)) → List (List (Entry K V))
  move_chain newlen [] newslots = newslots
  move_chain newlen (e ∷ c) newslots = move_chain newlen c (push (e.hash % newlen) e newslots)

  -- the outer loop, over the slots
  unfoldable pub move_all :
      ℕ → List (List (Entry K V)) → List (List (Entry K V)) → List (List (Entry K V))
  move_all newlen [] newslots = newslots
  move_all newlen (c ∷ cs) newslots = move_all newlen cs (move_chain newlen c newslots)

  unfoldable pub dict_expand : Dict K V → ℕ → Dict K V
  dict_expand h newlen = record h { slots = move_all newlen h.slots (replicate newlen []) }

  unfoldable pub dict_count : Dict K V → ℕ
  dict_count h = h.num

  -- The first entry of a chain that passes a test, and the chain without it.
  unfoldable pub take_entry :
      (Entry K V → Bool) → List (Entry K V) → Option (Entry K V × List (Entry K V))
  take_entry test [] = none
  take_entry test (e ∷ c) = elim (test e) [
    | true ↦ some (e, c)
    | false ↦ elim (take_entry test c) [ none ↦ none | some (x, r) ↦ some (x, e ∷ r) ]
  ]

  -- `dict_foreach_keyvalue`: the pairs that the callback gets, in this order
  unfoldable pub pairs : List (Entry K V) → List (K × V)
  pairs [] = []
  pairs (e ∷ c) = (e.key, e.value) ∷ pairs c

-- the slot of a key among `n`
abbrev pub home {ℓ} : {K : Type ℓ} → HashType K → K → ℕ → ℕ
home t key n = t.hash key % n

module _ {ℓ} {K V : Type ℓ} (t : HashType K) where
  abbrev pub is_key : K → Entry K V → Bool
  is_key key e = t.equals e.key key

  unfoldable pub dict_put : Dict K V → K → V → Dict K V
  dict_put h key value =
      let h' = if hashsize h == 0 then dict_expand h 1 else h in
      let e : Entry K V = record { key = t.dup key; hash = t.hash key; value = value } in
      record { slots = push (home t key (hashsize h')) e h'.slots; num = h'.num + 1 }

  -- the last loop of `dict_do_lookup`: an entry found behind the first one moves to the front
  unfoldable pub search_rest :
      Dict K V → K → Entry K V → List (Entry K V) → Option (Entry K V) × Dict K V
  search_rest h key first rest = elim (take_entry (is_key key) rest) [
    | none ↦ (none, h)
    | some (e, r) ↦
        (some e, record h { slots = set h.slots (home t key (hashsize h)) (e ∷ first ∷ r) })
  ]

  -- the check of the first entry after the table has grown, and the loop
  unfoldable pub search_slot : Dict K V → K → List (Entry K V) → Option (Entry K V) × Dict K V
  search_slot h key [] = (none, h)
  search_slot h key (e ∷ c) = if t.equals e.key key then (some e, h) else search_rest h key e c

  -- The table grows if a second entry has to be looked at while it is two thirds full.
  unfoldable pub search_chain : Dict K V → K → List (Entry K V) → Option (Entry K V) × Dict K V
  search_chain h key [] = (none, h)
  search_chain h key (e ∷ []) = if t.equals e.key key then (some e, h) else (none, h)
  search_chain h key (e ∷ e' ∷ c) =
      let h' = dict_expand h (new_size (suc (h.num * 2)) h.num (hashsize h)) in
      if t.equals e.key key
      then (some e, h)
      else if leb (hashsize h * 2) (h.num * 3)
      then search_slot h' key (get_or h'.slots (home t key (hashsize h')) [])
      else search_rest h key e (e' ∷ c)

  unfoldable pub dict_do_lookup : Dict K V → K → Option (Entry K V) × Dict K V
  dict_do_lookup h key =
      if h.num == 0
      then (none, h)
      else search_chain h key (get_or h.slots (home t key (hashsize h)) [])

  -- `null` is the null pointer of the values
  unfoldable pub dict_lookup : V → Dict K V → K → V × Dict K V
  dict_lookup null h key =
      let (e, h') = dict_do_lookup h key in (elim e [ none ↦ null | some x ↦ x.value ], h')

  unfoldable pub dict_contains : Dict K V → K → Bool × Dict K V
  dict_contains h key =
      let (e, h') = dict_do_lookup h key in (elim e [ none ↦ false | some x ↦ true ], h')

  -- the loop that `dict_del` and `dict_del2` share but for its test
  unfoldable pub del_entry : (Entry K V → Bool) → Dict K V → K → Bool × Dict K V
  del_entry test h key =
      if h.num == 0
      then (false, h)
      else elim (take_entry test (get_or h.slots (home t key (hashsize h)) [])) [
        | none ↦ (false, h)
        | some (e, c) ↦
            (true, record { slots = set h.slots (home t key (hashsize h)) c; num = h.num - 1 })
      ]

  unfoldable pub dict_del : Dict K V → K → Bool × Dict K V
  unfolding del_entry
  dict_del h key = del_entry (is_key key) h key

  -- `same` compares the data pointers
  unfoldable pub dict_del2 : (V → V → Bool) → Dict K V → K → V → Bool × Dict K V
  unfolding del_entry
  dict_del2 same h key value = del_entry (λ e. is_key key e && same e.value value) h key

  unfoldable pub dict_get_slot : Dict K V → K → List (Entry K V)
  dict_get_slot h key = if h.num == 0 then [] else get_or h.slots (home t key (hashsize h)) []

  -- The copy of one chain: each copied entry goes to the front, under a duplicate of its key.
  unfoldable pub clone_chain : List (Entry K V) → List (Entry K V) → List (Entry K V)
  clone_chain [] copy = copy
  clone_chain (e ∷ c) copy = clone_chain c (record e { key = t.dup e.key } ∷ copy)

  unfoldable pub clone_all : List (List (Entry K V)) → List (List (Entry K V))
  clone_all [] = []
  clone_all (c ∷ cs) = clone_chain c [] ∷ clone_all cs

  unfoldable pub dict_clone : Dict K V → Dict K V
  dict_clone h = record h { slots = clone_all h.slots }

-- the two loops of `dict_foreach_keyvalue`
unfoldable pub all_pairs {ℓ} : {K V : Type ℓ} → List (List (Entry K V)) → List (K × V)
all_pairs [] = []
all_pairs (c ∷ cs) = pairs c ++ all_pairs cs

unfoldable pub dict_foreach_keyvalue {ℓ} : {K V : Type ℓ} → Dict K V → List (K × V)
unfolding all_pairs
dict_foreach_keyvalue h = all_pairs h.slots
