-- ===== src/Dict/Update.antt =====
-- `dict_put`, `dict_del` and `dict_clone` as operations on a map.
use cagekeeper.Prelude.{
  ℕ, ◌+◌, ◌<◌, ◌≡◌, refl, sym, ap, ◌∙◌, true, Bool-cases, inl, inr, none, some, List, [], ◌∷◌,
  length, get_or, arith, ◌==◌, ==_iff, if◌then◌else◌,
}
use cagekeeper.Dict.Chain.{
  weight, weight-one, find, find_last, hit, count, count_congr, count-eq-zero,
}
use cagekeeper.Dict.Defs.{
  HashType, IsLawful, Entry, Dict, hashsize, home, push, dict_init, dict_expand, dict_put,
}
use cagekeeper.Dict.Expand.{
  length-push, weight-push, get_or-push, Grown, dict_expand-Grown, dict_expand-view,
  flatten-replicate, get_or-replicate,
}
use cagekeeper.Dict.Placed.{
  IsValid, IsUnique, chain_of, value_of, view, flatten-chain_of, set-IsPlaced,
}
use mathlib.Core.List.{flatten}
use mathlib.Core.Option.{or_else}

nil_of_length {ℓ} : {A : Type ℓ} (xs : List A) → length xs ≡ 0 → xs ≡ []
nil_of_length [] h = refl
nil_of_length (x ∷ xs) h = absurd (omega arith)

module _ {ℓ} {K : Type ℓ} (t : HashType K) (lawful : IsLawful t) where
  -- A new key is compared by the key that it was copied from.
  pub equals-dup_left : (k q : K) → t.equals (t.dup k) q ≡ t.equals k q
  equals-dup_left k q = ground (
    arith,
    lawful.equals-dup k,
    lawful.symm (t.dup k) k,
    lawful.trans (t.dup k) k q,
    lawful.trans k (t.dup k) q,
  )

  hash-dup : (k : K) → t.hash (t.dup k) ≡ t.hash k
  hash-dup k = lawful.hash-equals (t.dup k) k (lawful.equals-dup k)

module _ {ℓ} {K V : Type ℓ} (t : HashType K) (lawful : IsLawful t) where
  -- the entry that `dict_put` makes
  abbrev fresh : K → V → Entry K V
  fresh key value = record { key = t.dup key; hash = t.hash key; value = value }

  abbrev put_in : Dict K V → K → V → Dict K V
  put_in h key value = record {
    slots = push (home t key (hashsize h)) (fresh key value) h.slots;
    num = h.num + 1;
  }

  -- What `dict_put` does to a table.
  pub record Put (h h' : Dict K V) (key : K) (value : V) : Type (ℓ ⊔ 1) where
    pub valid : IsValid t h'
    pub num : h'.num ≡ h.num + 1
    pub adds :
        (w : Entry K V → ℕ)
        → weight w (flatten h'.slots) ≡ w (fresh key value) + weight w (flatten h.slots)
    pub reads : (q : K) → view t h' q ≡ (if t.equals key q then some value else view t h q)
    pub lasts :
        (q : K)
        → value_of (find_last t q (chain_of t h' q))
          ≡ or_else
              (value_of (find_last t q (chain_of t h q)))
              (if t.equals key q then some value else none)

  put_in-Put :
      (h : Dict K V) (key : K) (value : V)
      → IsValid t h
      → 0 < hashsize h
      → Put h (put_in h key value) key value
  unfolding view
  put_in-Put h key value v pos =
      let i = home t key (hashsize h) in
      let e = fresh key value in
      let i_lt : i < length h.slots = omega arith in
      let adds = λ (w : Entry K V → ℕ). weight-push w i e h.slots i_lt in
      record {
        valid = record {
          counted = omega (
            arith,
            v.counted,
            adds (λ _. 1),
            weight-one (flatten h.slots),
            weight-one (flatten (push i e h.slots)),
          );
          placed =
              unfold push in
              set-IsPlaced t lawful h.slots i (e ∷ get_or h.slots i []) i_lt v.placed
                ((sym (hash-dup t lawful key), refl), v.placed i);
        };
        num = refl;
        adds = adds;
        reads = λ q.
            rw (length-push i e h.slots, get_or-push i (home t q (hashsize h)) e h.slots i_lt)
              (unfold find in
                ground (arith, equals-dup_left t lawful key q, lawful.hash-equals key q));
        lasts = λ q.
            rw (length-push i e h.slots, get_or-push i (home t q (hashsize h)) e h.slots i_lt)
              (unfold find_last or_else in
                ground (arith, equals-dup_left t lawful key q, lawful.hash-equals key q));
      }

  pub dict_init-IsValid : (size : ℕ) → IsValid t (dict_init {K = K} {V = V} size)
  unfolding dict_init
  dict_init-IsValid size = record {
    counted = sym (ap length (flatten-replicate {K = K} {V = V} size));
    placed = λ i. rw (get_or-replicate size i) tt;
  }

  -- The first entry of a table that was made with no slots goes into the one slot it then gets.
  dict_expand_empty :
      (h : Dict K V)
      → IsValid t h
      → (hashsize h == 0) ≡ true
      → Grown t h (dict_expand h 1) 1
        × ((q : K) → view t (dict_expand h 1) q ≡ view t h q)
        × ((q : K)
            → value_of (find_last t q (chain_of t (dict_expand h 1) q))
              ≡ value_of (find_last t q (chain_of t h q)))
  dict_expand_empty h v z =
      let none_there : h.slots ≡ [] = nil_of_length h.slots ((==_iff _ 0).0 z) in
      let once : IsUnique t h = λ q. rw none_there (unfold count weight flatten in omega arith) in
      let g = dict_expand-Grown t lawful h 1 v (omega arith) in
      let gone : (q : K) → count t q (flatten h.slots) ≡ 0 =
        λ q. rw none_there (unfold count weight flatten in refl) in
      let no_last =
        λ (h' : Dict K V) (v' : IsValid t h') (q : K) (z : count t q (flatten h'.slots) ≡ 0).
          (count-eq-zero t q (chain_of t h' q)
            (sym (flatten-chain_of t lawful h' v'.placed q).1 ∙ z)).1 in
      (
        g,
        dict_expand-view t lawful h 1 v once (omega arith),
        λ q. ap value_of (
            no_last (dict_expand h 1) g.valid q (unfold count in sym (g.same (hit t q)) ∙ gone q)
            ∙ sym (no_last h v q (gone q))),
      )

  -- `dict_put` keeps a table valid and counts and adds one entry. The new value is found under
  -- every key that is equal to the given one, also where the table held such a key before, and
  -- nothing else changes.
  pub dict_put-Put :
      (h : Dict K V) (key : K) (value : V) → IsValid t h → Put h (dict_put t h key value) key value
  unfolding dict_put
  dict_put-Put h key value v = elim (Bool-cases (hashsize h == 0)) [
    | inr n ↦ rw n (put_in-Put h key value v (ground arith))
    | inl z ↦
        let (g, keep, last) = dict_expand_empty h v z in
        let p = put_in-Put (dict_expand h 1) key value g.valid (rw g.size (omega arith)) in
        rw z (record {
          valid = p.valid;
          num = p.num ∙ (unfold dict_expand in refl);
          adds = λ w. p.adds w ∙ ap (λ n. w (fresh key value) + n) (sym (g.same w));
          reads = λ q. p.reads q ∙ rw (keep q);
          lasts = λ q.
              p.lasts q
              ∙ ap (λ o. or_else o (if t.equals key q then some value else none)) (last q);
        })
  ]

  -- A key that the table does not hold yet keeps the keys unique.
  pub dict_put-IsUnique :
      (h : Dict K V) (key : K) (value : V)
      → IsValid t h
      → IsUnique t h
      → count t key (flatten h.slots) ≡ 0
      → IsUnique t (dict_put t h key value)
  unfolding count
  dict_put-IsUnique h key value v once absent q =
      let p = dict_put-Put h key value v in
      ground (
        arith,
        p.adds (hit t q),
        once q,
        absent,
        count_congr t lawful key q (flatten h.slots),
        equals-dup_left t lawful key q,
      )
