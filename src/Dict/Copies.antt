-- ===== src/Dict/Copies.antt =====
-- `dict_clone`, and what growing does to a key that occurs more than once.
use cagekeeper.Prelude.{
  ℕ, zero, suc, ◌≤◌, ◌<◌, ◌≡◌, refl, sym, ap, ◌∙◌, none, some, List, [], ◌∷◌, length, get_or, arith,
}
use cagekeeper.Dict.Chain.{find, find_last, count, count-eq-zero, find_last-find}
use cagekeeper.Dict.Defs.{
  HashType, IsLawful, Entry, Dict, hashsize, home, dict_expand, dict_put, clone_chain, clone_all,
  dict_clone,
}
use cagekeeper.Dict.Expand.{dict_expand-Grown}
use cagekeeper.Dict.Placed.{IsValid, IsUnique, chain_of, value_of, view, flatten-chain_of}
use cagekeeper.Dict.Update.{equals-dup_left, dict_put-Put}
use mathlib.Core.List.{flatten}
use mathlib.Core.Option.{or_else}

module _ {ℓ} {K V : Type ℓ} (t : HashType K) (lawful : IsLawful t) where
  length-clone_all : (cs : List (List (Entry K V))) → length (clone_all t cs) ≡ length cs
  unfolding clone_all
  length-clone_all [] = refl
  length-clone_all (c ∷ cs) = omega (arith, length-clone_all cs)

  get_or-clone_all :
      (cs : List (List (Entry K V))) (i : ℕ)
      → get_or (clone_all t cs) i [] ≡ clone_chain t (get_or cs i []) []
  unfolding clone_all clone_chain
  get_or-clone_all [] i = refl
  get_or-clone_all (c ∷ cs) zero = refl
  get_or-clone_all (c ∷ cs) (suc i) = get_or-clone_all cs i

  -- A chain is copied back to front, so a key finds the last of its entries.
  find-clone_chain :
      (q : K) (c copy : List (Entry K V))
      → value_of (find t q (clone_chain t c copy))
        ≡ or_else (value_of (find_last t q c)) (value_of (find t q copy))
  unfolding clone_chain find find_last or_else
  find-clone_chain q [] copy = refl
  find-clone_chain q (e ∷ c) copy =
      find-clone_chain q c _ ∙ ground (arith, equals-dup_left t lawful e.key q)

  -- In a valid table whose keys occur once `dict_clone` gives the same map, in as many slots.
  pub dict_clone-view :
      (h : Dict K V)
      → IsValid t h
      → IsUnique t h
      → (hashsize (dict_clone t h) ≡ hashsize h)
        × ((q : K) → view t (dict_clone t h) q ≡ view t h q)
  unfolding dict_clone view
  dict_clone-view h v once = (
    length-clone_all h.slots,
    λ q.
        let one : count t q (chain_of t h q) ≤ 1 =
          rw (flatten-chain_of t lawful h v.placed q).1 at (once q) in
        rw (length-clone_all h.slots, get_or-clone_all h.slots (home t q (hashsize h)))
          (find-clone_chain q (chain_of t h q) []
            ∙ (unfold find or_else in rw (find_last-find t q (chain_of t h q) one) (ground arith))),
  )

  -- A key that is put twice into a valid table without it reads as its second value, and as its
  -- first once the table has grown.
  pub dict_expand_shadowed :
      (h : Dict K V) (key : K) (older newer : V) (n : ℕ)
      → IsValid t h
      → count t key (flatten h.slots) ≡ 0
      → 0 < n
      → let twice = dict_put t (dict_put t h key older) key newer in
        (view t twice key ≡ some newer) × (view t (dict_expand twice n) key ≡ some older)
  dict_expand_shadowed h key older newer n v absent pos =
      let p = dict_put-Put t lawful h key older v in
      let p' = dict_put-Put t lawful (dict_put t h key older) key newer p.valid in
      let g =
        dict_expand-Grown t lawful (dict_put t (dict_put t h key older) key newer) n p'.valid pos in
      let self = lawful.refl_lem key in
      let none_before : find_last t key (chain_of t h key) ≡ none =
        (count-eq-zero t key (chain_of t h key)
          (sym (flatten-chain_of t lawful h v.placed key).1 ∙ absent)).1 in
      (
        p'.reads key ∙ rw self,
        unfold view or_else in
            (ap value_of (g.turned key) ∙ p'.lasts key ∙ rw (p.lasts key, self, none_before)),
      )
