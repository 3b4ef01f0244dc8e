-- ===== src/Dict/Delete.antt =====
-- `dict_del` as an operation on a map.
use cagekeeper.Prelude.{
  ℕ, ◌+◌, ◌-◌, ◌≤◌, ◌<◌, ◌≡◌, ◌↔◌, refl, sym, ap, ◌∙◌, Bool, true, false, Bool-cases, inl, inr,
  Option-cases, none, some, List, [], length, get_or, set, arith, ◌==◌, ==_iff, if◌then◌else◌,
  length-set,
}
use cagekeeper.Dict.Chain.{
  weight, weight-one, weight-flatten-set, get_or-set, find, hit, count, count_congr, count-eq-zero,
  count-le-length, take_entry-weight, take_entry-All, take_entry-find, take_entry-none,
}
use cagekeeper.Dict.Defs.{
  HashType, IsLawful, Entry, Dict, hashsize, home, is_key, take_entry, dict_del,
}
use cagekeeper.Dict.Placed.{
  IsAtHome, IsValid, IsUnique, chain_of, value_of, view, flatten-chain_of, set-IsPlaced,
  hashsize_pos,
}
use mathlib.Core.List.{flatten}

module _ {ℓ} {K V : Type ℓ} (t : HashType K) (lawful : IsLawful t) where
  -- What `dict_del` does, with its answer whether there was an entry.
  pub record Deleted (h : Dict K V) (key : K) (r : Bool × Dict K V) : Type (ℓ ⊔ 1) where
    pub valid : IsValid t r.1
    pub answer : (r.0 ≡ true) ↔ (0 < count t key (flatten h.slots))
    pub num : h.num ≡ r.1.num + (if r.0 then 1 else 0)
    pub unique : IsUnique t r.1
    pub reads : (q : K) → view t r.1 q ≡ (if t.equals key q then none else view t h q)

  view-none :
      (h : Dict K V) (q : K) → IsValid t h → count t q (flatten h.slots) ≡ 0 → view t h q ≡ none
  unfolding view
  view-none h q v z =
      ap value_of
        (count-eq-zero t q (chain_of t h q) (sym (flatten-chain_of t lawful h v.placed q).1 ∙ z)).0

  -- Nothing is there to delete.
  unchanged :
      (h : Dict K V) (key : K)
      → IsValid t h
      → IsUnique t h
      → count t key (flatten h.slots) ≡ 0
      → Deleted h key (false, h)
  unchanged h key v once z = record {
    valid = v;
    answer = (λ e. cc, λ p. absurd (omega arith));
    num = omega arith;
    unique = once;
    reads = λ q. elim (Bool-cases (t.equals key q)) [
      | inl y ↦ rw y (view-none h q v (sym (count_congr t lawful key q (flatten h.slots) y) ∙ z))
      | inr n ↦ rw n
    ];
  }

  module _ (h : Dict K V) (key : K) (e : Entry K V) (c : List (Entry K V)) (v : IsValid t h)
      (once : IsUnique t h) (pos : 0 < hashsize h)
      (taken : take_entry (is_key t key) (chain_of t h key) ≡ some (e, c)) where
    abbrev rest_of : Dict K V
    rest_of = record { slots = set h.slots (home t key (hashsize h)) c; num = h.num - 1 }

    at_home : home t key (hashsize h) < length h.slots
    at_home = omega arith

    -- The table loses the one entry.
    weight-rest_of :
        (w : Entry K V → ℕ) → weight w (flatten h.slots) ≡ w e + weight w (flatten rest_of.slots)
    weight-rest_of w = omega (
      arith,
      weight-flatten-set w h.slots (home t key (hashsize h)) c at_home,
      (take_entry-weight (is_key t key) w (chain_of t h key) c e taken).0,
    )

    rest_of-IsValid : IsValid t rest_of
    rest_of-IsValid = record {
      counted = omega (
        arith,
        v.counted,
        weight-rest_of (λ _. 1),
        weight-one (flatten h.slots),
        weight-one (flatten rest_of.slots),
      );
      placed =
          set-IsPlaced t lawful h.slots (home t key (hashsize h)) c at_home v.placed
            (take_entry-All (is_key t key) (IsAtHome t (hashsize h) (home t key (hashsize h)))
              (chain_of t h key) c e taken (v.placed (home t key (hashsize h)))).1;
    }

    -- In the chain the key is gone, and other keys stay.
    find-taken :
        (q : K)
        → home t key (hashsize h) ≡ home t q (hashsize h)
        → value_of (find t q c) ≡ (if t.equals key q then none else view t h q)
    unfolding view count
    find-taken q same =
        let chain : chain_of t h key ≡ chain_of t h q = ap (λ k. get_or h.slots k []) same in
        let one : count t q (chain_of t h key) ≤ 1 =
          rw chain (rw (flatten-chain_of t lawful h v.placed q).1 at (once q)) in
        let f : find t q (chain_of t h q) ≡ (if t.equals e.key q then some e else find t q c) =
          rw chain at (take_entry-find (is_key t key) t q (chain_of t h key) c e taken one) in
        ground (
          arith,
          f,
          one,
          (take_entry-weight (is_key t key) (hit t q) (chain_of t h key) c e taken).0,
          (take_entry-weight (is_key t key) (hit t q) (chain_of t h key) c e taken).1,
          lawful.trans e.key key q,
          lawful.trans key e.key q,
          lawful.symm e.key key,
          count-eq-zero t q c,
        )

    rest_of-reads : (q : K) → view t rest_of q ≡ (if t.equals key q then none else view t h q)
    rest_of-reads q =
        let i = home t key (hashsize h) in
        let s = get_or-set h.slots i (home t q (hashsize h)) c [] at_home in
        elim (Bool-cases (i == home t q (hashsize h))) [
          | inl y ↦
              let same = (==_iff i _).0 y in
              unfold view in rw (length-set h.slots i c, s.0 same) (find-taken q same)
          | inr n ↦
              unfold view in
              rw (length-set h.slots i c, s.1 (ground arith))
                (ground (arith, lawful.hash-equals key q))
        ]

    rest_of-Deleted : Deleted h key (true, rest_of)
    rest_of-Deleted = record {
      valid = rest_of-IsValid;
      answer = (
        λ _.
            unfold count in
            ground (
              arith,
              weight-rest_of (hit t key),
              (take_entry-weight (is_key t key) (λ _. 0) (chain_of t h key) c e taken).1,
            ),
        λ _. refl,
      );
      num = omega (arith, v.counted, weight-rest_of (λ _. 1), weight-one (flatten h.slots));
      unique = λ q. unfold count in omega (arith, once q, weight-rest_of (hit t q));
      reads = rest_of-reads;
    }

  -- In a valid table whose keys occur once `dict_del` answers whether there was an entry under the
  -- key, and takes away that one entry and nothing else.
  pub dict_del-Deleted :
      (h : Dict K V) (key : K) → IsValid t h → IsUnique t h → Deleted h key (dict_del t h key)
  unfolding dict_del
  dict_del-Deleted h key v once = elim (Bool-cases (h.num == 0)) [
    | inl z ↦ rw z (
        unchanged h key v once
          (omega (arith, v.counted, (==_iff h.num 0).0 z, count-le-length t key (flatten h.slots))))
    | inr n ↦ elim (Option-cases (take_entry (is_key t key) (chain_of t h key))) [
      | inl z ↦
          rw (n, z, dict_del)
            (unchanged h key v once (
              (flatten-chain_of t lawful h v.placed key).1
              ∙ (take_entry-none t key (chain_of t h key) z).1))
      | inr ((e, c), z) ↦
          rw (n, z, dict_del) (rest_of-Deleted h key e c v once (hashsize_pos t lawful h v n) z)
    ]
  ]
