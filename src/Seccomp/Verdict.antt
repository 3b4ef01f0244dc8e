-- ===== src/Seccomp/Verdict.antt =====
-- seccomp.c: which system calls the filter program lets through.
use cagekeeper.Prelude.{
  ℕ, zero, suc, ◌+◌, ◌≡◌, refl, Bool, true, false, inl, inr, List, [], ◌∷◌, ◌==◌, if◌then◌else◌,
  Bool-cases,
}
use cagekeeper.Seccomp.{
  SockFilter, load, jump_eq, ret, Numbers, seccomp_ret_kill, seccomp_ret_errno, seccomp_ret_allow,
  allow_each, allowed, seccomp_filter,
}

unfoldable pub skip : ℕ → List SockFilter → List SockFilter
skip zero p = p
skip (suc n) [] = []
skip (suc n) (i ∷ p) = skip n p

unfoldable pub member : ℕ → List ℕ → Bool
member a [] = false
member a (n ∷ ns) = if a == n then true else member a ns

-- `run` is the kernel's machine on a program, the accumulator and the words of `struct seccomp_data`
-- by their offset; what is documented of the three instructions that the program has.
pub record IsMachine (run : List SockFilter → ℕ → (ℕ → ℕ) → ℕ) : Type 0 where
  pub loads :
      (k a : ℕ) (p : List SockFilter) (data_word : ℕ → ℕ)
      → run (load k ∷ p) a data_word ≡ run p (data_word k) data_word
  pub jumps :
      (k jt jf a : ℕ) (p : List SockFilter) (data_word : ℕ → ℕ)
      → run (jump_eq k jt jf ∷ p) a data_word ≡ run (skip (if a == k then jt else jf) p) a data_word
  pub returns :
      (k a : ℕ) (p : List SockFilter) (data_word : ℕ → ℕ) → run (ret k ∷ p) a data_word ≡ k

-- What the filter should answer for a system call and an architecture.
unfoldable pub verdict : Numbers → ℕ → ℕ → ℕ
verdict n nr arch =
    if arch == n.audit_arch_i386
    then (if member nr (allowed n) then seccomp_ret_allow else seccomp_ret_errno + 1)
    else seccomp_ret_kill

module _ (run : List SockFilter → ℕ → (ℕ → ℕ) → ℕ) (machine : IsMachine run) where
  allow_each-member :
      (nrs : List ℕ) (rest : List SockFilter) (a k : ℕ) (w : ℕ → ℕ)
      → ((b : ℕ) → run rest b w ≡ k)
      → run (allow_each nrs rest) a w ≡ (if member (w 0) nrs then seccomp_ret_allow else k)
  unfolding allow_each member skip
  allow_each-member [] rest a k w h = h a
  allow_each-member (nr ∷ nrs) rest a k w h = elim (Bool-cases (w 0 == nr)) [
    | inl e ↦ rw (machine.loads, machine.jumps, e, machine.returns) refl
    | inr e ↦ rw (machine.loads, machine.jumps, e) (allow_each-member nrs rest (w 0) k w h)
  ]

  -- On a machine that does what is documented of its instructions, the filter answers by the number
  -- and the architecture alone: another architecture than i386 is killed, a system call of the list
  -- is allowed, and every other one fails with EPERM.
  pub seccomp_filter-verdict :
      (n : Numbers) (w : ℕ → ℕ) → run (seccomp_filter n) 0 w ≡ verdict n (w 0) (w 4)
  unfolding seccomp_filter verdict skip
  seccomp_filter-verdict n w = elim (Bool-cases (w 4 == n.audit_arch_i386)) [
    | inl e ↦
        rw (machine.loads, machine.jumps, e)
          (allow_each-member (allowed n) (ret (seccomp_ret_errno + 1) ∷ []) (w 4)
            (seccomp_ret_errno + 1) w (λ b. machine.returns (seccomp_ret_errno + 1) b [] w))
    | inr e ↦ rw (machine.loads, machine.jumps, e, machine.returns) refl
  ]
