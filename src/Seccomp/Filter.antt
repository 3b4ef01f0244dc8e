-- ===== src/Seccomp/Filter.antt =====
-- seccomp.c, lines 258 to 282: the filter program. The numbers that the kernel's headers give to
-- system calls and to the architecture are parameters.
use cagekeeper.Prelude.{ℕ, ◌+◌, List, [], ◌∷◌}

-- `struct sock_filter`, by its three codes: BPF_LD+BPF_W+BPF_ABS, BPF_JMP+BPF_JEQ+BPF_K and
-- BPF_RET+BPF_K
pub data SockFilter : Type 0 where
  load : ℕ → SockFilter
  jump_eq : ℕ → ℕ → ℕ → SockFilter
  ret : ℕ → SockFilter

-- What <asm/unistd_32.h> and <linux/audit.h> define.
pub record Numbers : Type 0 where
  pub audit_arch_i386 : ℕ
  pub nr_gettimeofday : ℕ
  pub nr_time : ℕ
  pub nr_read : ℕ
  pub nr_readv : ℕ
  pub nr_write : ℕ
  pub nr_writev : ℕ
  pub nr_brk : ℕ
  pub nr_mmap2 : ℕ
  pub nr_munmap : ℕ
  pub nr_futex : ℕ
  pub nr_sigprocmask : ℕ
  pub nr_exit : ℕ

abbrev pub seccomp_ret_kill : ℕ
seccomp_ret_kill = 0

abbrev pub seccomp_ret_errno : ℕ
seccomp_ret_errno = 327680

abbrev pub seccomp_ret_allow : ℕ
seccomp_ret_allow = 2147418112

-- `ALLOW_ANYARGS`
abbrev pub allow_anyargs : ℕ → List SockFilter → List SockFilter
allow_anyargs syscall_nr rest = load 0 ∷ jump_eq syscall_nr 0 1 ∷ ret seccomp_ret_allow ∷ rest

unfoldable pub allow_each : List ℕ → List SockFilter → List SockFilter
allow_each [] rest = rest
allow_each (nr ∷ nrs) rest = allow_anyargs nr (allow_each nrs rest)

-- the system calls of the list, in its order
unfoldable pub allowed : Numbers → List ℕ
allowed n =
    n.nr_gettimeofday ∷ n.nr_time ∷ n.nr_read ∷ n.nr_readv ∷ n.nr_write ∷ n.nr_writev ∷ n.nr_brk
    ∷ n.nr_mmap2 ∷ n.nr_munmap ∷ n.nr_futex ∷ n.nr_sigprocmask ∷ n.nr_exit ∷ []

-- `SECCOMP_RET_ERRNO | 1` stands behind the list.
unfoldable pub seccomp_filter : Numbers → List SockFilter
unfolding allow_each allowed
seccomp_filter n =
    load 4
    ∷ jump_eq n.audit_arch_i386 1 0
    ∷ ret seccomp_ret_kill
    ∷ allow_each (allowed n) (ret (seccomp_ret_errno + 1) ∷ [])
