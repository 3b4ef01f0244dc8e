-- ===== src/Tests/Kernel.antt =====
-- seccomp.c and language_proxy.c at a concrete kernel and a concrete child process.
use cagekeeper.Prelude.{
  ℕ, zero, suc, ◌≡◌, refl, true, false, none, some, List, [], ◌∷◌, ◌==◌, if◌then◌else◌, ltb,
}
use cagekeeper.Proxy.Child.{Interpreter, Child, done, result}
use cagekeeper.Proxy.Confined.{
  Process, started, closed, ready, serving, kept_fds, Reach, here, then_one, closes, initializes,
  locks, child_loop-confined,
}
use cagekeeper.Proxy.Spawn.{Fds, close_all_fds}
use cagekeeper.Seccomp.{
  SockFilter, load, jump_eq, ret, Numbers, Rights, locked, prepare, enter, seccomp_filter,
  seccomp_lockdown,
}
use cagekeeper.Seccomp.Verdict.{skip, IsMachine, verdict, seccomp_filter-verdict}

-- The machine, with the number of instructions that a jump still passes over.
exec : ℕ → List SockFilter → ℕ → (ℕ → ℕ) → ℕ
exec n [] a w = 0
exec zero (load k ∷ p) a w = exec zero p (w k) w
exec zero (jump_eq k jt jf ∷ p) a w = exec (if a == k then jt else jf) p a w
exec zero (ret k ∷ p) a w = k
exec (suc n) (i ∷ p) a w = exec n p a w

exec-skip :
    (n : ℕ) (p : List SockFilter) (a : ℕ) (w : ℕ → ℕ) → exec n p a w ≡ exec zero (skip n p) a w
unfolding exec skip
exec-skip zero p a w = refl
exec-skip (suc n) [] a w = refl
exec-skip (suc n) (i ∷ p) a w = exec-skip n p a w

exec-IsMachine : IsMachine (exec 0)
unfolding exec
exec-IsMachine = record {
  loads = λ k a p w. refl;
  jumps = λ k jt jf a p w. exec-skip (if a == k then jt else jf) p a w;
  returns = λ k a p w. refl;
}

abbrev i386 : Numbers
i386 = record {
  audit_arch_i386 = 1073741827;
  nr_gettimeofday = 78;
  nr_time = 13;
  nr_read = 3;
  nr_readv = 145;
  nr_write = 4;
  nr_writev = 146;
  nr_brk = 45;
  nr_mmap2 = 192;
  nr_munmap = 91;
  nr_futex = 240;
  nr_sigprocmask = 126;
  nr_exit = 1;
}

-- fork(2) on i386
abbrev fork_call : ℕ → ℕ
fork_call zero = 2
fork_call (suc k) = 1073741827

seccomp_filter-verdict_example :
    exec 0 (seccomp_filter i386) 0 fork_call ≡ verdict i386 (fork_call 0) (fork_call 4)
seccomp_filter-verdict_example = seccomp_filter-verdict (exec 0) exec-IsMachine i386 fork_call

abbrev all_open : Fds
all_open x = ltb x 12

abbrev idle : Interpreter ℕ
idle = record {
  define_constant = λ s name v. done (result tt) s;
  define_function = λ s name n. done (result tt) s;
  compile_script = λ s script. done (result true) s;
  is_function = λ s name. done (result true) s;
  call_function = λ s name args. done (result none) s;
}

abbrev forked_child : Process ℕ
forked_child = record {
  handle = record { child_pid = 0; fd_r = 5; fd_w = 8; fds = all_open };
  rights = record {
    malloc_check_off = false;
    handlers = [];
    data_limit = none;
    no_new_privs = false;
    filter = none;
  };
  phase = started;
}

abbrev alone : Process ℕ
alone = record forked_child {
  handle = record forked_child.handle {
    fds = close_all_fds 10 (kept_fds forked_child.handle) forked_child.handle.fds;
  };
  phase = closed;
}

abbrev initialized : Process ℕ
initialized = record alone { phase = ready }

abbrev confined_rights : Rights
confined_rights = record (prepare true initialized.rights) {
  no_new_privs = true;
  filter = some (seccomp_filter i386);
}

abbrev fresh : Child ℕ
fresh = record { received = []; written = []; guest = 0 }

abbrev serving_child : Process ℕ
serving_child = record initialized { rights = confined_rights; phase = serving fresh }

lockdown_granted : seccomp_lockdown i386 true true true initialized.rights ≡ locked confined_rights
unfolding seccomp_lockdown enter
lockdown_granted = refl

serving_child-Reach : Reach idle i386 10 forked_child serving_child
serving_child-Reach =
    then_one (then_one (then_one here (closes refl refl)) (initializes refl refl))
      (locks true true true confined_rights fresh refl lockdown_granted refl)

child_loop-confined_example :
    (program : List SockFilter) × (serving_child.rights.filter ≡ some program)
    × (serving_child.rights.no_new_privs ≡ true)
    × ((w : ℕ → ℕ) → exec 0 program 0 w ≡ verdict i386 (w 0) (w 4))
child_loop-confined_example =
    child_loop-confined idle i386 10 (exec 0) exec-IsMachine forked_child serving_child fresh refl
      serving_child-Reach refl
