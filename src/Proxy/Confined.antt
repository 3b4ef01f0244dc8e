-- ===== src/Proxy/Confined.antt =====
-- The life of the sandbox's process, from `fork` to its end: commands are only handled behind the
-- system call filter.
use cagekeeper.Prelude.{
  ℕ, zero, suc, ◌+◌, ◌≡◌, refl, ◌∙◌, Bool, true, false, not, ◌&&◌, some, List, [], ◌∷◌, ◌==◌,
  ==_iff, if◌then◌else◌, ltb, leb, arith, Bool-cases, inl, inr,
}
use cagekeeper.Proxy.Child.{Interpreter, Child, Stop, next, exited, stopped, child_round}
use cagekeeper.Proxy.Spawn.{Fds, close, is_kept, close_from, close_all_fds, Handle}
use cagekeeper.Seccomp.{
  SockFilter, Numbers, Rights, Locked, locked, exited as left_with, prepare, enter, seccomp_filter,
  seccomp_lockdown,
}
use cagekeeper.Seccomp.Verdict.{IsMachine, verdict, seccomp_filter-verdict}

-- Where the child stands in `spawn_child`.
pub data Phase (S : Type 0) : Type 0 where
  started closed ready : Phase S
  serving : Child S → Phase S
  dead : ℕ → Phase S
  halted : Stop → Phase S

pub record Process (S : Type 0) : Type 0 where
  pub handle : Handle
  pub rights : Rights
  pub phase : Phase S

abbrev pub kept_fds : Handle → List ℕ
kept_fds h = 1 ∷ 2 ∷ h.fd_r ∷ h.fd_w ∷ []

-- One step of the child. What the interpreter's `initialize` returns, and what the kernel grants, is
-- open.
pub data Step {S : Type 0} (old : Interpreter S) (n : Numbers) (open_max : ℕ) (p q : Process S)
    : Type 0 where
  closes :
      p.phase ≡ started
      → q ≡ record p {
        handle = record p.handle { fds = close_all_fds open_max (kept_fds p.handle) p.handle.fds };
        phase = closed;
      }
      → Step old n open_max p q
  initializes : p.phase ≡ closed → q ≡ record p { phase = ready } → Step old n open_max p q
  fails_to_initialize :
      p.phase ≡ closed → q ≡ record p { phase = dead 44 } → Step old n open_max p q
  locks :
      (limits privs filters : Bool) (r : Rights) (c : Child S)
      → p.phase ≡ ready
      → seccomp_lockdown n limits privs filters p.rights ≡ locked r
      → q ≡ record p { rights = r; phase = serving c }
      → Step old n open_max p q
  fails_to_lock :
      (limits privs filters : Bool) (status : ℕ)
      → p.phase ≡ ready
      → seccomp_lockdown n limits privs filters p.rights ≡ left_with status
      → q ≡ record p { phase = dead status }
      → Step old n open_max p q
  serves :
      (c c' : Child S)
      → p.phase ≡ serving c
      → child_round old c ≡ next c'
      → q ≡ record p { phase = serving c' }
      → Step old n open_max p q
  leaves :
      (c : Child S)
      → p.phase ≡ serving c
      → child_round old c ≡ exited
      → q ≡ record p { phase = dead 1 }
      → Step old n open_max p q
  stops :
      (c c' : Child S) (why : Stop)
      → p.phase ≡ serving c
      → child_round old c ≡ stopped why c'
      → q ≡ record p { phase = halted why }
      → Step old n open_max p q

pub data Reach {S : Type 0} (old : Interpreter S) (n : Numbers) (open_max : ℕ) (p : Process S)
    : Process S → Type 0 where
  here : Reach old n open_max p p
  then_one :
      {q r : Process S}
      → Reach old n open_max p q
      → Step old n open_max q r
      → Reach old n open_max p r

-- The filter is in place, and no privileges can be gained.
pub record IsConfined (n : Numbers) (r : Rights) : Type 0 where
  pub filtered : r.filter ≡ some (seccomp_filter n)
  pub no_privs : r.no_new_privs ≡ true

-- Where the child serves, it is confined.
abbrev pub IsSafe : {S : Type 0} → Numbers → Phase S → Rights → Type 0
IsSafe n (serving c) r = IsConfined n r
IsSafe n _ r = Unit

abbrev Confines : Numbers → Locked → Type 0
Confines n (locked r) = IsConfined n r
Confines n (left_with status) = Unit

enter-Confines :
    (n : Numbers) (privs filters : Bool) (p : Rights) → Confines n (enter n privs filters p)
unfolding enter
enter-Confines n true true p = record { filtered = refl; no_privs = refl }
enter-Confines n true false p = tt
enter-Confines n false filters p = tt

seccomp_lockdown-Confines :
    (n : Numbers) (limits privs filters : Bool) (p : Rights)
    → Confines n (seccomp_lockdown n limits privs filters p)
unfolding seccomp_lockdown
seccomp_lockdown-Confines n limits privs filters p =
    enter-Confines n privs filters (prepare limits p)

module _ {S : Type 0} (old : Interpreter S) (n : Numbers) (open_max : ℕ) where
  Step-IsSafe :
      {p q : Process S}
      → Step old n open_max p q
      → IsSafe n p.phase p.rights
      → IsSafe n q.phase q.rights
  Step-IsSafe (closes found e) h = rw e tt
  Step-IsSafe (initializes found e) h = rw e tt
  Step-IsSafe (fails_to_initialize found e) h = rw e tt
  Step-IsSafe {p} (locks limits privs filters r c found took e) h =
      rw e (rw took at (seccomp_lockdown-Confines n limits privs filters p.rights))
  Step-IsSafe (fails_to_lock limits privs filters status found took e) h = rw e tt
  Step-IsSafe (serves c c' found took e) h = rw e (rw found at h)
  Step-IsSafe (leaves c found took e) h = rw e tt
  Step-IsSafe (stops c c' why found took e) h = rw e tt

  Reach-IsSafe :
      {p q : Process S}
      → IsSafe n p.phase p.rights
      → Reach old n open_max p q
      → IsSafe n q.phase q.rights
  Reach-IsSafe h here = h
  Reach-IsSafe h (then_one r st) = Step-IsSafe st (Reach-IsSafe h r)

  -- From `fork` on, however the interpreter's initialisation and the kernel answer, and after any
  -- number of commands: a child that serves commands runs under a filter, and on a machine that does
  -- what is documented of the filter's instructions that filter allows the listed system calls of
  -- the i386 architecture, fails the others of it with EPERM, and kills the process for any other
  -- architecture.
  pub child_loop-confined :
      (run : List SockFilter → ℕ → (ℕ → ℕ) → ℕ) (machine : IsMachine run) (p q : Process S)
      (c : Child S)
      → p.phase ≡ started
      → Reach old n open_max p q
      → q.phase ≡ serving c
      → (program : List SockFilter) × (q.rights.filter ≡ some program)
        × (q.rights.no_new_privs ≡ true)
        × ((w : ℕ → ℕ) → run program 0 w ≡ verdict n (w 0) (w 4))
  child_loop-confined run machine p q c start reach there =
      let safe : IsSafe n (serving c) q.rights = rw there at (Reach-IsSafe (rw start tt) reach) in
      (seccomp_filter n, safe.filtered, safe.no_privs, λ w. seccomp_filter-verdict run machine n w)

close_from-lem :
    (keep : List ℕ) (left fd : ℕ) (open_fds : Fds) (x : ℕ)
    → close_from keep left fd open_fds x ≡ (
        if leb fd x && (ltb x (fd + left) && not (is_kept false keep x)) then false else open_fds x)
unfolding close_from
close_from-lem keep zero fd open_fds x = ground arith
close_from-lem keep (suc left) fd open_fds x = elim (Bool-cases (is_kept false keep fd)) [
  | inl e ↦ rw e (
      close_from-lem keep left (suc fd) open_fds x ∙ elim (Bool-cases (x == fd)) [
        | inl s ↦ rw ((==_iff x fd).0 s, e) (ground arith)
        | inr s ↦ ground arith
      ])
  | inr e ↦ rw e (
      close_from-lem keep left (suc fd) (close fd open_fds) x ∙ elim (Bool-cases (x == fd)) [
        | inl s ↦ rw ((==_iff x fd).0 s, e) (ground arith)
        | inr s ↦ rw s (ground arith)
      ])
]

-- close_all_fds leaves open what was open and is in the list, or lies at or above the largest number
-- of open files; every other descriptor is closed.
pub close_all_fds_lem :
    (open_max : ℕ) (keep : List ℕ) (open_fds : Fds) (x : ℕ)
    → close_all_fds open_max keep open_fds x
      ≡ (if ltb x open_max && not (is_kept false keep x) then false else open_fds x)
unfolding close_all_fds
close_all_fds_lem open_max keep open_fds x =
    close_from-lem keep open_max 0 open_fds x ∙ ground arith
