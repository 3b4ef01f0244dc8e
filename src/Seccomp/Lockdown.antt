-- ===== src/Seccomp/Lockdown.antt =====
-- seccomp.c, `seccomp_lockdown`: the steps of the process, in order. CATCH_SIGNALS is defined,
-- HIJACK_SYSCALLS is not.
use cagekeeper.Prelude.{ℕ, ◌+◌, ◌*◌, Bool, true, false, Option, some, List, [], ◌∷◌, ◌++◌}
use cagekeeper.Seccomp.Filter.{SockFilter, Numbers, seccomp_filter}

-- What the process has set up. `handlers` are the signals that `handle_signal` catches.
pub record Rights : Type 0 where
  pub malloc_check_off : Bool
  pub handlers : List ℕ
  pub data_limit : Option ℕ
  pub no_new_privs : Bool
  pub filter : Option (List SockFilter)

-- `config_maxmem` and `MEM_PAD`
abbrev pub config_maxmem : ℕ
config_maxmem = 128 * 1048576

abbrev pub mem_pad : ℕ
mem_pad = 65536

-- How the process goes on: with its rights, or it exits with a status.
pub data Locked : Type 0 where
  locked : Rights → Locked
  exited : ℕ → Locked

-- the calls up to `prctl`; what `setrlimit` returns is not looked at, `limits` tells whether it took
-- the limit
unfoldable pub prepare : Bool → Rights → Rights
prepare limits p = record p {
  malloc_check_off = true;
  handlers = 6 ∷ 11 ∷ p.handlers;
  data_limit = elim limits [ true ↦ some (config_maxmem + mem_pad) | false ↦ p.data_limit ];
}

-- the two calls of `prctl`, of which the second is made if the first succeeds, and the test
unfoldable pub enter : Numbers → Bool → Bool → Rights → Locked
enter n true true p = locked (record p { no_new_privs = true; filter = some (seccomp_filter n) })
enter n true false p = exited 1
enter n false filters p = exited 1

-- `limits`, `privs` and `filters` are whether the kernel grants the three requests.
unfoldable pub seccomp_lockdown : Numbers → Bool → Bool → Bool → Rights → Locked
unfolding prepare enter
seccomp_lockdown n limits privs filters p = enter n privs filters (prepare limits p)

-- `handle_signal`: a line of output, and the exit with the signal's number
unfoldable pub handle_signal : ℕ → List (List ℕ) → Locked × List (List ℕ)
handle_signal signal output =
    (exited signal, output ++ (115 ∷ 105 ∷ 103 ∷ 110 ∷ 97 ∷ 108 ∷ 10 ∷ []) ∷ [])
