-- ===== src/Proxy/Spawn.antt =====
-- language_proxy.c, lines 476 to 490 and 500 to 616: the processes and descriptors of a sandbox.
use cagekeeper.Prelude.{
  ℕ, zero, suc, ◌-◌, ◌^◌, Bool, true, false, ◌||◌, Option, none, some, List, [], ◌∷◌, ◌==◌,
  if◌then◌else◌,
}
use cagekeeper.Dict.{dict_new}
use cagekeeper.Proxy.Parent.{Proxy}

-- The descriptors that a process has open.
abbrev pub Fds : Type 0
Fds = ℕ → Bool

abbrev pub close : ℕ → Fds → Fds
close fd open_fds x = if x == fd then false else open_fds x

abbrev pub opened : ℕ → Fds → Fds
opened fd open_fds x = if x == fd then true else open_fds x

-- the inner loop of `close_all_fds`, `do_keep |= keep[j] == fd`
unfoldable pub is_kept : Bool → List ℕ → ℕ → Bool
is_kept do_keep [] fd = do_keep
is_kept do_keep (k ∷ keep) fd = is_kept (do_keep || k == fd) keep fd

-- the outer loop, over the descriptors from `fd` on, `left` of them
unfoldable pub close_from : List ℕ → ℕ → ℕ → Fds → Fds
unfolding is_kept
close_from keep zero fd open_fds = open_fds
close_from keep (suc left) fd open_fds =
    close_from keep left (suc fd) (if is_kept false keep fd then open_fds else close fd open_fds)

-- `open_max` is what `sysconf(_SC_OPEN_MAX)` returns.
unfoldable pub close_all_fds : ℕ → List ℕ → Fds → Fds
unfolding close_from
close_all_fds open_max keep open_fds = close_from keep open_max 0 open_fds

-- What pipe(2) gives.
pub record Pipe : Type 0 where
  pub read_end : ℕ
  pub write_end : ℕ

abbrev pub with_pipe : Pipe → Fds → Fds
with_pipe p open_fds = opened p.read_end (opened p.write_end open_fds)

-- The four pipes; each is made if those before it were. The last two are not used again.
unfoldable pub make_pipes :
    Option Pipe → Option Pipe → Option Pipe → Option Pipe → Fds → Option (Pipe × Pipe) × Fds
make_pipes none c_to_p stdout_pipe stderr_pipe fds = (none, fds)
make_pipes (some a) none stdout_pipe stderr_pipe fds = (none, with_pipe a fds)
make_pipes (some a) (some b) none stderr_pipe fds = (none, with_pipe b (with_pipe a fds))
make_pipes (some a) (some b) (some c) none fds = (none, with_pipe c (with_pipe b (with_pipe a fds)))
make_pipes (some a) (some b) (some c) (some d) fds =
    (some (a, b), with_pipe d (with_pipe c (with_pipe b (with_pipe a fds))))

-- One end of the pipes: `child_pid`, `fd_r` and `fd_w` of `proxy_internal_t`, and the descriptors.
pub record Handle : Type 0 where
  pub child_pid : ℕ
  pub fd_r : ℕ
  pub fd_w : ℕ
  pub fds : Fds

-- How `spawn_child` goes on.
pub data Spawned : Type 0 where
  no_pipes : Fds → Spawned
  in_parent in_child : Handle → Spawned

-- `-1` as a `pid_t`
abbrev pub failed_pid : ℕ
failed_pid = 2 ^ 32 - 1

-- the two sides of `fork()`, which returns `pid`
unfoldable pub forked : ℕ → Option (Pipe × Pipe) × Fds → Spawned
forked pid (none, fds) = no_pipes fds
forked pid (some (p_to_c, c_to_p), fds) =
    if pid == 0
    then in_child
        (record { child_pid = pid; fd_r = p_to_c.read_end; fd_w = c_to_p.write_end; fds = fds })
    else in_parent (record {
      child_pid = pid;
      fd_r = c_to_p.read_end;
      fd_w = p_to_c.write_end;
      fds = close p_to_c.read_end (close c_to_p.write_end fds);
    })

unfoldable pub spawn_child :
    Option Pipe → Option Pipe → Option Pipe → Option Pipe → ℕ → Fds → Spawned
unfolding make_pipes forked
spawn_child p_to_c c_to_p stdout_pipe stderr_pipe pid fds =
    forked pid (make_pipes p_to_c c_to_p stdout_pipe stderr_pipe fds)

-- `proxy_new` in the program: the handle and the fresh state of the proxy. Nothing is sent or waits
-- to be read.
unfoldable pub proxy_new : Spawned → Option (Handle × Proxy)
proxy_new (no_pipes fds) = none
proxy_new (in_child h) = none
proxy_new (in_parent h) = some (
  h,
  record {
    sent = [];
    pending = [];
    silent = true;
    expired = false;
    timeout = false;
    in_call = false;
    callback_functions = dict_new;
    messages = [];
  },
)

-- The calls that `destroy_proxy` makes of the system: a look at the child that does not wait, the
-- signal SIGKILL, and waiting for the child.
pub data SystemCall : Type 0 where
  waitpid_nohang kill waitpid : ℕ → SystemCall

-- `ret` is what the first `waitpid` returns.
unfoldable pub destroy_proxy : Handle → ℕ → List SystemCall
destroy_proxy h ret =
    if ret == 0
    then waitpid_nohang h.child_pid ∷ kill h.child_pid ∷ waitpid h.child_pid ∷ []
    else waitpid_nohang h.child_pid ∷ []
