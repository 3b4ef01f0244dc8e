-- ===== src/Proxy/Faithful.antt =====
-- Whole sessions between the program and the sandbox.
use cagekeeper.Prelude.{
  ℕ, ◌<◌, ◌≡◌, refl, sym, ap, ◌∙◌, false, Option, some, List, [], ◌∷◌, ◌++◌, append_assoc,
  append-nil, length,
}
use cagekeeper.Dict.{HashType, IsLawful}
use cagekeeper.Proxy.Child.{Interpreter}
use cagekeeper.Proxy.Commands.{
  Command, World, reply_of, perform, received_all, said_all, replies_all, perform_all, AreAccepted,
  child_loop-perform_all,
}
use cagekeeper.Proxy.Issuing.{issue-IsIssued}
use cagekeeper.Proxy.Operations.{issue, issue_all, push_reply, and_then, IsServed, IsReturned}
use cagekeeper.Proxy.Loop.{left, child_loop}
use cagekeeper.Proxy.Parent.{FunctionRef, Proxy}
use cagekeeper.Value.{Value}

module _ (key_type : HashType (List ℕ)) (lawful : IsLawful key_type)
    (host : FunctionRef → Value → Proxy → Option Value × Proxy)
    (run : FunctionRef → Value → Option Value)
    (quiet : (f : FunctionRef) (args : Value) (p : Proxy) → host f args p ≡ (run f args, p))
    {S : Type 0} (old : Interpreter S) where
  unfoldable pub AreReturned : World S → List Command → Type 0
  AreReturned w [] = Unit
  AreReturned w (cmd ∷ cmds) =
      IsReturned key_type lawful host run quiet old w cmd
      × AreReturned (perform old key_type.equals run w cmd) cmds

  -- The program's end of a session: it gets the replies of the language itself, reads all that is
  -- there, is idle again, and has sent the session's bytes.
  pub record IsSession (w : World S) (cmds : List Command) (p : Proxy) : Type 0 where
    pub later : Proxy
    pub gets :
        issue_all key_type host cmds p ≡ some (replies_all old key_type.equals run w cmds, later)
    pub drained : later.pending ≡ []
    pub idle : later.in_call ≡ false
    pub says : later.sent ≡ p.sent ++ received_all old key_type.equals run w cmds
    pub served :
        IsServed key_type lawful host run quiet old
          (perform_all old key_type.equals run w cmds)
          later.callback_functions

  -- a proxy to which these bytes come
  arriving : (p : Proxy) (bytes : List ℕ) → p.pending ≡ bytes → p ≡ record p { pending = bytes }
  arriving p bytes e = ap (λ x. record p { pending = x }) e

  issue_all-IsSession :
      (cmds : List Command) (w : World S) (p : Proxy)
      → AreAccepted old key_type.equals run w cmds
      → AreReturned w cmds
      → IsServed key_type lawful host run quiet old w p.callback_functions
      → p.in_call ≡ false
      → p.pending ≡ said_all old key_type.equals run w cmds
      → IsSession w cmds p
  unfolding issue_all AreAccepted AreReturned received_all said_all replies_all perform_all
  issue_all-IsSession [] w p h r s idle e = record {
    later = p;
    gets = refl;
    drained = e;
    idle = idle;
    says = sym (append-nil p.sent);
    served = s;
  }
  issue_all-IsSession (cmd ∷ cmds) w p h r s idle e =
      let w' = perform old key_type.equals run w cmd in
      let tail = said_all old key_type.equals run w' cmds in
      let one = issue-IsIssued key_type lawful host run quiet old cmd w p tail h.0 r.0 s idle in
      let rest = issue_all-IsSession cmds w' one.later h.1 r.1 one.served one.idle one.drained in
      record {
        later = rest.later;
        gets =
            ap (and_then key_type host (issue_all key_type host cmds))
              (ap (issue key_type host cmd) (arriving p _ e) ∙ one.replies)
            ∙ ap (push_reply key_type host (reply_of old key_type.equals run w cmd)) rest.gets;
        drained = rest.drained;
        idle = rest.idle;
        says = rest.says ∙ rw (one.says) (simp append_assoc);
        served = rest.served;
      }

  -- A sandboxed language does what the language does. Whatever commands the program issues, in
  -- whatever order: there are bytes for each direction such that the program, reading the one, gets
  -- for each command the reply that the interpreter gives with the program's functions called
  -- directly, and sends the other; and child_loop, reading that, writes the one, performs the same
  -- commands, and leaves when the pipe is closed. A callback finds the function that was first
  -- defined under its name. This holds where the functions of the program return what `run` says and
  -- leave the proxy alone; every operation of the interpreter comes to a result, and while it defines
  -- a constant or a function or tells whether a name is one, it neither calls back nor logs; every
  -- callback is answered, all that is said fits through the pipes, no log line has a conversion of
  -- vsnprintf, and every called function gives a value; and there is a round for each command and
  -- one more.
  pub issue_all-child_loop :
      (cmds : List Command) (w : World S) (p : Proxy) (f : ℕ)
      → AreAccepted old key_type.equals run w cmds
      → AreReturned w cmds
      → IsServed key_type lawful host run quiet old w p.callback_functions
      → p.in_call ≡ false
      → length cmds < f
      → let sent = received_all old key_type.equals run w cmds in
        let written = said_all old key_type.equals run w cmds in
        IsSession w cmds (record p { pending = written })
        × (child_loop old f (record { received = sent; written = []; guest = w.guest })
            ≡ left (record {
              received = [];
              written = written;
              guest = (perform_all old key_type.equals run w cmds).guest;
            }))
  issue_all-child_loop cmds w p f h r s idle lt = (
    issue_all-IsSession cmds w (record p { pending = said_all old key_type.equals run w cmds }) h r
        s idle refl,
    child_loop-perform_all old key_type.equals run cmds f [] w h lt,
  )
