-- ===== src/Proxy/Turns.antt =====
-- The program and the sandbox while a command runs, as two processes that take turns. Each writes a
-- whole message in a turn, and waits where the message that it reads has not come. The timer of the
-- program, which ends the command when the sandbox is silent for too long, is left out: a schedule is
-- one in which it does not run out.
use cagekeeper.Prelude.{ℕ, Option, none, some, List, [], ◌∷◌, ◌++◌}
use cagekeeper.Dict.{HashType}
use cagekeeper.Proxy.Child.{Run, done, callback, log}
use cagekeeper.Proxy.Parent.{
  FunctionRef, Proxy, Served, served, crashed, no_rounds, process_callbacks, resp_callback,
  resp_return, resp_log,
}
use cagekeeper.Value.{Value}
use cagekeeper.Wire.{
  Outcome, ok, failed, short, refused, out_of_fuel, write_byte, write_string, write_value,
  read_value_nolimit,
}

-- The sandbox: the interpreter runs, or it has written a callback and waits for the reply, or it has
-- written its result.
pub data Sandbox (S A : Type 0) : Type 0 where
  running : Run S A → Sandbox S A
  waiting : (Option Value → Run S A) → Sandbox S A
  ended : A → S → Sandbox S A

-- Both, with the pipes between them: `pending` of the program is the pipe to it, and `sent` the pipe
-- to the sandbox.
pub record Pair (S A : Type 0) : Type 0 where
  pub program : Proxy
  pub sandbox : Sandbox S A

abbrev pub log_message : List ℕ → List ℕ
log_message line = write_byte resp_log ++ write_string line

abbrev pub callback_message : List ℕ → Value → List ℕ
callback_message name args = write_byte resp_callback ++ (write_string name ++ write_value args)

abbrev pub receives : List ℕ → Proxy → Proxy
receives bytes p = record p { pending = p.pending ++ bytes }

module _ {S A : Type 0} where
  -- The reply has come as a whole, or it is not one and the guest gets a null pointer, or the sandbox
  -- still waits for the rest of it.
  abbrev pub goes_on : (Option Value → Run S A) → Proxy → Outcome Value → Option (Pair S A)
  goes_on k p (ok v rest) =
      some (record { program = record p { sent = rest }; sandbox = running (k (some v)) })
  goes_on k p (failed refused rest) =
      some (record { program = record p { sent = rest }; sandbox = running (k none) })
  goes_on k p (failed short rest) = none
  goes_on k p out_of_fuel = none

  -- A turn of the sandbox: `sandbox_log`, the two halves of `proxy_function_call`, or RESP_RETURN and
  -- the bytes of the result.
  unfoldable pub sandbox_turn : (A → List ℕ) → Pair S A → Option (Pair S A)
  sandbox_turn result s = turn s.sandbox
    where
      turn : Sandbox S A → Option (Pair S A)
      turn (running (log line r)) =
          some (record { program = receives (log_message line) s.program; sandbox = running r })
      turn (running (callback name args k)) = some (record {
        program = receives (callback_message name args) s.program;
        sandbox = waiting k;
      })
      turn (running (done a g)) =
          some
            (record { program = receives (resp_return ∷ result a) s.program; sandbox = ended a g })
      turn (waiting k) = goes_on k s.program (read_value_nolimit s.program.sent)
      turn (ended a g) = none

  abbrev pub next_round : Sandbox S A → Served → Option (Pair S A)
  next_round sandbox (served b p) = none
  next_round sandbox crashed = none
  next_round sandbox (no_rounds p) = some (record { program = p; sandbox = sandbox })

  -- A turn of the program: one round of process_callbacks.
  unfoldable pub program_turn :
      HashType (List ℕ)
      → (FunctionRef → Value → Proxy → Option Value × Proxy)
      → Pair S A
      → Option (Pair S A)
  program_turn key_type host s = next_round s.sandbox (process_callbacks key_type host 1 s.program)

pub data Who : Type 0 where
  the_program the_sandbox : Who

-- A schedule, in which the turns are those that are listed; `none` is a turn that cannot be taken.
module _ {S A : Type 0} (key_type : HashType (List ℕ))
    (host : FunctionRef → Value → Proxy → Option Value × Proxy) (result : A → List ℕ) where
  unfoldable pub turn_of : Who → Pair S A → Option (Pair S A)
  turn_of the_program s = program_turn key_type host s
  turn_of the_sandbox s = sandbox_turn result s

  abbrev pub then_turns : (Pair S A → Option (Pair S A)) → Option (Pair S A) → Option (Pair S A)
  then_turns rest none = none
  then_turns rest (some s) = rest s

  unfoldable pub follow : List Who → Pair S A → Option (Pair S A)
  follow [] s = some s
  follow (w ∷ ws) s = then_turns (follow ws) (turn_of w s)
