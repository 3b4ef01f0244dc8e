-- ===== src/Proxy/Rounds.antt =====
-- One round of the sandbox's loop for a call, with everything that the two ends say meanwhile.
use cagekeeper.Prelude.{
  ℕ, ◌≡◌, ◌≢◌, ◌<◌, ◌^◌, refl, Option, some, List, ◌++◌, All, length, arith, inl,
}
use cagekeeper.Proxy.Callbacks.{IsAnswered, transcript, replies, direct, run_guest-direct}
use cagekeeper.Proxy.Child.{
  Interpreter, result, run_operation, next, write, take, answer, call_with, round_call,
  round_command, child_round,
}
use cagekeeper.Proxy.Parent.{call_function_cmd}
use cagekeeper.Value.{Value}
use cagekeeper.Wire.{read_byte, write_byte, write_string, write_value}
use cagekeeper.Wire.Measure.{IsSendable, total}
use cagekeeper.Wire.RoundTrip.{
  c_string-All, read_string-write_string, read_value_nolimit-write_value,
}
use cagekeeper.Word.{int_max}

-- On the command that call_function_proxy writes, and the replies to the callbacks behind it, one
-- round of child_loop runs the function to the result that it has with the program's functions called
-- directly, writes the transcript and the result or RESP_ERROR, and stops behind the replies. The
-- name, the arguments and what the callbacks say fit through the pipes, and the function comes to a
-- result.
pub child_round-call :
    {S : Type 0} (old : Interpreter S) (answers : List ℕ → Value → Option Value) (name : List ℕ)
    (args : Value) (ret : Option Value) (rest out : List ℕ) (s : S)
    → All (λ b. b ≢ 0) name
    → length name < 2 ^ 31
    → IsSendable 0 args
    → total args < int_max
    → IsAnswered answers (old.call_function s (some name) (some args))
    → (direct answers (old.call_function s (some name) (some args))).0 ≡ result ret
    → let r = old.call_function s (some name) (some args) in
      child_round old (record {
        received =
            write_byte call_function_cmd
            ++ (write_string name ++ (write_value args ++ (replies answers r ++ rest)));
        written = out;
        guest = s;
      })
      ≡ next (record {
        received = rest;
        written = (out ++ transcript answers r) ++ answer ret;
        guest = (direct answers r).1;
      })
unfolding child_round round_command round_call call_with run_operation take write read_byte
    write_byte
child_round-call old answers name args ret rest out s text short send small h e =
    let r = old.call_function s (some name) (some args) in
    rw
      (
        read_string-write_string 0 name (write_value args ++ (replies answers r ++ rest))
            (omega arith) short (inl refl),
        c_string-All name text,
        read_value_nolimit-write_value args (replies answers r ++ rest) send small,
        run_guest-direct answers r rest out s h,
        e,
      )
      refl
