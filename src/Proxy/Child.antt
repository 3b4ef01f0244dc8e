-- ===== src/Proxy/Child.antt =====
-- The sandbox's end: `child_loop`, and the callbacks and log lines of the guest program.
use cagekeeper.Prelude.{ℕ, Bool, true, false, Option, none, some, List, ◌++◌, ◌==◌, if◌then◌else◌}
use cagekeeper.Proxy.Parent.{
  define_constant_cmd, define_function_cmd, compile_script_cmd, is_function_cmd, call_function_cmd,
  resp_callback, resp_return, resp_error, resp_log,
}
use cagekeeper.Value.{Value}
use cagekeeper.Wire.{
  Outcome, ok, failed, out_of_fuel, Reader, read_byte, c_string, write_byte, write_string,
  write_value, read_string, read_value_nolimit,
}

-- A run of the language interpreter, which is not part of this program: it ends with a result, or
-- calls one of the program's functions and goes on with what comes back (`none` is the null
-- pointer), or writes a log line.
pub data Run (S A : Type 0) : Type 0 where
  done : A → S → Run S A
  callback : List ℕ → Value → (Option Value → Run S A) → Run S A
  log : List ℕ → Run S A → Run S A

-- Where a run comes to no result: the process crashes, or the run goes on for ever, where what it says
-- from there on is left out.
pub data Stop : Type 0 where
  crash never_ends : Stop

pub data Ending (A : Type 0) : Type 0 where
  result : A → Ending A
  stops : Stop → Ending A

-- The interpreter, a `language_t`, over its own state. Every operation may log, call back, crash or
-- never end. A name, script or value that could not be read is the null pointer, `none`, and what
-- becomes of it is up to the interpreter.
pub record Interpreter (S : Type 0) : Type 0 where
  pub define_constant : S → Option (List ℕ) → Option Value → Run S (Ending Unit)
  pub define_function : S → Option (List ℕ) → ℕ → Run S (Ending Unit)
  pub compile_script : S → Option (List ℕ) → Run S (Ending Bool)
  pub is_function : S → Option (List ℕ) → Run S (Ending Bool)
  pub call_function : S → Option (List ℕ) → Option Value → Run S (Ending (Option Value))

-- What will still arrive from the program, all that was written to it, and the interpreter's state.
pub record Child (S : Type 0) : Type 0 where
  pub received : List ℕ
  pub written : List ℕ
  pub guest : S

-- One round of the loop: it goes on, or the command does not come and the process exits, or it
-- crashes or never ends.
pub data Round (S : Type 0) : Type 0 where
  next : Child S → Round S
  exited : Round S
  stopped : Stop → Child S → Round S

abbrev pub bool_byte : Bool → ℕ
bool_byte true = 1
bool_byte false = 0

abbrev pub answer : Option Value → List ℕ
answer none = write_byte resp_error
answer (some ret) = write_byte resp_return ++ write_value ret

-- The number of parameters stays 0 if it does not come.
abbrev pub parameter_count : Option ℕ → ℕ
parameter_count none = 0
parameter_count (some n) = n

module _ {S : Type 0} where
  unfoldable pub write : List ℕ → Child S → Child S
  write bytes c = record c { written = c.written ++ bytes }

  -- A read whose failure gives a null pointer.
  abbrev pub taken : {A : Type 0} → Outcome A → Child S → Option A × Child S
  taken (ok a rest) c = (some a, record c { received = rest })
  taken (failed why rest) c = (none, record c { received = rest })
  taken out_of_fuel c = (none, c)

  unfoldable pub take : {A : Type 0} → Reader A → Child S → Option A × Child S
  take reader c = taken (reader c.received) c

  -- `proxy_function_call`
  unfoldable pub proxy_function_call : List ℕ → Value → Child S → Option Value × Child S
  unfolding write take
  proxy_function_call name args c =
      take read_value_nolimit
        (write (write_byte resp_callback ++ (write_string name ++ write_value args)) c)

  -- `sandbox_log`
  unfoldable pub sandbox_log : List ℕ → Child S → Child S
  unfolding write
  sandbox_log line = write (write_byte resp_log ++ write_string line)

  -- The interpreter runs inside the sandbox.
  unfoldable pub run_guest : {A : Type 0} → Run S A → Child S → A × Child S
  unfolding proxy_function_call sandbox_log
  run_guest (done a s) c = (a, record c { guest = s })
  run_guest (callback name args k) c =
      let (ret, c') = proxy_function_call name args c in run_guest (k ret) c'
  run_guest (log line r) c = run_guest r (sandbox_log line c)

  abbrev pub after_run : {A : Type 0} → (A → Child S → Round S) → Ending A × Child S → Round S
  after_run handle (result a, c) = handle a c
  after_run handle (stops why, c) = stopped why c

  -- An operation of the interpreter, and what the loop does with its result.
  unfoldable pub run_operation :
      {A : Type 0} → (A → Child S → Round S) → Run S (Ending A) → Child S → Round S
  unfolding run_guest
  run_operation handle r c = after_run handle (run_guest r c)

  -- Without arguments `value_destroy(args)` reads through the null pointer.
  abbrev pub answered : Option Value → Option Value → Child S → Round S
  answered none ret c = stopped crash (write (answer ret) c)
  answered (some args) ret c = next (write (answer ret) c)

-- a string as the interpreter gets it
abbrev pub as_text : Option (List ℕ) → Option (List ℕ)
as_text none = none
as_text (some s) = some (c_string s)

module _ {S : Type 0} (old : Interpreter S) where
  -- the constant and its value
  unfoldable pub constant_with : Option (List ℕ) → Option Value × Child S → Round S
  unfolding run_operation
  constant_with name (v, c) = run_operation (λ ret. next) (old.define_constant c.guest name v) c

  unfoldable pub round_constant : Option (List ℕ) × Child S → Round S
  unfolding take constant_with
  round_constant (s, c) = constant_with (as_text s) (take read_value_nolimit c)

  unfoldable pub function_with : Option (List ℕ) → Option ℕ × Child S → Round S
  unfolding run_operation
  function_with name (n, c) =
      run_operation (λ ret. next) (old.define_function c.guest name (parameter_count n)) c

  unfoldable pub round_function : Option (List ℕ) × Child S → Round S
  unfolding take function_with
  round_function (name, c) = function_with (as_text name) (take read_byte c)

  unfoldable pub round_compile : Option (List ℕ) × Child S → Round S
  unfolding run_operation write
  round_compile (script, c) =
      run_operation
        (λ ret c'. next (write (write_byte resp_return ++ write_byte (bool_byte ret)) c'))
        (old.compile_script c.guest (as_text script)) c

  unfoldable pub round_is_function : Option (List ℕ) × Child S → Round S
  unfolding run_operation write
  round_is_function (name, c) =
      run_operation (λ ret c'. next (write (write_byte (bool_byte ret)) c'))
        (old.is_function c.guest (as_text name)) c

  -- the call and its answer
  unfoldable pub call_with : Option (List ℕ) → Option Value × Child S → Round S
  unfolding run_operation write
  call_with name (args, c) = run_operation (answered args) (old.call_function c.guest name args) c

  unfoldable pub round_call : Option (List ℕ) × Child S → Round S
  unfolding take call_with
  round_call (name, c) = call_with (as_text name) (take read_value_nolimit c)

  -- the `switch` on the command; one that it does not know is passed over
  unfoldable pub round_command : Option ℕ × Child S → Round S
  unfolding take round_constant round_function round_compile round_is_function round_call
  round_command (none, c) = exited
  round_command (some command, c) =
      if command == define_constant_cmd
      then round_constant (take (read_string 0) c)
      else if command == define_function_cmd
      then round_function (take (read_string 0) c)
      else if command == compile_script_cmd
      then round_compile (take (read_string 0) c)
      else if command == is_function_cmd
      then round_is_function (take (read_string 0) c)
      else if command == call_function_cmd
      then round_call (take (read_string 0) c)
      else next c

  -- one round of `child_loop`
  unfoldable pub child_round : Child S → Round S
  unfolding round_command
  child_round c = round_command (take read_byte c)
