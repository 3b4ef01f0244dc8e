-- ===== src/Proxy/Loop.antt =====
-- `child_loop`: round after round, until the program's end of the pipe is closed.
use cagekeeper.Prelude.{
  ℕ, zero, suc, ◌≤◌, ◌<◌, ◌≡◌, refl, Bool, true, false, Option, none, some, List, [], ◌∷◌, length,
  arith, ◌==◌, if◌then◌else◌,
}
use cagekeeper.Proxy.Child.{
  Run, done, callback, log, Interpreter, Child, Round, next, exited, stopped, Stop, crash, Ending,
  result, stops, after_run, run_operation, answer, as_text, parameter_count, function_with, taken,
  take, proxy_function_call, sandbox_log, run_guest, write, constant_with, round_constant,
  round_function, round_compile, round_is_function, call_with, round_call, round_command,
  child_round,
}
use cagekeeper.Proxy.Parent.{
  define_constant_cmd, define_function_cmd, compile_script_cmd, is_function_cmd, call_function_cmd,
}
use cagekeeper.Value.{Value}
use cagekeeper.Wire.{Outcome, read_byte}
use cagekeeper.Wire.Leaving.{
  Leaving, returning, failing, spending, read_byte-Leaving, read_string-Leaving,
  read_value_nolimit-Leaving,
}

-- How the loop ends: no command comes any more and the process leaves with status 1, which tells how
-- the last round found things, or it crashes or hangs in a command, which tells how far that came.
-- `no_rounds` has no counterpart in the program.
pub data Loop (S : Type 0) : Type 0 where
  left : Child S → Loop S
  stopped_in : Stop → Child S → Loop S
  no_rounds : Loop S

module _ {S : Type 0} (old : Interpreter S) where
  abbrev pub after_round : (Child S → Loop S) → Child S → Round S → Loop S
  after_round loop c (next c') = loop c'
  after_round loop c exited = left c
  after_round loop c (stopped why c') = stopped_in why c'

  -- `child_loop`, with fuel for the rounds
  unfoldable pub child_loop : ℕ → Child S → Loop S
  child_loop zero c = no_rounds
  child_loop (suc f) c = after_round (child_loop f) c (child_round old c)

  -- Why a command stops: an operation of the interpreter does, or a call whose arguments could not be
  -- read is over and they are freed.
  pub data Reason : Stop → Child S → Type 0 where
    in_constant :
        {why : Stop} {c' : Child S} (s : S) (name : Option (List ℕ)) (v : Option Value)
        (c : Child S)
        → run_guest (old.define_constant s name v) c ≡ (stops why, c')
        → Reason why c'
    in_function :
        {why : Stop} {c' : Child S} (s : S) (name : Option (List ℕ)) (n : ℕ) (c : Child S)
        → run_guest (old.define_function s name n) c ≡ (stops why, c')
        → Reason why c'
    in_compile :
        {why : Stop} {c' : Child S} (s : S) (script : Option (List ℕ)) (c : Child S)
        → run_guest (old.compile_script s script) c ≡ (stops why, c')
        → Reason why c'
    in_is_function :
        {why : Stop} {c' : Child S} (s : S) (name : Option (List ℕ)) (c : Child S)
        → run_guest (old.is_function s name) c ≡ (stops why, c')
        → Reason why c'
    in_call :
        {why : Stop} {c' : Child S} (s : S) (name : Option (List ℕ)) (args : Option Value)
        (c : Child S)
        → run_guest (old.call_function s name args) c ≡ (stops why, c')
        → Reason why c'
    no_arguments :
        {c' : Child S} (s : S) (name : Option (List ℕ)) (ret : Option Value) (c : Child S)
        → run_guest (old.call_function s name none) c ≡ (result ret, c')
        → Reason crash (write (answer ret) c')

  -- A round leaves at most `n` bytes in the pipe, or stops for a reason.
  pub data IsRound (n : ℕ) : Round S → Type 0 where
    goes_on : {c : Child S} → length c.received ≤ n → IsRound n (next c)
    is_stopped : {why : Stop} {c : Child S} → Reason why c → IsRound n (stopped why c)

  taken-le :
      {A : Type 0} {o : Outcome A} (n : ℕ) (c : Child S)
      → length c.received ≤ n
      → Leaving n o
      → length (taken o c).1.received ≤ n
  taken-le n c h (returning e) = e
  taken-le n c h (failing e) = e
  taken-le n c h spending = h

  run_guest-le :
      {A : Type 0} (r : Run S A) (n : ℕ) (c : Child S)
      → length c.received ≤ n
      → length (run_guest r c).1.received ≤ n
  unfolding run_guest proxy_function_call sandbox_log take write
  run_guest-le (done a s) n c h = h
  run_guest-le (callback name args k) n c h =
      run_guest-le (k _) n _ (taken-le n _ h (read_value_nolimit-Leaving n c.received h))
  run_guest-le (log line r) n c h = run_guest-le r n _ h

  -- What a read hands on to the command.
  abbrev Handled : ℕ → {A : Type 0} → (Option A × Child S → Round S) → Type 0
  Handled n {A} handle =
      (a : Option A) (c : Child S) → length c.received ≤ n → IsRound n (handle (a, c))

  after_run-IsRound :
      {A : Type 0} (n : ℕ) (handle : A → Child S → Round S) (r : Run S (Ending A)) (c : Child S)
      (o : Ending A × Child S)
      → run_guest r c ≡ o
      → length o.1.received ≤ n
      → ((a : A) (c' : Child S)
          → run_guest r c ≡ (result a, c')
          → length c'.received ≤ n
          → IsRound n (handle a c'))
      → ((why : Stop) (c' : Child S) → run_guest r c ≡ (stops why, c') → Reason why c')
      → IsRound n (after_run handle o)
  after_run-IsRound n handle r c (result a, c') e h good bad = good a c' e h
  after_run-IsRound n handle r c (stops why, c') e h good bad = is_stopped (bad why c' e)

  run_operation-IsRound :
      {A : Type 0} (n : ℕ) (handle : A → Child S → Round S) (r : Run S (Ending A)) (c : Child S)
      → length c.received ≤ n
      → ((a : A) (c' : Child S)
          → run_guest r c ≡ (result a, c')
          → length c'.received ≤ n
          → IsRound n (handle a c'))
      → ((why : Stop) (c' : Child S) → run_guest r c ≡ (stops why, c') → Reason why c')
      → IsRound n (run_operation handle r c)
  unfolding run_operation
  run_operation-IsRound n handle r c h good bad =
      after_run-IsRound n handle r c (run_guest r c) refl (run_guest-le r n c h) good bad

  constant_with-IsRound : (n : ℕ) (name : Option (List ℕ)) → Handled n (constant_with old name)
  unfolding constant_with
  constant_with-IsRound n name v c h =
      run_operation-IsRound n (λ ret. next) (old.define_constant c.guest name v) c h
        (λ a c' e k. goes_on k) (λ why c'. in_constant c.guest name v c)

  round_constant-IsRound : (n : ℕ) → Handled n (round_constant old)
  unfolding round_constant take
  round_constant-IsRound n s c h =
      constant_with-IsRound n (as_text s) _ _
        (taken-le n c h (read_value_nolimit-Leaving n c.received h))

  function_with-IsRound : (n : ℕ) (name : Option (List ℕ)) → Handled n (function_with old name)
  unfolding function_with
  function_with-IsRound n name k c h =
      run_operation-IsRound n (λ ret. next) (old.define_function c.guest name (parameter_count k)) c
        h (λ a c' e l. goes_on l) (λ why c'. in_function c.guest name (parameter_count k) c)

  round_function-IsRound : (n : ℕ) → Handled n (round_function old)
  unfolding round_function take
  round_function-IsRound n name c h =
      function_with-IsRound n (as_text name) (take read_byte c).0 (take read_byte c).1
        (taken-le n c h (read_byte-Leaving n c.received h))

  round_compile-IsRound : (n : ℕ) → Handled n (round_compile old)
  unfolding round_compile write
  round_compile-IsRound n script c h =
      run_operation-IsRound n _ (old.compile_script c.guest (as_text script)) c h
        (λ a c' e k. goes_on k) (λ why c'. in_compile c.guest (as_text script) c)

  round_is_function-IsRound : (n : ℕ) → Handled n (round_is_function old)
  unfolding round_is_function write
  round_is_function-IsRound n name c h =
      run_operation-IsRound n _ (old.is_function c.guest (as_text name)) c h (λ a c' e k. goes_on k)
        (λ why c'. in_is_function c.guest (as_text name) c)

  call_with-IsRound : (n : ℕ) (name : Option (List ℕ)) → Handled n (call_with old name)
  unfolding call_with write
  call_with-IsRound n name none c h =
      run_operation-IsRound n _ (old.call_function c.guest name none) c h
        (λ a c' e k. is_stopped (no_arguments c.guest name a c e))
        (λ why c'. in_call c.guest name none c)
  call_with-IsRound n name (some args) c h =
      run_operation-IsRound n _ (old.call_function c.guest name (some args)) c h
        (λ a c' e k. goes_on k) (λ why c'. in_call c.guest name (some args) c)

  round_call-IsRound : (n : ℕ) → Handled n (round_call old)
  unfolding round_call take
  round_call-IsRound n name c h =
      call_with-IsRound n (as_text name) _ _
        (taken-le n c h (read_value_nolimit-Leaving n c.received h))

  if-IsRound :
      {n : ℕ} {r r' : Round S} (b : Bool)
      → IsRound n r
      → IsRound n r'
      → IsRound n (if b then r else r')
  if-IsRound true h h' = h
  if-IsRound false h h' = h'

  round_command-IsRound :
      (n command : ℕ) (c : Child S)
      → length c.received ≤ n
      → IsRound n (round_command old (some command, c))
  unfolding round_command take
  round_command-IsRound n command c h =
      let s = taken-le n c h (read_string-Leaving 0 n c.received h) in
      if-IsRound (command == define_constant_cmd) (round_constant-IsRound n _ _ s) (
        if-IsRound (command == define_function_cmd) (round_function-IsRound n _ _ s) (
          if-IsRound (command == compile_script_cmd) (round_compile-IsRound n _ _ s) (
            if-IsRound (command == is_function_cmd) (round_is_function-IsRound n _ _ s) (
              if-IsRound (command == call_function_cmd) (round_call-IsRound n _ _ s) (goes_on h)))))

  -- The end of the loop: everything is read, or the last round stops for a reason.
  pub data IsOver : Loop S → Type 0 where
    leaves : {c : Child S} → c.received ≡ [] → IsOver (left c)
    halts :
        {why : Stop} {c : Child S} (before : Child S)
        → child_round old before ≡ stopped why c
        → Reason why c
        → IsOver (stopped_in why c)

  after_round-IsOver :
      (f n : ℕ) (c : Child S) (r : Round S)
      → child_round old c ≡ r
      → IsRound n r
      → ((c' : Child S) → length c'.received ≤ n → IsOver (child_loop f c'))
      → IsOver (after_round (child_loop f) c r)
  after_round-IsOver f n c (next c') e (goes_on h) ih = ih c' h
  after_round-IsOver f n c exited e h ih = elim h [ ]
  after_round-IsOver f n c (stopped why c') e (is_stopped h) ih = halts c e h

  -- one round, and the loop behind it
  child_loop-round :
      (received written : List ℕ) (guest : S) (f : ℕ)
      → length received < suc f
      → ((c : Child S) → length c.received < f → IsOver (child_loop f c))
      → IsOver
          (child_loop (suc f) (record { received = received; written = written; guest = guest }))
  unfolding child_loop child_round take read_byte round_command
  child_loop-round [] written guest f lt ih = leaves refl
  child_loop-round (b ∷ rest) written guest zero lt ih = absurd (omega arith)
  child_loop-round (b ∷ rest) written guest (suc f) lt ih =
      let c : Child S = record { received = rest; written = written; guest = guest } in
      after_round-IsOver (suc f) f
        (record { received = b ∷ rest; written = written; guest = guest }) _ refl
        (round_command-IsRound f b c (omega arith)) λ c' h. ih c' (omega (arith, h))

  -- Whatever bytes the program's end sends, and whatever the interpreter does: child_loop makes at
  -- most a round for each byte and one to find that there is none. It leaves only when no byte is
  -- left; or it stops, and then an operation of the interpreter has crashed or never ends, or a call
  -- has come back whose arguments could not be read, where the loop frees the null pointer.
  pub child_loop-IsOver : (f : ℕ) (c : Child S) → length c.received < f → IsOver (child_loop f c)
  child_loop-IsOver zero c lt = absurd (omega arith)
  child_loop-IsOver (suc f) c lt =
      child_loop-round c.received c.written c.guest f lt (child_loop-IsOver f)
