-- ===== src/Proxy/Commands.antt =====
-- The commands of a session in the sandbox, one after the other: what arrives for each, what the
-- sandbox answers, and what the interpreter is asked to do.
use cagekeeper.Prelude.{
  ℕ, zero, suc, ◌%◌, ◌<◌, ◌^◌, ◌≡◌, ◌≢◌, refl, ◌∙◌, Bool, false, Option, none, some, if◌then◌else◌,
  List, [], ◌∷◌, ◌++◌, append_assoc, append-nil, length, All, arith, inl,
}
use cagekeeper.Proxy.Callbacks.{
  IsAnswered, LogsPlainly, transcript, replies, direct, run_guest-direct,
}
use cagekeeper.Proxy.Child.{
  Run, done, Ending, result, stops, Interpreter, next, bool_byte, answer, write, take,
  function_with, run_operation, run_guest, constant_with, round_constant, round_function,
  round_compile, round_is_function, round_command, child_round,
}
use cagekeeper.Proxy.Loop.{left, child_loop}
use cagekeeper.Proxy.Parent.{
  define_constant_cmd, define_function_cmd, compile_script_cmd, is_function_cmd, call_function_cmd,
  resp_return, FunctionRef,
}
use cagekeeper.Proxy.Rounds.{child_round-call}
use cagekeeper.Value.{Value}
use cagekeeper.Wire.{read_byte, write_byte, write_string, write_value}
use cagekeeper.Wire.Measure.{IsSendable, total}
use cagekeeper.Wire.RoundTrip.{
  c_string-All, read_string-write_string, read_value_nolimit-write_value,
}
use cagekeeper.Word.{int_max}

pub data Command : Type 0 where
  constant : List ℕ → Value → Command
  function : List ℕ → FunctionRef → Command
  compile : List ℕ → Command
  is_function : List ℕ → Command
  call : List ℕ → Value → Command

-- The bytes that the program's end writes for a command.
unfoldable pub command_bytes : Command → List ℕ
command_bytes (constant name v) =
    write_byte define_constant_cmd ++ (write_string name ++ write_value v)
command_bytes (function name f) =
    write_byte define_function_cmd ++ (write_string name ++ write_byte (f.num_params % 256))
command_bytes (compile script) = write_byte compile_script_cmd ++ write_string script
command_bytes (is_function name) = write_byte is_function_cmd ++ write_string name
command_bytes (call name args) =
    write_byte call_function_cmd ++ (write_string name ++ write_value args)

-- Strings and values that pass through the pipe to the sandbox, which reads without limits.
abbrev pub IsName : List ℕ → Type 0
IsName s = All (λ b. b ≢ 0) s × (length s < 2 ^ 31)

abbrev pub IsMessage : Value → Type 0
IsMessage v = IsSendable 0 v × (total v < int_max)

-- The functions of the program by their names, and the interpreter's state: all that a session
-- changes.
pub record World (S : Type 0) : Type 0 where
  pub functions : List ℕ → Option FunctionRef
  pub guest : S

-- A name that has a function keeps it.
abbrev pub or_else : Option FunctionRef → Option FunctionRef → Option FunctionRef
or_else (some f) g = some f
or_else none g = g

-- What a command gives back.
pub data Reply : Type 0 where
  nothing : Reply
  truth : Bool → Reply
  value : Option Value → Reply

-- The result of a run, if it comes to one.
abbrev pub given : {A : Type 0} → A → Ending A → A
given other (result a) = a
given other (stops why) = other

-- `equals` compares names, and `run` is what a function of the program returns.
module _ {S : Type 0} (old : Interpreter S) (equals : List ℕ → List ℕ → Bool)
    (run : FunctionRef → Value → Option Value) where
  -- what calling one of the program's functions by its name gives
  abbrev pub answers : World S → List ℕ → Value → Option Value
  answers w name args = elim (w.functions name) [ none ↦ none | some f ↦ run f args ]

  abbrev pub defined_constant : World S → List ℕ → Value → Run S (Ending Unit)
  defined_constant w name v = old.define_constant w.guest (some name) (some v)

  abbrev pub defined_function : World S → List ℕ → FunctionRef → Run S (Ending Unit)
  defined_function w name f = old.define_function w.guest (some name) (f.num_params % 256)

  abbrev pub compiled : World S → List ℕ → Run S (Ending Bool)
  compiled w script = old.compile_script w.guest (some script)

  abbrev pub asked : World S → List ℕ → Run S (Ending Bool)
  asked w name = old.is_function w.guest (some name)

  abbrev pub called : World S → List ℕ → Value → Run S (Ending (Option Value))
  called w name args = old.call_function w.guest (some name) (some args)

  -- A run to which the program listens: it comes to a result, its callbacks are answered, what it says
  -- fits, and its log lines are no formats.
  pub record IsHeard {A : Type 0} (w : World S) (r : Run S (Ending A)) : Type 0 where
    pub answered : IsAnswered (answers w) r
    pub plain : LogsPlainly (answers w) r
    pub value : A
    pub returns : (direct (answers w) r).0 ≡ result value

  -- A run to which the program does not listen: it says nothing, and comes to a result.
  pub record IsSilent {A : Type 0} (r : Run S (Ending A)) : Type 0 where
    pub value : A
    pub guest : S
    pub returns : r ≡ done (result value) guest

  -- A command that fits, and whose runs keep to the conversation. The program serves callbacks while
  -- it waits for a script or a call, and at no other command.
  unfoldable pub IsAccepted : World S → Command → Type 0
  IsAccepted w (constant name v) = IsName name × IsMessage v × IsSilent (defined_constant w name v)
  IsAccepted w (function name f) = IsName name × IsSilent (defined_function w name f)
  IsAccepted w (compile script) = IsName script × IsHeard w (compiled w script)
  IsAccepted w (is_function name) = IsName name × IsSilent (asked w name)
  IsAccepted w (call name args) = IsName name × IsMessage args × IsHeard w (called w name args)

  -- the replies to its callbacks
  unfoldable pub replies_to : World S → Command → List ℕ
  replies_to w (compile script) = replies (answers w) (compiled w script)
  replies_to w (call name args) = replies (answers w) (called w name args)
  replies_to w (constant name v) = []
  replies_to w (function name f) = []
  replies_to w (is_function name) = []

  -- what the sandbox writes
  unfoldable pub said : World S → Command → List ℕ
  said w (constant name v) = []
  said w (function name f) = []
  said w (compile script) =
      transcript (answers w) (compiled w script)
      ++ resp_return ∷ bool_byte (given false (direct (answers w) (compiled w script)).0) ∷ []
  said w (is_function name) = bool_byte (given false (direct (answers w) (asked w name)).0) ∷ []
  said w (call name args) =
      transcript (answers w) (called w name args)
      ++ answer (given none (direct (answers w) (called w name args)).0)

  -- what it gives back
  unfoldable pub reply_of : World S → Command → Reply
  reply_of w (constant name v) = nothing
  reply_of w (function name f) = nothing
  reply_of w (compile script) = truth (given false (direct (answers w) (compiled w script)).0)
  reply_of w (is_function name) = truth (given false (direct (answers w) (asked w name)).0)
  reply_of w (call name args) = value (given none (direct (answers w) (called w name args)).0)

  -- A name has the first function that is defined under it.
  abbrev pub learn :
      List ℕ → FunctionRef → (List ℕ → Option FunctionRef) → List ℕ → Option FunctionRef
  learn name f functions q = or_else (functions q) (if equals name q then some f else none)

  -- the interpreter without a sandbox
  unfoldable pub perform : World S → Command → World S
  perform w (constant name v) = record w {
    guest = (direct (answers w) (defined_constant w name v)).1;
  }
  perform w (function name f) = record w {
    functions = learn name f w.functions;
    guest = (direct (answers w) (defined_function w name f)).1;
  }
  perform w (compile script) = record w { guest = (direct (answers w) (compiled w script)).1 }
  perform w (is_function name) = record w { guest = (direct (answers w) (asked w name)).1 }
  perform w (call name args) = record w { guest = (direct (answers w) (called w name args)).1 }

  child_round-Command :
      (cmd : Command) (rest out : List ℕ) (w : World S)
      → IsAccepted w cmd
      → child_round old (record {
        received = command_bytes cmd ++ (replies_to w cmd ++ rest);
        written = out;
        guest = w.guest;
      })
        ≡ next
            (record { received = rest; written = out ++ said w cmd; guest = (perform w cmd).guest })
  unfolding IsAccepted command_bytes replies_to said perform child_round round_command
      round_constant constant_with round_function function_with round_compile round_is_function
      run_operation run_guest direct take write read_byte write_byte
  child_round-Command (constant name v) rest out w h =
      rw
        (
          append_assoc (write_string name) (write_value v) rest,
          read_string-write_string 0 name (write_value v ++ rest) (omega arith) h.0.1 (inl refl),
          read_value_nolimit-write_value v rest h.1.0 h.1.1,
          c_string-All name h.0.0,
          h.2.returns,
          append-nil out,
        )
        refl
  child_round-Command (function name f) rest out w h =
      rw
        (
          append_assoc (write_string name) (f.num_params % 256 ∷ []) rest,
          read_string-write_string 0 name (f.num_params % 256 ∷ rest) (omega arith) h.0.1
              (inl refl),
          c_string-All name h.0.0,
          h.1.returns,
          append-nil out,
        )
        refl
  child_round-Command (compile script) rest out w h =
      let r = compiled w script in
      rw
        (
          read_string-write_string 0 script (replies (answers w) r ++ rest) (omega arith) h.0.1
              (inl refl),
          c_string-All script h.0.0,
          run_guest-direct (answers w) r rest out w.guest h.1.answered,
          h.1.returns,
        )
        (simp append_assoc)
  child_round-Command (is_function name) rest out w h =
      rw
        (
          read_string-write_string 0 name rest (omega arith) h.0.1 (inl refl),
          c_string-All name h.0.0,
          h.1.returns,
        )
        refl
  child_round-Command (call name args) rest out w h =
      let more = replies (answers w) (called w name args) ++ rest in
      rw (append_assoc (write_string name) (write_value args) more, h.2.returns)
        (child_round-call old (answers w) name args h.2.value rest out w.guest h.0.0 h.0.1 h.1.0
            h.1.1 h.2.answered h.2.returns
          ∙ simp append_assoc)

  -- A session: the commands, and the replies to the callbacks of each behind it.
  unfoldable pub received_all : World S → List Command → List ℕ
  received_all w [] = []
  received_all w (cmd ∷ cmds) =
      command_bytes cmd ++ (replies_to w cmd ++ received_all (perform w cmd) cmds)

  unfoldable pub said_all : World S → List Command → List ℕ
  said_all w [] = []
  said_all w (cmd ∷ cmds) = said w cmd ++ said_all (perform w cmd) cmds

  unfoldable pub replies_all : World S → List Command → List Reply
  replies_all w [] = []
  replies_all w (cmd ∷ cmds) = reply_of w cmd ∷ replies_all (perform w cmd) cmds

  unfoldable pub perform_all : World S → List Command → World S
  perform_all w [] = w
  perform_all w (cmd ∷ cmds) = perform_all (perform w cmd) cmds

  unfoldable pub AreAccepted : World S → List Command → Type 0
  AreAccepted w [] = Unit
  AreAccepted w (cmd ∷ cmds) = IsAccepted w cmd × AreAccepted (perform w cmd) cmds

  -- Whatever commands arrive in whatever order, each with the replies to its callbacks behind it: the
  -- loop performs them one after the other as the interpreter does with the program's functions
  -- called directly, writes for each its transcript and its answer, and leaves when all are read. The
  -- commands fit through the pipe, their runs keep to the conversation and come to a result, and
  -- there is a round for each command and one more.
  pub child_loop-perform_all :
      (cmds : List Command) (f : ℕ) (out : List ℕ) (w : World S)
      → AreAccepted w cmds
      → length cmds < f
      → child_loop old f (record { received = received_all w cmds; written = out; guest = w.guest })
        ≡ left (record {
          received = [];
          written = out ++ said_all w cmds;
          guest = (perform_all w cmds).guest;
        })
  unfolding child_loop received_all said_all perform_all AreAccepted child_round take read_byte
      round_command
  child_loop-perform_all cmds zero out w h lt = absurd (omega arith)
  child_loop-perform_all [] (suc f) out w h lt = rw (append-nil out) refl
  child_loop-perform_all (cmd ∷ cmds) (suc f) out w h lt =
      rw (child_round-Command cmd (received_all (perform w cmd) cmds) out w h.0) (
        child_loop-perform_all cmds f (out ++ said w cmd) (perform w cmd) h.1 (omega arith)
        ∙ simp append_assoc)
