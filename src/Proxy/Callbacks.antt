-- ===== src/Proxy/Callbacks.antt =====
-- The conversation while a command runs: what the sandbox sends and the program replies, and that
-- both ends keep to it.
use cagekeeper.Prelude.{
  ℕ, ◌<◌, ◌≡◌, ◌≢◌, ap, ◌∙◌, false, Option, none, some, List, [], ◌∷◌, ◌++◌, append_assoc,
  append-nil, All, length,
}
use cagekeeper.Dict.{HashType, Dict}
use cagekeeper.Dict.Placed.{view}
use cagekeeper.Proxy.Child.{Run, done, callback, log, run_guest}
use cagekeeper.Proxy.Parent.{
  FunctionRef, Message, guest_format, has_conversion, resp_callback, resp_log, send,
}
use cagekeeper.Value.{Value}
use cagekeeper.Wire.{write_byte, write_string, write_value, max_string_size, max_array_size}
use cagekeeper.Wire.Measure.{IsSendable, total}
use cagekeeper.Wire.RoundTrip.{read_value_nolimit-write_value}
use cagekeeper.Word.{int_max}

-- Names and lines that `read_string` lets through.
abbrev pub IsText : List ℕ → Type 0
IsText s = All (λ b. b ≢ 0) s × (length s < max_string_size)

abbrev pub reply_bytes : Option Value → List ℕ
reply_bytes none = []
reply_bytes (some ret) = write_value ret

-- `answers` is what the program's function of a name returns.
module _ {S A : Type 0} (answers : List ℕ → Value → Option Value) where
  -- Every callback gets a value, and all that is said fits through the pipes.
  unfoldable pub IsAnswered : Run S A → Type 0
  IsAnswered (done a s) = Unit
  IsAnswered (log line r) = IsText line × IsAnswered r
  IsAnswered (callback name args k) =
      IsText name
      × IsSendable max_string_size args
      × (total args < max_array_size)
      × ((ret : Value) × (answers name args ≡ some ret) × IsSendable 0 ret × (total ret < int_max))
      × IsAnswered (k (answers name args))

  -- No log line has a conversion: the program takes them for formats.
  unfoldable pub LogsPlainly : Run S A → Type 0
  LogsPlainly (done a s) = Unit
  LogsPlainly (log line r) = (has_conversion line ≡ false) × LogsPlainly r
  LogsPlainly (callback name args k) = LogsPlainly (k (answers name args))

  -- The bytes from the sandbox, those to it, the log lines, and how the run ends.
  unfoldable pub transcript : Run S A → List ℕ
  transcript (done a s) = []
  transcript (log line r) = write_byte resp_log ++ (write_string line ++ transcript r)
  transcript (callback name args k) =
      write_byte resp_callback
      ++ (write_string name ++ (write_value args ++ transcript (k (answers name args))))

  unfoldable pub replies : Run S A → List ℕ
  replies (done a s) = []
  replies (log line r) = replies r
  replies (callback name args k) =
      reply_bytes (answers name args) ++ replies (k (answers name args))

  unfoldable pub lines : Run S A → List Message
  lines (done a s) = []
  lines (log line r) = guest_format line ∷ lines r
  lines (callback name args k) = lines (k (answers name args))

  -- The run with the program's functions called directly, without a sandbox.
  unfoldable pub direct : Run S A → A × S
  direct (done a s) = (a, s)
  direct (log line r) = direct r
  direct (callback name args k) = direct (k (answers name args))

  -- If its callbacks are answered and all that is said fits through the pipes, a run in the sandbox
  -- ends as it does without one, writes its transcript and reads the replies.
  pub run_guest-direct :
      (r : Run S A) (rest out : List ℕ) (s : S)
      → IsAnswered r
      → run_guest r (record { received = replies r ++ rest; written = out; guest = s }) ≡ (
        (direct r).0,
        record { received = rest; written = out ++ transcript r; guest = (direct r).1 },
      )
  unfolding run_guest replies direct transcript IsAnswered
  run_guest-direct (done a s') rest out s h = rw (append-nil out)
  run_guest-direct (log line r) rest out s h =
      run_guest-direct r rest (out ++ (write_byte resp_log ++ write_string line)) s h.1
      ∙ simp append_assoc
  run_guest-direct (callback name args k) rest out s h =
      let (ret, e, send, small) = h.3 in
      let said = out ++ (write_byte resp_callback ++ (write_string name ++ write_value args)) in
      let ih = run_guest-direct (k (answers name args)) rest said s h.4 in
      rw
        (
          append_assoc,
          ap reply_bytes e,
          read_value_nolimit-write_value ret (replies (k (answers name args)) ++ rest) send small,
          ← e,
        )
        (ih ∙ simp append_assoc)

-- What calling the table's entry of a name gives.
unfoldable pub answer_by :
    (FunctionRef → Value → Option Value) → Value → Option (Option FunctionRef) → Option Value
answer_by run args none = none
answer_by run args (some none) = none
answer_by run args (some (some f)) = run f args

-- The program's functions by name, through the table: `run` is what a function returns.
abbrev pub answers_of :
    HashType (List ℕ)
    → (FunctionRef → Value → Option Value)
    → Dict (List ℕ) (Option FunctionRef)
    → List ℕ
    → Value
    → Option Value
answers_of key_type run table name args = answer_by run args (view key_type table name)
