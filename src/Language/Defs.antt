-- ===== src/Language/Defs.antt =====
-- language.c: language_error, the calls with a time limit, the choice of an interpreter, and
-- call_int_function. The interpreters are parameters: an operation of one takes the interpreter's
-- state and gives a result, the seconds that it runs and the new state.
use cagekeeper.Prelude.{
  ℕ, zero, suc, ◌-◌, ◌^◌, Bool, true, false, not, ◌&&◌, Option, none, some, List, [], ◌∷◌, ◌++◌,
  ◌==◌, leb, if◌then◌else◌,
}
use cagekeeper.Value.{Value, void, int32, array, nil}

-- `language_t`
pub record Language (S : Type 0) : Type 0 where
  pub compile_script : List ℕ → S → Bool × ℕ × S
  pub is_function : List ℕ → S → Bool × ℕ × S
  pub call_function : List ℕ → Value → S → Option Value × ℕ × S

-- What a signal does: end the process, `sigalarm`, or nothing.
pub data Handler : Type 0 where
  default_action sigalarm ignored : Handler

-- The process: the interpreter's state, the seconds that alarm(2) has left (0 when it is off), the
-- handlers of the two signals, and what `li->log`, if set, was told.
pub record Process (S : Type 0) : Type 0 where
  pub guest : S
  pub alarm : ℕ
  pub sigalrm : Handler
  pub sigprof : Handler
  pub has_log : Bool
  pub told : List (List ℕ)

-- `*timeout`, the value and the process behind a call, or the end of the process.
pub data Ended (S : Type 0) : Type 0 where
  ended : Bool → Option Value → Process S → Ended S
  killed : Ended S

-- `vsnprintf(buf, sizeof(buf)-1, …)` keeps so many characters of a text.
abbrev pub buffer_size : ℕ
buffer_size = 1022

unfoldable pub cut : ℕ → List ℕ → List ℕ
cut zero s = []
cut (suc n) [] = []
cut (suc n) (c ∷ cs) = c ∷ cut n cs

unfoldable pub keep_line : ℕ → List ℕ → List ℕ
keep_line c [] = if c == 10 then [] else c ∷ []
keep_line c (d ∷ ds) = c ∷ d ∷ ds

-- the loop that drops the newlines at the end
unfoldable pub trim_newlines : List ℕ → List ℕ
unfolding keep_line
trim_newlines [] = []
trim_newlines (c ∷ cs) = keep_line c (trim_newlines cs)

-- "TIMEOUT", "Couldn't compile", "No such function: %s\n" and "expected return value to be an integer"
abbrev pub timeout_text : List ℕ
timeout_text = 84 ∷ 73 ∷ 77 ∷ 69 ∷ 79 ∷ 85 ∷ 84 ∷ []

abbrev pub compile_text : List ℕ
compile_text =
    67 ∷ 111 ∷ 117 ∷ 108 ∷ 100 ∷ 110 ∷ 39 ∷ 116 ∷ 32 ∷ 99 ∷ 111 ∷ 109 ∷ 112 ∷ 105 ∷ 108 ∷ 101 ∷ []

abbrev pub no_function_text : List ℕ → List ℕ
no_function_text name =
    78
    ∷ 111
    ∷ 32
    ∷ 115
    ∷ 117
    ∷ 99
    ∷ 104
    ∷ 32
    ∷ 102
    ∷ 117
    ∷ 110
    ∷ 99
    ∷ 116
    ∷ 105
    ∷ 111
    ∷ 110
    ∷ 58
    ∷ 32
    ∷ (name ++ 10 ∷ [])

abbrev pub integer_text : List ℕ
integer_text =
    101 ∷ 120 ∷ 112 ∷ 101 ∷ 99 ∷ 116 ∷ 101 ∷ 100 ∷ 32 ∷ 114 ∷ 101 ∷ 116 ∷ 117 ∷ 114 ∷ 110 ∷ 32 ∷ 118
    ∷ 97 ∷ 108 ∷ 117 ∷ 101 ∷ 32 ∷ 116 ∷ 111 ∷ 32 ∷ 98 ∷ 101 ∷ 32 ∷ 97 ∷ 110 ∷ 32 ∷ 105 ∷ 110 ∷ 116
    ∷ 101 ∷ 103 ∷ 101 ∷ 114 ∷ []

module _ {S : Type 0} where
  -- `error` is the text that its format gives.
  unfoldable pub language_error : List ℕ → Process S → Process S
  unfolding cut trim_newlines
  language_error error p =
      let buf = trim_newlines (cut buffer_size error) in
      record p { told = if p.has_log then p.told ++ buf ∷ [] else p.told }

  -- SIGALRM arrives: `jumped` is the process behind `setjmp`, `on` the one that goes on.
  unfoldable pub deliver : Handler → Ended S → Ended S → Ended S
  deliver default_action jumped on = killed
  deliver sigalarm jumped on = jumped
  deliver ignored jumped on = on

  -- the branch behind `setjmp`
  unfoldable pub timed_out : Handler → Process S → Ended S
  timed_out old_signal p =
      ended true none
        (record (language_error timeout_text (record p { alarm = 0 })) { sigprof = old_signal })

  -- An operation of the interpreter under the alarm, and what follows it.
  unfoldable pub run :
      {A : Type 0} → Handler → A × ℕ × S → (A → Process S → Ended S) → Process S → Ended S
  unfolding deliver timed_out
  run old_signal (a, seconds, s) next p =
      let on = next a (record p { guest = s; alarm = p.alarm - seconds }) in
      if not (p.alarm == 0) && leb p.alarm seconds
      then deliver p.sigalrm (timed_out old_signal (record p { guest = s; alarm = 0 })) on
      else on

  -- the end of `with_timeout`
  unfoldable pub finish : Handler → Option Value → Process S → Ended S
  finish old_signal ret p = ended false ret (record p { alarm = 0; sigprof = old_signal })

  unfoldable pub call_if : Language S → Handler → Bool → List ℕ → Value → Bool → Process S → Ended S
  unfolding run finish
  call_if l old_signal has_script fname args true p =
      run old_signal (l.call_function fname args p.guest) (finish old_signal) p
  call_if l old_signal has_script fname args false p =
      if has_script
      then finish old_signal (some void) p
      else finish old_signal (some void)
          (language_error (no_function_text fname) (record p { alarm = 0 }))

  -- `if(function) { … }`
  unfoldable pub call_phase :
      Language S → Handler → Bool → Option (List ℕ) → Value → Process S → Ended S
  unfolding run finish call_if
  call_phase l old_signal has_script none args p = finish old_signal none p
  call_phase l old_signal has_script (some fname) args p =
      run old_signal (l.is_function fname p.guest) (call_if l old_signal has_script fname args) p

  -- Behind `compile_script`: a failure returns at once.
  unfoldable pub after_compile :
      Language S → Handler → Option (List ℕ) → Value → Bool → Process S → Ended S
  unfolding call_phase
  after_compile l old_signal fname args true p = call_phase l old_signal true fname args p
  after_compile l old_signal fname args false p =
      ended false none (language_error compile_text (record p { alarm = 0 }))

  unfoldable pub compile_phase :
      Language S → Handler → Option (List ℕ) → Option (List ℕ) → Value → Process S → Ended S
  unfolding run after_compile call_phase
  compile_phase l old_signal none fname args p = call_phase l old_signal false fname args p
  compile_phase l old_signal (some script) fname args p =
      run old_signal (l.compile_script script p.guest) (after_compile l old_signal fname args) p

  unfoldable pub with_timeout :
      Language S → Option (List ℕ) → Option (List ℕ) → Value → ℕ → Process S → Ended S
  unfolding compile_phase
  with_timeout l script fname args max_seconds p =
      compile_phase l p.sigprof script fname args
        (record p { alarm = max_seconds; sigprof = sigalarm })

  unfoldable pub call_function_with_timeout : Language S → List ℕ → Value → ℕ → Process S → Ended S
  unfolding with_timeout
  call_function_with_timeout l fname args max_seconds p =
      with_timeout l none (some fname) args max_seconds p

  unfoldable pub compile_and_run_function_with_timeout :
      Language S → List ℕ → List ℕ → Value → ℕ → Process S → Ended S
  unfolding with_timeout
  compile_and_run_function_with_timeout l script fname args max_seconds p =
      with_timeout l (some script) (some fname) args max_seconds p

  -- The tag of the value decides; NULL is read as a value, which is the end of the process.
  unfoldable pub int_result : Option Value → Process S → Option (ℕ × Process S)
  int_result (some (int32 i)) p = some (i, p)
  int_result (some v) p = some (2 ^ 32 - 1, language_error integer_text p)
  int_result none p = none

  unfoldable pub call_int_function : Language S → List ℕ → Process S → Option (ℕ × Process S)
  unfolding int_result
  call_int_function l name p =
      let (ret, seconds, s) = l.call_function name (array nil) p.guest in
      int_result ret (record p { guest = s })

-- The interpreters that a file name can choose.
pub data Interpreter : Type 0 where
  lua python ruby javascript : Interpreter

unfoldable pub last_dot : ℕ → List ℕ → Option (List ℕ) → Option (List ℕ)
last_dot c cs (some ext) = some ext
last_dot c cs none = if c == 46 then some cs else none

-- `dot ? dot+1 : filename`, `dot` being the last dot: what follows it, if there is one
unfoldable pub after_last_dot : List ℕ → Option (List ℕ)
unfolding last_dot
after_last_dot [] = none
after_last_dot (c ∷ cs) = last_dot c cs (after_last_dot cs)

unfoldable pub or_whole : List ℕ → Option (List ℕ) → List ℕ
or_whole filename (some ext) = ext
or_whole filename none = filename

unfoldable pub extension : List ℕ → List ℕ
unfolding after_last_dot or_whole
extension filename = or_whole filename (after_last_dot filename)

-- `strcmp` with "lua", "py" and "rb"
unfoldable pub same : List ℕ → List ℕ → Bool
same [] [] = true
same [] (d ∷ ds) = false
same (c ∷ cs) [] = false
same (c ∷ cs) (d ∷ ds) = (c == d) && same cs ds

unfoldable pub interpreter_of : List ℕ → Interpreter
unfolding same
interpreter_of ext =
    if same ext (108 ∷ 117 ∷ 97 ∷ [])
    then lua
    else if same ext (112 ∷ 121 ∷ [])
    then python
    else if same ext (114 ∷ 98 ∷ [])
    then ruby
    else javascript

unfoldable pub raw_interpreter_by_extension : List ℕ → Interpreter
unfolding extension interpreter_of
raw_interpreter_by_extension filename = interpreter_of (extension filename)
