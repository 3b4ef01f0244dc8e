-- ===== src/Proxy/Parent.antt =====
-- The program's end: the commands that it sends to the sandbox, and the loop that serves the
-- sandbox's requests while a command runs.
use cagekeeper.Prelude.{
  ℕ, zero, suc, ◌%◌, Bool, true, false, not, ◌&&◌, Option, none, some, List, [], ◌∷◌, ◌++◌, length,
  ◌==◌, if◌then◌else◌,
}
use cagekeeper.Dict.{HashType, Dict, dict_put, dict_lookup, dict_contains}
use cagekeeper.Value.{Value}
use cagekeeper.Wire.{
  short, refused, Outcome, ok, failed, out_of_fuel, Reader, read_byte, write_byte, write_string,
  write_value, c_string, read_string, read_value, max_string_size,
}

-- A `function_t` of the program, by its address.
pub record FunctionRef : Type 0 where
  pub address : ℕ
  pub num_params : ℕ

-- What goes to `language_error` or `language_log`.
pub data Message : Type 0 where
  unknown_callback reentered timeout_compiling timeout_calling : Message
  already_defined : List ℕ → Message
  guest_format : List ℕ → Message

-- `proxy_internal_t` and the flag `timeout` of its language. `sent` is all that was written to
-- `fd_w`, `pending` what will still arrive on `fd_r`; behind that the sandbox is silent until the
-- timer runs out (`silent`), or the pipe is closed. `expired` tells that the timer stands at zero.
pub record Proxy : Type 0 where
  pub sent : List ℕ
  pub pending : List ℕ
  pub silent : Bool
  pub expired : Bool
  pub timeout : Bool
  pub in_call : Bool
  pub callback_functions : Dict (List ℕ) (Option FunctionRef)
  pub messages : List Message

abbrev pub define_constant_cmd : ℕ
define_constant_cmd = 1

abbrev pub define_function_cmd : ℕ
define_function_cmd = 2

abbrev pub compile_script_cmd : ℕ
compile_script_cmd = 3

abbrev pub is_function_cmd : ℕ
is_function_cmd = 4

abbrev pub call_function_cmd : ℕ
call_function_cmd = 5

abbrev pub resp_callback : ℕ
resp_callback = 10

abbrev pub resp_return : ℕ
resp_return = 11

abbrev pub resp_error : ℕ
resp_error = 12

abbrev pub resp_log : ℕ
resp_log = 13

unfoldable pub send : List ℕ → Proxy → Proxy
send bytes p = record p { sent = p.sent ++ bytes }

unfoldable pub report : Message → Proxy → Proxy
report m p = record p { messages = p.messages ++ m ∷ [] }

-- `timeout.tv_sec = proxy->timeout`
unfoldable pub start_timer : Proxy → Proxy
start_timer p = record p { expired = false }

-- A read under the timer. Where it comes short in silence the timer has run out.
abbrev pub after_read {ℓ} : {A : Type ℓ} → Outcome A → Proxy → Option A × Proxy
after_read (ok a rest) p = (some a, record p { pending = rest })
after_read (failed short rest) p = (none, record p { pending = rest; expired = p.silent })
after_read (failed refused rest) p = (none, record p { pending = rest })
after_read out_of_fuel p = (none, p)

unfoldable pub receive {ℓ} : {A : Type ℓ} → Reader A → Proxy → Option A × Proxy
receive reader p = after_read (reader p.pending) p

-- Whether a text has a conversion of `vsnprintf`: a `%` (37) that no other one follows. The flag tells
-- that a `%` was the byte before.
unfoldable pub has_conversion_after : Bool → List ℕ → Bool
has_conversion_after percent [] = percent
has_conversion_after percent (b ∷ s) =
    let rest = has_conversion_after (not percent && (b == 37)) s in
    if percent then (if b == 37 then rest else true) else rest

unfoldable pub has_conversion : List ℕ → Bool
unfolding has_conversion_after
has_conversion s = has_conversion_after false s

-- How `process_callbacks` ends. `crashed` stands for undefined behaviour: it hands `language_log` a
-- null pointer, or a format with conversions for which there are no arguments.
pub data Served : Type 0 where
  served : Bool → Proxy → Served
  crashed : Served
  no_rounds : Proxy → Served

-- `key_type` is that of the table of callback functions, and `host` runs a function of the program,
-- which may use the proxy itself.
module _ (key_type : HashType (List ℕ))
    (host : FunctionRef → Value → Proxy → Option Value × Proxy) where
  -- the reply to a callback; `loop` is the rest of the loop
  unfoldable pub reply : (Proxy → Served) → Option Value × Proxy → Served
  reply loop (none, p) = served false p
  reply loop (some ret, p) = loop (send (write_value ret) p)

  unfoldable pub dispatch : (Proxy → Served) → Value → Option FunctionRef → Proxy → Served
  unfolding reply
  dispatch loop args none p = served false (report unknown_callback p)
  dispatch loop args (some f) p = reply loop (host f args p)

  unfoldable pub with_args : (Proxy → Served) → List ℕ → Option Value × Proxy → Served
  unfolding dispatch
  with_args loop name (none, p) = served false p
  with_args loop name (some args, p) =
      let (function, table) = dict_lookup key_type none p.callback_functions name in
      dispatch loop args function (record p { callback_functions = table })

  -- the case `RESP_CALLBACK`
  unfoldable pub callback : (Proxy → Served) → Option (List ℕ) × Proxy → Served
  unfolding with_args
  callback loop (none, p) = served false p
  callback loop (some name, p) = with_args loop (c_string name) (receive read_value p)

  -- the case `RESP_LOG`; the message is the format of the log line
  unfoldable pub log_line : (Proxy → Served) → Option (List ℕ) × Proxy → Served
  unfolding has_conversion
  log_line loop (none, p) = crashed
  log_line loop (some message, p) =
      if has_conversion (c_string message)
      then crashed
      else loop (report (guest_format (c_string message)) p)

  -- the `switch`; an answer that it does not know is passed over
  unfoldable pub serve : (Proxy → Served) → Option ℕ × Proxy → Served
  unfolding callback log_line
  serve loop (none, p) = served false p
  serve loop (some resp, p) =
      if resp == resp_callback
      then callback loop (receive (read_string max_string_size) p)
      else if resp == resp_log
      then log_line loop (receive (read_string max_string_size) p)
      else if resp == resp_error
      then served false p
      else if resp == resp_return
      then served true p
      else loop p

  -- `process_callbacks`, with fuel for the rounds
  unfoldable pub process_callbacks : ℕ → Proxy → Served
  unfolding serve
  process_callbacks zero p = no_rounds p
  process_callbacks (suc f) p = serve (process_callbacks f) (receive read_byte p)

  -- enough rounds for the bytes that arrive
  abbrev rounds : Proxy → ℕ
  rounds p = suc (length p.pending)

  -- The timer ran out in the middle of a command.
  unfoldable pub check_timer : Message → Proxy → Proxy
  check_timer m p = if p.expired then report m (record p { timeout = true }) else p

  -- The result of a command, `none` where the program crashes.
  abbrev pub Result : Type 0 → Type 0
  Result A = Option (A × Proxy)

  unfoldable pub compile_result : Option ℕ × Proxy → Bool × Proxy
  unfolding check_timer
  compile_result (none, p) = (false, check_timer timeout_compiling p)
  compile_result (some b, p) = (not (b == 0), p)

  unfoldable pub after_compile : Served → Result Bool
  unfolding compile_result check_timer
  after_compile (served false p) = some (false, check_timer timeout_compiling p)
  after_compile (served true p) =
      some (compile_result (receive read_byte (record p { in_call = false })))
  after_compile crashed = none
  after_compile (no_rounds p) = none

  unfoldable pub compile_script_proxy : List ℕ → Proxy → Result Bool
  unfolding after_compile
  compile_script_proxy script p =
      let p₁ = start_timer (send (write_byte compile_script_cmd ++ write_string script) p) in
      if p₁.in_call
      then some (false, report reentered p₁)
      else after_compile (process_callbacks (rounds p₁) (record p₁ { in_call = true }))

  unfoldable pub is_function_result : Option ℕ × Proxy → Bool × Proxy
  is_function_result (none, p) = (false, p)
  is_function_result (some b, p) = (not (b == 0), p)

  unfoldable pub is_function_proxy : List ℕ → Proxy → Bool × Proxy
  unfolding is_function_result
  is_function_proxy name p =
      is_function_result
        (receive read_byte (start_timer (send (write_byte is_function_cmd ++ write_string name) p)))

  unfoldable pub call_result : Option Value × Proxy → Option Value × Proxy
  unfolding check_timer
  call_result (none, p) = (none, check_timer timeout_calling p)
  call_result (some v, p) = (some v, p)

  unfoldable pub after_call : Served → Result (Option Value)
  unfolding call_result check_timer
  after_call (served false p) = some (none, check_timer timeout_calling p)
  after_call (served true p) =
      some (call_result (receive read_value (record p { in_call = false })))
  after_call crashed = none
  after_call (no_rounds p) = none

  unfoldable pub call_function_proxy : List ℕ → Value → Proxy → Result (Option Value)
  unfolding after_call
  call_function_proxy name args p =
      let p₁ =
        start_timer
          (send (write_byte call_function_cmd ++ (write_string name ++ write_value args)) p) in
      if p₁.in_call
      then some (none, report reentered p₁)
      else after_call (process_callbacks (rounds p₁) (record p₁ { in_call = true }))

unfoldable pub define_constant_proxy : List ℕ → Value → Proxy → Proxy
define_constant_proxy name value =
    send (write_byte define_constant_cmd ++ (write_string name ++ write_value value))

-- `num_params` is cut to a byte.
unfoldable pub define_function_proxy : HashType (List ℕ) → List ℕ → FunctionRef → Proxy → Proxy
define_function_proxy key_type name f p =
    let p₁ =
      send
        (write_byte define_function_cmd ++ (write_string name ++ write_byte (f.num_params % 256)))
        p in
    let (defined, table) = dict_contains key_type p₁.callback_functions name in
    let p₂ = record p₁ { callback_functions = table } in
    if defined
    then report (already_defined name) p₂
    else record p₂ { callback_functions = dict_put key_type table name (some f) }
