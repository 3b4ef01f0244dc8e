-- ===== src/Proxy/Guard.antt =====
-- The flag `in_call`, which refuses a command while another is under way.
use cagekeeper.Prelude.{
  ℕ, zero, suc, ◌≡◌, refl, ◌∙◌, Bool, true, false, Option, none, some, List, ◌++◌, length, ◌==◌,
  if◌then◌else◌,
}
use cagekeeper.Dict.{HashType, dict_lookup}
use cagekeeper.Proxy.Parent.{
  FunctionRef, Message, guest_format, reentered, timeout_calling, Proxy, resp_callback, resp_return,
  resp_error, resp_log, call_function_cmd, send, report, start_timer, after_read, receive, Served,
  served, crashed, no_rounds, reply, dispatch, with_args, callback, log_line, has_conversion, serve,
  process_callbacks, check_timer, after_call, call_function_proxy,
}
use cagekeeper.Value.{Value}
use cagekeeper.Wire.{
  Outcome, ok, failed, short, refused, out_of_fuel, Reader, read_byte, write_byte, write_string,
  write_value, read_string, read_value, max_string_size, c_string,
}

-- The flag is `b` where the command ends.
unfoldable pub IsKept : Bool → Served → Type 0
IsKept b (served s q) = q.in_call ≡ b
IsKept b crashed = Unit
IsKept b (no_rounds p) = Unit

IsKept-if : (b c : Bool) (x y : Served) → IsKept b x → IsKept b y → IsKept b (if c then x else y)
IsKept-if b true x y h k = h
IsKept-if b false x y h k = k

after_read_in_call :
    {A : Type 0} (o : Outcome A) (p : Proxy) → (after_read o p).1.in_call ≡ p.in_call
after_read_in_call (ok a rest) p = refl
after_read_in_call (failed short rest) p = refl
after_read_in_call (failed refused rest) p = refl
after_read_in_call out_of_fuel p = refl

receive_in_call :
    {A : Type 0} (reader : Reader A) (p : Proxy) → (receive reader p).1.in_call ≡ p.in_call
unfolding receive
receive_in_call reader p = after_read_in_call (reader p.pending) p

module _ (key_type : HashType (List ℕ)) (host : FunctionRef → Value → Proxy → Option Value × Proxy)
    (keeps : (f : FunctionRef) (args : Value) (p : Proxy)
      → (host f args p).1.in_call ≡ p.in_call) where
  module _ (b : Bool) (loop : Proxy → Served)
      (ih : (q : Proxy) → q.in_call ≡ b → IsKept b (loop q)) where
    reply-IsKept :
        (o : Option Value) (q : Proxy) → q.in_call ≡ b → IsKept b (reply key_type host loop (o, q))
    unfolding reply IsKept send
    reply-IsKept none q e = e
    reply-IsKept (some v) q e = ih (send (write_value v) q) e

    dispatch-IsKept :
        (args : Value) (o : Option FunctionRef) (q : Proxy)
        → q.in_call ≡ b
        → IsKept b (dispatch key_type host loop args o q)
    unfolding dispatch IsKept report
    dispatch-IsKept args none q e = e
    dispatch-IsKept args (some f) q e =
        reply-IsKept (host f args q).0 (host f args q).1 (keeps f args q ∙ e)

    with_args-IsKept :
        (name : List ℕ) (o : Option Value) (q : Proxy)
        → q.in_call ≡ b
        → IsKept b (with_args key_type host loop name (o, q))
    unfolding with_args IsKept
    with_args-IsKept name none q e = e
    with_args-IsKept name (some args) q e =
        dispatch-IsKept args (dict_lookup key_type none q.callback_functions name).0
          (record q {
            callback_functions = (dict_lookup key_type none q.callback_functions name).1;
          })
          e

    callback-IsKept :
        (o : Option (List ℕ)) (q : Proxy)
        → q.in_call ≡ b
        → IsKept b (callback key_type host loop (o, q))
    unfolding callback IsKept
    callback-IsKept none q e = e
    callback-IsKept (some name) q e =
        with_args-IsKept (c_string name) (receive read_value q).0 (receive read_value q).1
          (receive_in_call read_value q ∙ e)

    log_line-IsKept :
        (o : Option (List ℕ)) (q : Proxy)
        → q.in_call ≡ b
        → IsKept b (log_line key_type host loop (o, q))
    unfolding log_line IsKept report
    log_line-IsKept none q e = tt
    log_line-IsKept (some line) q e =
        IsKept-if b (has_conversion (c_string line)) crashed
          (loop (report (guest_format (c_string line)) q)) tt
          (ih (report (guest_format (c_string line)) q) e)

    serve-IsKept :
        (o : Option ℕ) (q : Proxy) → q.in_call ≡ b → IsKept b (serve key_type host loop (o, q))
    unfolding serve IsKept
    serve-IsKept none q e = e
    serve-IsKept (some resp) q e =
        let text = receive (read_string max_string_size) q in
        let e' : text.1.in_call ≡ b = receive_in_call (read_string max_string_size) q ∙ e in
        let in_return : Served = if resp == resp_return then served true q else loop q in
        let in_error : Served = if resp == resp_error then served false q else in_return in
        let in_log : Served =
          if resp == resp_log then log_line key_type host loop (text.0, text.1) else in_error in
        IsKept-if b (resp == resp_callback) (callback key_type host loop (text.0, text.1)) in_log
          (callback-IsKept text.0 text.1 e')
          (IsKept-if b (resp == resp_log) (log_line key_type host loop (text.0, text.1)) in_error
            (log_line-IsKept text.0 text.1 e')
            (IsKept-if b (resp == resp_error) (served false q) in_return e
              (IsKept-if b (resp == resp_return) (served true q) (loop q) e (ih q e))))

  -- The loop that serves callbacks keeps the flag, if the program's functions do.
  process_callbacks-IsKept :
      (b : Bool) (f : ℕ) (p : Proxy)
      → p.in_call ≡ b
      → IsKept b (process_callbacks key_type host f p)
  unfolding process_callbacks IsKept
  process_callbacks-IsKept b zero p e = tt
  process_callbacks-IsKept b (suc f) p e =
      serve-IsKept b (process_callbacks key_type host f) (process_callbacks-IsKept b f)
        (receive read_byte p).0 (receive read_byte p).1 (receive_in_call read_byte p ∙ e)

  check_timer_in_call :
      (m : Message) (p : Proxy) → (check_timer key_type host m p).in_call ≡ p.in_call
  unfolding check_timer report
  check_timer_in_call m p = go p.expired
    where
      go :
          (c : Bool) → (if c then report m (record p { timeout = true }) else p).in_call ≡ p.in_call
      go true = refl
      go false = refl

  -- A call that fails while its callbacks are served leaves `in_call` set, if the program's functions
  -- keep the flag: it returns no value, and every call after it is refused as one from a callback,
  -- although its command has been written to the sandbox.
  pub call_function_proxy_stuck :
      (name : List ℕ) (args : Value) (p q : Proxy)
      → p.in_call ≡ false
      → process_callbacks key_type host (suc (length p.pending)) (record p {
        sent = p.sent ++ (write_byte call_function_cmd ++ (write_string name ++ write_value args));
        expired = false;
        in_call = true;
      })
        ≡ served false q
      → (stuck : Proxy) × (call_function_proxy key_type host name args p ≡ some (none, stuck))
        × (stuck.in_call ≡ true)
        × ((name' : List ℕ) (args' : Value)
            → call_function_proxy key_type host name' args' stuck
              ≡ some (
                none,
                report reentered (record stuck {
                  sent =
                      stuck.sent
                      ++ (write_byte call_function_cmd
                          ++ (write_string name' ++ write_value args'));
                  expired = false;
                }),
              ))
  unfolding call_function_proxy start_timer send after_call IsKept
  call_function_proxy_stuck name args p q idle fails =
      let p₁ = record p {
        sent = p.sent ++ (write_byte call_function_cmd ++ (write_string name ++ write_value args));
        expired = false;
        in_call = true;
      } in
      let kept : IsKept true (served false q) =
        rw fails at (process_callbacks-IsKept true (suc (length p.pending)) p₁ refl) in
      let stuck = check_timer key_type host timeout_calling q in
      let set : stuck.in_call ≡ true = check_timer_in_call timeout_calling q ∙ kept in
      (stuck, rw (idle, fails) refl, set, λ name' args'. rw set refl)
