-- ===== src/Proxy/Ending.antt =====
-- The loop that serves the sandbox's callbacks ends, whatever the sandbox writes.
use cagekeeper.Prelude.{
  ℕ, zero, suc, ◌≤◌, ◌<◌, ◌≡◌, ◌≢◌, refl, Bool, true, false, Option, none, some, List, [], ◌∷◌,
  length, ◌==◌, if◌then◌else◌, arith,
}
use cagekeeper.Dict.{HashType, dict_lookup}
use cagekeeper.Proxy.Parent.{
  FunctionRef, guest_format, Proxy, resp_callback, resp_return, resp_error, resp_log, send, report,
  after_read, receive, Served, served, crashed, no_rounds, reply, dispatch, with_args, callback,
  log_line, has_conversion, serve, process_callbacks,
}
use cagekeeper.Value.{Value}
use cagekeeper.Wire.{
  Outcome, ok, failed, short, refused, out_of_fuel, read_byte, write_value, read_string, read_value,
  max_string_size, max_array_size, c_string, Ensures, Ensures-imp, returns, AreBytes,
}
use cagekeeper.Wire.Limits.{Leaves, read_string-Ensures, read_value-Leaves}

-- The rounds were enough.
unfoldable pub IsEnded : Served → Type 0
IsEnded (served b p) = Unit
IsEnded crashed = Unit
IsEnded (no_rounds p) = ⊥

IsEnded-if : (c : Bool) (x y : Served) → IsEnded x → IsEnded y → IsEnded (if c then x else y)
IsEnded-if true x y h k = h
IsEnded-if false x y h k = k

-- So many bytes are still to come.
abbrev pub IsShort : ℕ → Proxy → Type 0
IsShort n p = (length p.pending ≤ n) × AreBytes p.pending

module _ (key_type : HashType (List ℕ)) (host : FunctionRef → Value → Proxy → Option Value × Proxy)
    (reads : (f : FunctionRef) (args : Value) (p : Proxy) (n : ℕ)
      → IsShort n p
      → IsShort n (host f args p).1) where
  module _ (n : ℕ) (loop : Proxy → Served) (ih : (q : Proxy) → IsShort n q → IsEnded (loop q)) where
    reply-IsEnded :
        (o : Option Value) (q : Proxy) → IsShort n q → IsEnded (reply key_type host loop (o, q))
    unfolding reply IsEnded send
    reply-IsEnded none q h = tt
    reply-IsEnded (some v) q h = ih (send (write_value v) q) h

    dispatch-IsEnded :
        (args : Value) (o : Option FunctionRef) (q : Proxy)
        → IsShort n q
        → IsEnded (dispatch key_type host loop args o q)
    unfolding dispatch IsEnded
    dispatch-IsEnded args none q h = tt
    dispatch-IsEnded args (some f) q h =
        reply-IsEnded (host f args q).0 (host f args q).1 (reads f args q n h)

    with_args-IsEnded :
        (name : List ℕ) (q : Proxy) (o : Outcome Value)
        → length q.pending ≤ n
        → Ensures (λ v rest. Leaves 1 q.pending rest) o
        → IsEnded (with_args key_type host loop name (after_read o q))
    unfolding with_args IsEnded
    with_args-IsEnded name q (ok args rest) small (returns h) =
        dispatch-IsEnded args (dict_lookup key_type none q.callback_functions name).0
          (record q {
            pending = rest;
            callback_functions = (dict_lookup key_type none q.callback_functions name).1;
          })
          (omega arith, h.1)
    with_args-IsEnded name q (failed short rest) small h = tt
    with_args-IsEnded name q (failed refused rest) small h = tt
    with_args-IsEnded name q out_of_fuel small h = elim h [ ]

    callback-IsEnded :
        (q : Proxy) (o : Outcome (List ℕ))
        → length q.pending ≤ n
        → Ensures (λ s rest. Leaves 4 q.pending rest) o
        → IsEnded (callback key_type host loop (after_read o q))
    unfolding callback IsEnded receive
    callback-IsEnded q (ok name rest) small (returns h) =
        with_args-IsEnded (c_string name) (record q { pending = rest }) (read_value rest)
          (omega arith) (read_value-Leaves rest h.1)
    callback-IsEnded q (failed short rest) small h = tt
    callback-IsEnded q (failed refused rest) small h = tt
    callback-IsEnded q out_of_fuel small h = elim h [ ]

    log_line-IsEnded :
        (q : Proxy) (o : Outcome (List ℕ))
        → length q.pending ≤ n
        → Ensures (λ s rest. Leaves 4 q.pending rest) o
        → IsEnded (log_line key_type host loop (after_read o q))
    unfolding log_line IsEnded report
    log_line-IsEnded q (ok line rest) small (returns h) =
        IsEnded-if (has_conversion (c_string line)) crashed
          (loop (report (guest_format (c_string line)) (record q { pending = rest }))) tt
          (ih (report (guest_format (c_string line)) (record q { pending = rest }))
            (omega arith, h.1))
    log_line-IsEnded q (failed short rest) small h = tt
    log_line-IsEnded q (failed refused rest) small h = tt
    log_line-IsEnded q out_of_fuel small h = elim h [ ]

    serve-IsEnded :
        (resp : ℕ) (q : Proxy) → IsShort n q → IsEnded (serve key_type host loop (some resp, q))
    unfolding serve IsEnded receive
    serve-IsEnded resp q h =
        let text = after_read (read_string max_string_size q.pending) q in
        let string_read : Ensures (λ s rest. Leaves 4 q.pending rest)
            (read_string max_string_size q.pending) =
          Ensures-imp
            (read_string-Ensures max_string_size max_array_size (omega arith) (omega arith)
              q.pending h.1)
            λ s rest k. returns k.1 in
        let in_return : Served = if resp == resp_return then served true q else loop q in
        let in_error : Served = if resp == resp_error then served false q else in_return in
        let in_log : Served =
          if resp == resp_log then log_line key_type host loop (text.0, text.1) else in_error in
        IsEnded-if (resp == resp_callback) (callback key_type host loop (text.0, text.1)) in_log
          (callback-IsEnded q (read_string max_string_size q.pending) h.0 string_read)
          (IsEnded-if (resp == resp_log) (log_line key_type host loop (text.0, text.1)) in_error
            (log_line-IsEnded q (read_string max_string_size q.pending) h.0 string_read)
            (IsEnded-if (resp == resp_error) (served false q) in_return tt
              (IsEnded-if (resp == resp_return) (served true q) (loop q) tt (ih q h))))

  -- a round, by whether there is a byte to read
  first-IsEnded :
      (f : ℕ) (loop : Proxy → Served)
      → ((q : Proxy) → (length q.pending < f) × AreBytes q.pending → IsEnded (loop q))
      → (p : Proxy) (inp : List ℕ) → p.pending ≡ inp
      → length inp ≤ f
      → AreBytes inp
      → IsEnded (serve key_type host loop (after_read (read_byte inp) p))
  unfolding read_byte serve IsEnded
  first-IsEnded f loop ih p [] e small h = tt
  first-IsEnded f loop ih p (b ∷ rest) e small h =
      serve-IsEnded (length rest) loop (λ q k. ih q (omega arith, k.1)) b
        (record p { pending = rest }) (omega arith, h.1)

  loop-IsEnded :
      (f : ℕ) (p : Proxy)
      → length p.pending < f
      → AreBytes p.pending
      → IsEnded (process_callbacks key_type host f p)
  unfolding process_callbacks IsEnded receive
  loop-IsEnded zero p lt h = absurd (omega arith)
  loop-IsEnded (suc f) p lt h =
      first-IsEnded f (process_callbacks key_type host f)
        (λ q k. loop-IsEnded f q (omega arith) k.1) p p.pending refl (omega arith) h

  -- Whatever bytes the sandbox writes, and if the program's functions only take bytes from the pipe,
  -- the loop that serves callbacks ends within one round more than there are bytes, where a crash is an
  -- end too: the sandbox cannot keep the program in the loop without writing.
  pub process_callbacks_ends :
      (f : ℕ) (p q : Proxy)
      → length p.pending < f
      → AreBytes p.pending
      → process_callbacks key_type host f p ≢ no_rounds q
  unfolding IsEnded
  process_callbacks_ends f p q lt h e = rw e at (loop-IsEnded f p lt h)
