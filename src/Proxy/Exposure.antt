-- ===== src/Proxy/Exposure.antt =====
-- What a sandbox can make the program do while a command runs, whatever it writes.
use cagekeeper.Prelude.{
  ℕ, zero, suc, ◌≡◌, refl, sym, ap, ◌∙◌, Bool, true, false, Option, none, some, List, [], ◌∷◌, ◌==◌,
  if◌then◌else◌, arith,
}
use cagekeeper.Dict.{HashType, IsLawful, Dict, dict_lookup}
use cagekeeper.Dict.Lookup.{dict_lookup-view, get_or_null}
use cagekeeper.Dict.Placed.{view}
use cagekeeper.Proxy.Definitions.{IsTable}
use cagekeeper.Proxy.Parent.{
  FunctionRef, guest_format, Proxy, resp_callback, resp_return, resp_error, resp_log, send, report,
  after_read, receive, Served, reply, dispatch, with_args, callback, log_line, has_conversion,
  serve, process_callbacks,
}
use cagekeeper.Value.{Value}
use cagekeeper.Wire.{
  Outcome, ok, failed, short, refused, out_of_fuel, read_byte, write_value, read_string, read_value,
  max_string_size, max_array_size, c_string, Ensures, Ensures-imp, returns, AreBytes,
}
use cagekeeper.Wire.Limits.{IsWithin, read_string-Ensures, read_value-IsWithin}

-- What a value from the sandbox can be.
abbrev pub IsChecked : Value → Type 0
IsChecked args = IsWithin max_string_size max_array_size args

if-same :
    {A : Type 0} {x x' y y' : A} (b : Bool)
    → x ≡ x'
    → y ≡ y'
    → (if b then x else y) ≡ (if b then x' else y')
if-same true h k = h
if-same false h k = k

module _ (key_type : HashType (List ℕ)) (lawful : IsLawful key_type)
    (IsExposed : FunctionRef → Type 0) where
  -- Bytes will come from the sandbox, and the table of callbacks is valid and holds exposed functions
  -- only.
  pub record IsGuarded (pending : List ℕ) (table : Dict (List ℕ) (Option FunctionRef))
      : Type 0 where
    pub bytes : AreBytes pending
    pub valid : IsTable key_type lawful table
    pub exposed :
        (name : List ℕ) (f : FunctionRef) → view key_type table name ≡ some (some f) → IsExposed f

  abbrev pub IsSafe : Proxy → Type 0
  IsSafe p = IsGuarded p.pending p.callback_functions

  found_some :
      (v : Option (Option FunctionRef)) (f : FunctionRef)
      → get_or_null none v ≡ some f
      → v ≡ some (some f)
  found_some none f h = ground arith
  found_some (some none) f h = ground arith
  found_some (some (some g)) f h = ap some h

  -- `host` and `host'` are two programs that behave alike where an exposed function gets a checked
  -- value.
  module _ (host host' : FunctionRef → Value → Proxy → Option Value × Proxy)
      (keeps : (f : FunctionRef) (args : Value) (p : Proxy) → IsSafe p → IsSafe (host f args p).1)
      (agree : (f : FunctionRef) (args : Value) (p : Proxy)
        → IsExposed f
        → IsChecked args
        → host f args p ≡ host' f args p) where
    module _ (loop loop' : Proxy → Served) (ih : (q : Proxy) → IsSafe q → loop q ≡ loop' q) where
      reply-same :
          (o : Option Value) (q : Proxy)
          → IsSafe q
          → reply key_type host loop (o, q) ≡ reply key_type host' loop' (o, q)
      unfolding reply send
      reply-same none q s = refl
      reply-same (some v) q s =
          ih (send (write_value v) q)
            (record { bytes = s.bytes; valid = s.valid; exposed = s.exposed })

      dispatch-same :
          (args : Value) (o : Option FunctionRef) (q : Proxy)
          → ((f : FunctionRef) → o ≡ some f → IsExposed f)
          → IsChecked args
          → IsSafe q
          → dispatch key_type host loop args o q ≡ dispatch key_type host' loop' args o q
      unfolding dispatch
      dispatch-same args none q e c s = refl
      dispatch-same args (some f) q e c s =
          reply-same (host f args q).0 (host f args q).1 (keeps f args q s)
          ∙ ap (reply key_type host' loop') (agree f args q (e f refl) c)

      with_args-same :
          (name : List ℕ) (q : Proxy) (o : Outcome Value)
          → IsSafe q
          → Ensures (λ v rest. IsChecked v × AreBytes rest) o
          → with_args key_type host loop name (after_read o q)
            ≡ with_args key_type host' loop' name (after_read o q)
      unfolding with_args
      with_args-same name q (ok args rest) s (returns h) =
          let t = q.callback_functions in
          let d = dict_lookup-view key_type lawful none t name s.valid.valid s.valid.unique in
          dispatch-same args (dict_lookup key_type none t name).0
            (record q { pending = rest; callback_functions = (dict_lookup key_type none t name).1 })
            (λ f e. s.exposed name f (found_some (view key_type t name) f (sym d.0 ∙ e))) h.0
            (record {
              bytes = h.1;
              valid = record { valid = d.2; unique = d.3 };
              exposed = λ n f e. s.exposed n f (sym (d.1 n) ∙ e);
            })
      with_args-same name q (failed short rest) s h = refl
      with_args-same name q (failed refused rest) s h = refl
      with_args-same name q out_of_fuel s h = elim h [ ]

      -- a string that is read leaves bytes
      string_read :
          (q : Proxy)
          → IsSafe q
          → Ensures (λ s rest. AreBytes rest) (read_string max_string_size q.pending)
      string_read q s =
          Ensures-imp
            (read_string-Ensures max_string_size max_array_size (omega arith) (omega arith)
              q.pending s.bytes)
            λ text rest k. returns k.1.1

      -- the same proxy further on in the bytes
      further :
          (q : Proxy) (rest : List ℕ)
          → IsSafe q
          → AreBytes rest
          → IsSafe (record q { pending = rest })
      further q rest s h = record { bytes = h; valid = s.valid; exposed = s.exposed }

      callback-same :
          (q : Proxy) (o : Outcome (List ℕ))
          → IsSafe q
          → Ensures (λ s rest. AreBytes rest) o
          → callback key_type host loop (after_read o q)
            ≡ callback key_type host' loop' (after_read o q)
      unfolding callback receive
      callback-same q (ok name rest) s (returns h) =
          with_args-same (c_string name) (record q { pending = rest }) (read_value rest)
            (further q rest s h) (read_value-IsWithin rest h)
      callback-same q (failed short rest) s h = refl
      callback-same q (failed refused rest) s h = refl
      callback-same q out_of_fuel s h = elim h [ ]

      log_line-same :
          (q : Proxy) (o : Outcome (List ℕ))
          → IsSafe q
          → Ensures (λ s rest. AreBytes rest) o
          → log_line key_type host loop (after_read o q)
            ≡ log_line key_type host' loop' (after_read o q)
      unfolding log_line report
      log_line-same q (ok line rest) s (returns h) = if-same (has_conversion (c_string line)) refl (
          ih (report (guest_format (c_string line)) (record q { pending = rest }))
            (record { bytes = h; valid = s.valid; exposed = s.exposed }))
      log_line-same q (failed short rest) s h = refl
      log_line-same q (failed refused rest) s h = refl
      log_line-same q out_of_fuel s h = elim h [ ]

      serve-same :
          (resp : ℕ) (q : Proxy)
          → IsSafe q
          → serve key_type host loop (some resp, q) ≡ serve key_type host' loop' (some resp, q)
      unfolding serve receive
      serve-same resp q s =
          if-same (resp == resp_callback)
            (callback-same q (read_string max_string_size q.pending) s (string_read q s))
            (if-same (resp == resp_log)
              (log_line-same q (read_string max_string_size q.pending) s (string_read q s))
              (if-same (resp == resp_error) refl (if-same (resp == resp_return) refl (ih q s))))

    first-same :
        (loop loop' : Proxy → Served)
        → ((q : Proxy) → IsSafe q → loop q ≡ loop' q)
        → (p : Proxy) (inp : List ℕ) → IsSafe p
        → AreBytes inp
        → serve key_type host loop (after_read (read_byte inp) p)
          ≡ serve key_type host' loop' (after_read (read_byte inp) p)
    unfolding read_byte serve
    first-same loop loop' ih p [] s h = refl
    first-same loop loop' ih p (b ∷ rest) s h =
        serve-same loop loop' ih b (record p { pending = rest })
          (record { bytes = h.1; valid = s.valid; exposed = s.exposed })

    -- Whatever the sandbox writes: two programs whose functions keep the table valid and its functions
    -- exposed, and which behave alike wherever an exposed function is called with a value that holds
    -- no function, no zero byte in a string, strings below 4096 bytes and arrays below 1024 items,
    -- serve a command alike. So until the command ends or crashes, the sandbox reaches no function
    -- but the exposed ones, and those only with such values. A log line that is not read, or that
    -- has a conversion of vsnprintf, counts as a crash: what the program does from there on is
    -- undefined, and nothing is said of it.
    pub process_callbacks-exposed :
        (f : ℕ) (p : Proxy)
        → IsSafe p
        → process_callbacks key_type host f p ≡ process_callbacks key_type host' f p
    unfolding process_callbacks receive
    process_callbacks-exposed zero p s = refl
    process_callbacks-exposed (suc f) p s =
        first-same (process_callbacks key_type host f) (process_callbacks key_type host' f)
          (process_callbacks-exposed f) p p.pending s s.bytes
