-- ===== src/Proxy/Issuing.antt =====
-- A session from the program's end, and that both ends keep to the language as it is without a
-- sandbox.
use cagekeeper.Prelude.{
  ℕ, suc, ◌<◌, ◌≡◌, refl, sym, ap, ◌∙◌, Bool, true, false, not, ◌==◌, Option, none, some, List, [],
  ◌∷◌, ◌++◌, append_assoc, append-nil, length, length-append, arith, if◌then◌else◌, Bool-cases, inl,
  inr,
}
use cagekeeper.Dict.{HashType, IsLawful, Dict, dict_contains}
use cagekeeper.Dict.Placed.{view}
use cagekeeper.Proxy.Callbacks.{transcript, replies, lines, direct}
use cagekeeper.Proxy.Child.{Interpreter, bool_byte}
use cagekeeper.Proxy.Commands.{
  Command, constant, function, compile, is_function, call, command_bytes, World, or_else, answers,
  IsAccepted, given, compiled, asked, called, replies_to, said, reply_of, perform,
}
use cagekeeper.Proxy.Definitions.{or_first, define_function_proxy-IsTable}
use cagekeeper.Proxy.Operations.{value_result, issue, IsServed, IsServed-Answers, IsReturned}
use cagekeeper.Proxy.Parent.{
  FunctionRef, Proxy, report, resp_return, compile_script_cmd, is_function_cmd, call_function_cmd,
  send, start_timer, receive, define_constant_proxy, define_function_proxy, compile_script_proxy,
  is_function_proxy, after_compile, compile_result, is_function_result,
}
use cagekeeper.Proxy.Serving.{Answers}
use cagekeeper.Proxy.Session.{after, process_callbacks-transcript, call_function_proxy-transcript}
use cagekeeper.Value.{Value}
use cagekeeper.Wire.{read_byte, write_byte, write_string, write_value}

module _ (key_type : HashType (List ℕ)) (lawful : IsLawful key_type)
    (host : FunctionRef → Value → Proxy → Option Value × Proxy)
    (run : FunctionRef → Value → Option Value)
    (quiet : (f : FunctionRef) (args : Value) (p : Proxy) → host f args p ≡ (run f args, p))
    {S : Type 0} (old : Interpreter S) where
  -- A command of the program where the sandbox's bytes for it arrive: `tail` is left.
  pub record IsIssued (w : World S) (cmd : Command) (p : Proxy) (tail : List ℕ) : Type 0 where
    pub later : Proxy
    pub replies : issue key_type host cmd p ≡ some (reply_of old key_type.equals run w cmd, later)
    pub drained : later.pending ≡ tail
    pub idle : later.in_call ≡ false
    pub says :
        later.sent ≡ p.sent ++ (command_bytes cmd ++ replies_to old key_type.equals run w cmd)
    pub served :
        IsServed key_type lawful host run quiet old
          (perform old key_type.equals run w cmd)
          later.callback_functions

  bool_byte-not : (b : Bool) → not (bool_byte b == 0) ≡ b
  bool_byte-not true = refl
  bool_byte-not false = refl

  or_first-learn :
      (f : FunctionRef) (b : Bool) (g : Option FunctionRef)
      → or_first (or_first none g) (if b then some f else none)
        ≡ or_first none (or_else g (if b then some f else none))
  or_first-learn f true none = refl
  or_first-learn f false none = refl
  or_first-learn f b (some g) = refl

  IsServed-same :
      (w w' : World S) (t t' : Dict (List ℕ) (Option FunctionRef))
      → IsServed key_type lawful host run quiet old w t
      → w'.functions ≡ w.functions
      → Answers key_type lawful host run quiet (answers old key_type.equals run w) t'
      → ((q : List ℕ) → view key_type t' q ≡ view key_type t q)
      → IsServed key_type lawful host run quiet old w' t'
  IsServed-same w w' t t' h e a same = record {
    table = record { valid = a.valid; unique = a.unique };
    finds = λ q. same q ∙ h.finds q ∙ ap (λ m. or_first none (m q)) (sym e);
  }

  -- A definition only writes to the pipe.
  define_function_proxy-says :
      (name : List ℕ) (f : FunctionRef) (p : Proxy)
      → let q = define_function_proxy key_type name f p in
        (q.pending ≡ p.pending)
        × (q.in_call ≡ p.in_call)
        × (q.sent ≡ p.sent ++ (command_bytes (function name f)))
  unfolding define_function_proxy send report command_bytes
  define_function_proxy-says name f p =
      elim (Bool-cases (dict_contains key_type p.callback_functions name).0) [
        | inl e ↦ rw e (refl, refl, refl)
        | inr e ↦ rw e (refl, refl, refl)
      ]

  issue-compile :
      (script : List ℕ) (w : World S) (p : Proxy) (tail : List ℕ)
      → IsAccepted old key_type.equals run w (compile script)
      → IsServed key_type lawful host run quiet old w p.callback_functions
      → p.in_call ≡ false
      → IsIssued w
          (compile script)
          (record p { pending = said old key_type.equals run w (compile script) ++ tail })
          tail
  unfolding IsAccepted issue said reply_of replies_to command_bytes perform write_byte
      compile_script_proxy send start_timer after_compile compile_result receive read_byte
  issue-compile script w p tail h s idle =
      let r = compiled old key_type.equals run w script in
      let functions = answers old key_type.equals run w in
      let b = given false (direct functions r).0 in
      let bytes = transcript functions r ++ (resp_return ∷ bool_byte b ∷ tail) in
      let command = write_byte compile_script_cmd ++ write_string script in
      let p₁ = record p { sent = p.sent ++ command; expired = false; in_call = true } in
      let enough : length (transcript functions r) < suc (length bytes) =
        omega (arith, length-append (transcript functions r) (resp_return ∷ bool_byte b ∷ tail)) in
      let (t, e, a, same) =
        process_callbacks-transcript key_type lawful host run quiet functions r (suc (length bytes))
          p₁ (bool_byte b ∷ tail) h.1.answered h.1.plain
          (IsServed-Answers key_type lawful host run quiet old w p.callback_functions s) enough in
      record {
        later =
            record (after key_type lawful host run quiet p₁ tail (replies functions r)
              (lines functions r) t) { in_call = false };
        replies =
            rw
              (
                append_assoc (transcript functions r) (resp_return ∷ bool_byte b ∷ []) tail,
                idle,
                e,
                bool_byte-not b,
              )
              refl;
        drained = refl;
        idle = refl;
        says = simp append_assoc;
        served = IsServed-same w _ p.callback_functions t s refl a same;
      }

  issue-call :
      (name : List ℕ) (args : Value) (w : World S) (p : Proxy) (tail : List ℕ)
      → IsAccepted old key_type.equals run w (call name args)
      → IsReturned key_type lawful host run quiet old w (call name args)
      → IsServed key_type lawful host run quiet old w p.callback_functions
      → p.in_call ≡ false
      → IsIssued w
          (call name args)
          (record p { pending = said old key_type.equals run w (call name args) ++ tail })
          tail
  unfolding IsAccepted IsReturned issue said reply_of replies_to command_bytes perform write_byte
  issue-call name args w p tail h (v, e, send_ok, small) s idle =
      let r = called old key_type.equals run w name args in
      let said_bytes = transcript (answers old key_type.equals run w) r in
      let (t, c, a, same) =
        call_function_proxy-transcript key_type lawful host run quiet
          (answers old key_type.equals run w) r name args v p tail h.2.answered h.2.plain
          (IsServed-Answers key_type lawful host run quiet old w p.callback_functions s) idle
          send_ok small in
      record {
        later =
            after key_type lawful host run quiet
              (record p {
                sent =
                    p.sent
                    ++ (write_byte call_function_cmd ++ (write_string name ++ write_value args));
                expired = false;
              })
              tail (replies (answers old key_type.equals run w) r)
              (lines (answers old key_type.equals run w) r) t;
        replies =
            rw (e, append_assoc said_bytes (resp_return ∷ write_value v) tail)
              (ap (value_result key_type host) c);
        drained = refl;
        idle = idle;
        says = simp append_assoc;
        served = IsServed-same w _ p.callback_functions t s refl a same;
      }

  pub issue-IsIssued :
      (cmd : Command) (w : World S) (p : Proxy) (tail : List ℕ)
      → IsAccepted old key_type.equals run w cmd
      → IsReturned key_type lawful host run quiet old w cmd
      → IsServed key_type lawful host run quiet old w p.callback_functions
      → p.in_call ≡ false
      → IsIssued w cmd (record p { pending = said old key_type.equals run w cmd ++ tail }) tail
  unfolding issue said reply_of replies_to command_bytes perform is_function_proxy
      is_function_result define_constant_proxy send start_timer receive read_byte write_byte
  issue-IsIssued (constant name v) w p tail h r s idle = record {
    later = define_constant_proxy name v (record p { pending = tail });
    replies = refl;
    drained = refl;
    idle = idle;
    says = simp append-nil;
    served = record { table = s.table; finds = s.finds };
  }
  issue-IsIssued (function name f) w p tail h r s idle =
      let p₁ = record p { pending = tail } in
      let (rest, call_flag, bytes) = define_function_proxy-says name f p₁ in
      let (table, views) = define_function_proxy-IsTable key_type lawful name f p₁ s.table in
      record {
        later = define_function_proxy key_type name f p₁;
        replies = refl;
        drained = rest;
        idle = call_flag ∙ idle;
        says = bytes ∙ simp append-nil;
        served = record {
          table = table;
          finds = λ q.
              views q
              ∙ ap (λ v. or_first v (if key_type.equals name q then some f else none)) (s.finds q)
              ∙ or_first-learn f (key_type.equals name q) (w.functions q);
        };
      }
  issue-IsIssued (compile script) w p tail h r s idle = issue-compile script w p tail h s idle
  issue-IsIssued (is_function name) w p tail h r s idle = record {
    later = record p {
      pending = tail;
      expired = false;
      sent = p.sent ++ (write_byte is_function_cmd ++ write_string name);
    };
    replies =
        rw
          (bool_byte-not (
            given false
              (direct (answers old key_type.equals run w)
                (asked old key_type.equals run w name)).0))
          refl;
    drained = refl;
    idle = idle;
    says = simp append-nil;
    served = record { table = s.table; finds = s.finds };
  }
  issue-IsIssued (call name args) w p tail h r s idle = issue-call name args w p tail h r s idle
