-- ===== src/Proxy/Serving.antt =====
-- One round of the loop that serves callbacks: a log line, or a callback that has an answer.
use cagekeeper.Prelude.{
  ℕ, suc, ◌<◌, ◌≡◌, refl, sym, ap, ◌∙◌, false, Option, none, some, List, [], ◌∷◌, ◌++◌, arith, inr,
}
use cagekeeper.Dict.{HashType, IsLawful, Dict, dict_lookup}
use cagekeeper.Dict.Lookup.{dict_lookup-view}
use cagekeeper.Dict.Placed.{IsValid, IsUnique, view}
use cagekeeper.Proxy.Callbacks.{IsText, answer_by, answers_of}
use cagekeeper.Proxy.Parent.{
  FunctionRef, guest_format, has_conversion, Proxy, resp_callback, resp_log, receive, send, report,
  process_callbacks,
}
use cagekeeper.Value.{Value}
use cagekeeper.Wire.{
  write_byte, write_string, write_value, read_byte, max_string_size, max_array_size,
}
use cagekeeper.Wire.Measure.{IsSendable, total}
use cagekeeper.Wire.RoundTrip.{c_string-All, read_string-write_string, read_value-write_value}

module _ (key_type : HashType (List ℕ)) (lawful : IsLawful key_type)
    (host : FunctionRef → Value → Proxy → Option Value × Proxy)
    (run : FunctionRef → Value → Option Value)
    (quiet : (f : FunctionRef) (args : Value) (p : Proxy) → host f args p ≡ (run f args, p)) where
  -- A table of callbacks that finds the functions of `answers`.
  pub record Answers (answers : List ℕ → Value → Option Value)
      (table : Dict (List ℕ) (Option FunctionRef)) : Type 1 where
    pub valid : IsValid key_type table
    pub unique : IsUnique key_type table
    pub agrees :
        (name : List ℕ) (args : Value) → answers name args ≡ answers_of key_type run table name args

  -- A name that has an answer has a function.
  answers-function :
      (table : Dict (List ℕ) (Option FunctionRef)) (name : List ℕ) (args ret : Value)
      → answers_of key_type run table name args ≡ some ret
      → (f : FunctionRef) × (view key_type table name ≡ some (some f)) × (run f args ≡ some ret)
  unfolding answer_by
  answers-function table name args ret e = go (view key_type table name) refl
    where
      go :
          (o : Option (Option FunctionRef))
          → view key_type table name ≡ o
          → (f : FunctionRef) × (view key_type table name ≡ some (some f)) × (run f args ≡ some ret)
      go none z = ground arith
      go (some none) z = ground arith
      go (some (some f)) z = (f, z, ground arith)

  -- A log line without conversions is reported.
  pub process_callbacks-log :
      (f : ℕ) (line rest : List ℕ) (p : Proxy)
      → IsText line
      → has_conversion line ≡ false
      → process_callbacks key_type host
          (suc f)
          (record p { pending = write_byte resp_log ++ (write_string line ++ rest) })
        ≡ process_callbacks key_type host f
            (record p { pending = rest; messages = p.messages ++ guest_format line ∷ [] })
  unfolding process_callbacks receive read_byte write_byte report
  process_callbacks-log f line rest p text plain =
      rw
        (
          read_string-write_string max_string_size line rest (omega arith) (omega arith)
              (inr text.1),
          c_string-All line text.0,
          plain,
        )
        refl

  -- A callback that has an answer is answered, and the table stays what it is.
  pub process_callbacks-callback :
      (answers : List ℕ → Value → Option Value) (f : ℕ) (name : List ℕ) (args ret : Value)
      (rest : List ℕ) (p : Proxy)
      → Answers answers p.callback_functions
      → IsText name
      → IsSendable max_string_size args
      → total args < max_array_size
      → answers name args ≡ some ret
      → (table : Dict (List ℕ) (Option FunctionRef)) × (process_callbacks key_type host
            (suc f)
            (record p {
              pending =
                  write_byte resp_callback ++ (write_string name ++ (write_value args ++ rest));
            })
          ≡ process_callbacks key_type host f (record p {
            pending = rest;
            sent = p.sent ++ write_value ret;
            callback_functions = table;
          }))
        × Answers answers table
        × ((q : List ℕ) → view key_type table q ≡ view key_type p.callback_functions q)
  unfolding process_callbacks receive read_byte write_byte send
  process_callbacks-callback answers f name args ret rest p a text send_ok small e =
      let table = p.callback_functions in
      let d = dict_lookup-view key_type lawful none table name a.valid a.unique in
      let (fn, v, returns) = answers-function table name args ret (sym (a.agrees name args) ∙ e) in
      let found = dict_lookup key_type none table name in
      let is_fn : found.0 ≡ some fn = d.0 ∙ rw v in
      (
        found.1,
        rw
            (
              read_string-write_string max_string_size name (write_value args ++ rest) (omega arith)
                  (omega arith) (inr text.1),
              c_string-All name text.0,
              read_value-write_value args rest send_ok small,
              is_fn,
              quiet fn args _,
              returns,
            )
            refl,
        record {
          valid = d.2;
          unique = d.3;
          agrees = λ n x. a.agrees n x ∙ ap (answer_by run x) (sym (d.1 n));
        },
        d.1,
      )
