-- ===== src/Proxy/Session.antt =====
-- A command as both ends see it: the program serves the callbacks of the run that the sandbox makes.
use cagekeeper.Prelude.{
  ℕ, zero, suc, ◌<◌, ◌≡◌, refl, ap, ◌∙◌, true, false, Option, some, List, [], ◌∷◌, ◌++◌,
  append_assoc, append-nil, length, length-append, arith,
}
use cagekeeper.Dict.{HashType, IsLawful, Dict}
use cagekeeper.Dict.Placed.{view}
use cagekeeper.Proxy.Callbacks.{IsAnswered, LogsPlainly, transcript, reply_bytes, replies, lines}
use cagekeeper.Proxy.Child.{Run, done, callback, log}
use cagekeeper.Proxy.Parent.{
  FunctionRef, Message, guest_format, Proxy, resp_return, receive, served, send, report,
  process_callbacks, call_function_cmd, call_function_proxy, start_timer, after_call, call_result,
}
use cagekeeper.Proxy.Serving.{Answers, process_callbacks-log, process_callbacks-callback}
use cagekeeper.Value.{Value}
use cagekeeper.Wire.{
  write_byte, write_string, write_value, read_byte, max_string_size, max_array_size,
}
use cagekeeper.Wire.Measure.{IsSendable, total}
use cagekeeper.Wire.RoundTrip.{read_value-write_value}

module _ (key_type : HashType (List ℕ)) (lawful : IsLawful key_type)
    (host : FunctionRef → Value → Proxy → Option Value × Proxy)
    (run : FunctionRef → Value → Option Value)
    (quiet : (f : FunctionRef) (args : Value) (p : Proxy) → host f args p ≡ (run f args, p)) where
  -- What is left of the program's end when the run is over.
  abbrev pub after :
      Proxy → List ℕ → List ℕ → List Message → Dict (List ℕ) (Option FunctionRef) → Proxy
  after p tail sent said table = record p {
    pending = tail;
    sent = p.sent ++ sent;
    messages = p.messages ++ said;
    callback_functions = table;
  }

  module _ {S A : Type 0} (answers : List ℕ → Value → Option Value) where
    -- On the transcript of a run whose callbacks are answered and fit and whose log lines have no
    -- conversion, with functions that leave the proxy alone and more rounds than the transcript has bytes, the program serves the command: it
    -- sends the replies that the run reads, logs its lines, stops behind RESP_RETURN, and keeps a
    -- table in which each name has the same function.
    pub process_callbacks-transcript :
        (r : Run S A) (f : ℕ) (p : Proxy) (tail : List ℕ)
        → IsAnswered answers r
        → LogsPlainly answers r
        → Answers key_type lawful host run quiet answers p.callback_functions
        → length (transcript answers r) < f
        → (table : Dict (List ℕ) (Option FunctionRef)) × (process_callbacks key_type host f
              (record p { pending = transcript answers r ++ resp_return ∷ tail })
            ≡ served true (after p tail (replies answers r) (lines answers r) table))
          × Answers key_type lawful host run quiet answers table
          × ((q : List ℕ) → view key_type table q ≡ view key_type p.callback_functions q)
    unfolding transcript replies lines IsAnswered LogsPlainly process_callbacks receive read_byte
        write_byte send report
    process_callbacks-transcript r zero p tail h plain a lt = absurd (omega arith)
    process_callbacks-transcript (done x s) (suc f) p tail h plain a lt =
        (p.callback_functions, rw (append-nil p.sent, append-nil p.messages), a, λ q. refl)
    process_callbacks-transcript (log line r) (suc f) p tail h plain a lt =
        let p₁ = record p { messages = p.messages ++ guest_format line ∷ [] } in
        let short_enough : length (transcript answers r) < f =
          omega (arith, length-append (write_string line) (transcript answers r)) in
        let (table, e, a', same) =
          process_callbacks-transcript r f p₁ tail h.1 plain.1 a short_enough in
        (
          table,
          rw (append_assoc (write_string line) (transcript answers r) (resp_return ∷ tail)) (
              process_callbacks-log key_type lawful host run quiet f line
                (transcript answers r ++ resp_return ∷ tail) p h.0 plain.0
              ∙ e
              ∙ simp append_assoc),
          a',
          same,
        )
    process_callbacks-transcript (callback name args k) (suc f) p tail h plain a lt =
        let (ret, e, send_ok, small) = h.3 in
        let more = transcript answers (k (answers name args)) in
        let rest = more ++ resp_return ∷ tail in
        let (table, e₁, a₁, same₁) =
          process_callbacks-callback key_type lawful host run quiet answers f name args ret rest p a
            h.0 h.1 h.2 e in
        let p₁ = record p { sent = p.sent ++ write_value ret; callback_functions = table } in
        let short_enough : length more < f = omega (
          arith,
          length-append (write_string name) (write_value args ++ more),
          length-append (write_value args) more,
        ) in
        let (table', e', a', same) =
          process_callbacks-transcript (k (answers name args)) f p₁ tail h.4 plain a₁
            short_enough in
        (
          table',
          rw
              (
                append_assoc (write_string name) (write_value args ++ more) (resp_return ∷ tail),
                append_assoc (write_value args) more (resp_return ∷ tail),
              )
              (e₁ ∙ e' ∙ rw (ap reply_bytes e) (simp append_assoc)),
          a',
          λ q. same q ∙ same₁ q,
        )

    -- Where the transcript of a run whose callbacks are answered and fit and whose log lines have no
    -- conversion arrives, and a value within
    -- the limits behind it, with functions that leave the proxy alone and no command under way,
    -- call_function_proxy returns that value, leaves no command under way, has sent the command and
    -- the replies, and stops behind the value.
    pub call_function_proxy-transcript :
        (r : Run S A) (name : List ℕ) (args v : Value) (p : Proxy) (tail : List ℕ)
        → IsAnswered answers r
        → LogsPlainly answers r
        → Answers key_type lawful host run quiet answers p.callback_functions
        → p.in_call ≡ false
        → IsSendable max_string_size v
        → total v < max_array_size
        → (table : Dict (List ℕ) (Option FunctionRef)) × (call_function_proxy key_type host name
              args
              (record p { pending = transcript answers r ++ resp_return ∷ (write_value v ++ tail) })
            ≡ some (
              some v,
              after
                  (record p {
                    sent =
                        p.sent
                        ++ (write_byte call_function_cmd
                            ++ (write_string name ++ write_value args));
                    expired = false;
                  })
                  tail
                  (replies answers r)
                  (lines answers r)
                  table,
            ))
          × Answers key_type lawful host run quiet answers table
          × ((q : List ℕ) → view key_type table q ≡ view key_type p.callback_functions q)
    unfolding call_function_proxy start_timer send after_call call_result receive
    call_function_proxy-transcript r name args v p tail h plain a idle send_ok small =
        let bytes = transcript answers r ++ resp_return ∷ (write_value v ++ tail) in
        let p₁ = record p {
          sent =
              p.sent ++ (write_byte call_function_cmd ++ (write_string name ++ write_value args));
          expired = false;
          in_call = true;
        } in
        let (table, e, a', same) =
          process_callbacks-transcript r (suc (length bytes)) p₁ (write_value v ++ tail) h plain a (
            omega (
              arith,
              length-append (transcript answers r) (resp_return ∷ (write_value v ++ tail)),
            )) in
        (table, rw (idle, e, read_value-write_value v tail send_ok small) refl, a', same)
