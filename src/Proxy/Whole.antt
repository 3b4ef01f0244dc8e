-- ===== src/Proxy/Whole.antt =====
-- A call from end to end: what the program sends is what the sandbox reads, and the other way round.
use cagekeeper.Prelude.{
  ℕ, ◌≡◌, ◌≢◌, ◌<◌, ◌^◌, refl, ◌∙◌, false, Option, some, List, [], ◌∷◌, ◌++◌, append_assoc,
  append-nil, All, length,
}
use cagekeeper.Dict.{HashType, IsLawful}
use cagekeeper.Proxy.Callbacks.{IsAnswered, LogsPlainly, transcript, replies, lines, direct}
use cagekeeper.Proxy.Child.{Interpreter, result, next, child_round}
use cagekeeper.Proxy.Parent.{
  FunctionRef, Proxy, call_function_cmd, resp_return, call_function_proxy,
}
use cagekeeper.Proxy.Rounds.{child_round-call}
use cagekeeper.Proxy.Serving.{Answers}
use cagekeeper.Proxy.Session.{after, call_function_proxy-transcript}
use cagekeeper.Value.{Value}
use cagekeeper.Wire.{write_byte, write_string, write_value, max_array_size, max_string_size}
use cagekeeper.Wire.Measure.{IsSendable, total}
use cagekeeper.Word.{int_max}

module _ (key_type : HashType (List ℕ)) (lawful : IsLawful key_type)
    (host : FunctionRef → Value → Proxy → Option Value × Proxy)
    (run : FunctionRef → Value → Option Value)
    (quiet : (f : FunctionRef) (args : Value) (p : Proxy) → host f args p ≡ (run f args, p)) where
  -- The two ends of one call: the program has read `bytes`, all that the sandbox has
  -- written, and the sandbox has read `sent`, which is
  -- all that the program has sent since `p`.
  pub record IsCall {S : Type 0} (old : Interpreter S) (p : Proxy) (s : S) (name : List ℕ)
      (args v : Value) (bytes : List ℕ) (sent : List ℕ) : Type 0 where
    pub stopped : Proxy
    pub returns :
        call_function_proxy key_type host name args (record p { pending = bytes })
        ≡ some (some v, stopped)
    pub drained : stopped.pending ≡ []
    pub idle : stopped.in_call ≡ false
    pub says : stopped.sent ≡ p.sent ++ sent
    pub guest : S
    pub hears :
        child_round old (record { received = sent; written = []; guest = s })
        ≡ next (record { received = []; written = bytes; guest = guest })

  -- Between the program and the sandbox that runs `old` a call is settled: there are bytes in each
  -- direction such that the program, reading the one, sends the other and returns the value that the
  -- guest's function has when the program's functions are called directly, and the sandbox, reading
  -- the other, writes the one; nothing is left unread, and no call is under way. Its callbacks are
  -- answered, all that is said fits through the pipes, its log lines have no conversion, and the
  -- function comes to a result.
  pub call_function_proxy-child_round :
      {S : Type 0} (old : Interpreter S) (answers : List ℕ → Value → Option Value) (p : Proxy)
      (s : S) (name : List ℕ) (args v : Value)
      → All (λ b. b ≢ 0) name
      → length name < 2 ^ 31
      → IsSendable 0 args
      → total args < int_max
      → IsAnswered answers (old.call_function s (some name) (some args))
      → LogsPlainly answers (old.call_function s (some name) (some args))
      → (direct answers (old.call_function s (some name) (some args))).0 ≡ result (some v)
      → IsSendable max_string_size v
      → total v < max_array_size
      → Answers key_type lawful host run quiet answers p.callback_functions
      → p.in_call ≡ false
      → (bytes : List ℕ) × (sent : List ℕ) × IsCall old p s name args v bytes sent
  unfolding write_byte
  call_function_proxy-child_round old answers p s name args v text short send small h plain e' send'
        small' a idle =
      let r = old.call_function s (some name) (some args) in
      let bytes = transcript answers r ++ resp_return ∷ (write_value v ++ []) in
      let said = write_byte call_function_cmd ++ (write_string name ++ write_value args) in
      let sent =
        call_function_cmd
        ∷ (write_string name ++ (write_value args ++ (replies answers r ++ []))) in
      let (table, e, a', same) =
        call_function_proxy-transcript key_type lawful host run quiet answers r name args v p [] h
          plain a idle send' small' in
      (
        bytes,
        sent,
        record {
          stopped =
              after key_type lawful host run quiet
                (record p { sent = p.sent ++ said; expired = false }) [] (replies answers r)
                (lines answers r) table;
          returns = e;
          drained = refl;
          idle = idle;
          says = simp (append_assoc, append-nil);
          guest = (direct answers r).1;
          hears =
              child_round-call old answers name args (some v) [] [] s text short send small h e'
              ∙ simp (append_assoc, append-nil);
        },
      )
