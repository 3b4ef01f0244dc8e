-- ===== src/Proxy/Moves.antt =====
-- Each turn that can be taken leads one turn nearer to the same end.
use cagekeeper.Prelude.{
  ℕ, suc, ◌≡◌, refl, sym, ap, ◌∙◌, Option, none, some, List, [], ◌∷◌, ◌++◌, append_assoc,
  append-nil, length-append, arith,
}
use cagekeeper.Dict.{HashType, IsLawful}
use cagekeeper.Proxy.Callbacks.{IsAnswered, LogsPlainly, direct}
use cagekeeper.Proxy.Child.{Run, done, callback, log}
use cagekeeper.Proxy.Parent.{
  FunctionRef, Proxy, process_callbacks, resp_return, resp_log, resp_callback, serve, receive,
  guest_format,
}
use cagekeeper.Proxy.Places.{
  IsLine, Place, busy, asked, told, over, log_messages, log_messages-snoc, All-snoc, turns_left,
  pair_at, IsGood, left_at, end_of,
}
use cagekeeper.Proxy.Serving.{Answers, process_callbacks-log, process_callbacks-callback}
use cagekeeper.Proxy.Turns.{
  Sandbox, running, waiting, ended, Pair, log_message, callback_message, goes_on, sandbox_turn,
  next_round, program_turn,
}
use cagekeeper.Value.{Value}
use cagekeeper.Wire.{write_byte, write_string, write_value, read_byte, read_value_nolimit}
use cagekeeper.Wire.Leaving.{read_value_nolimit-nil}
use cagekeeper.Wire.RoundTrip.{read_value_nolimit-write_value}

module _ (key_type : HashType (List ℕ)) (lawful : IsLawful key_type)
    (host : FunctionRef → Value → Proxy → Option Value × Proxy)
    (run : FunctionRef → Value → Option Value)
    (quiet : (f : FunctionRef) (args : Value) (p : Proxy) → host f args p ≡ (run f args, p))
    {S A : Type 0} (answers : List ℕ → Value → Option Value) (result : A → List ℕ) where
  abbrev pub at : Place S A → Proxy → Pair S A
  at pl p = pair_at answers result pl p

  -- A turn leads to another place, which is one turn nearer to the same end.
  pub record Goes (pl : Place S A) (o : Option (Pair S A)) : Type 1 where
    pub place : Place S A
    pub proxy : Proxy
    pub lands : o ≡ some (at place proxy)
    pub good : IsGood answers result place
    pub counts : suc (left_at answers result place) ≡ left_at answers result pl
    pub ends : end_of answers result place ≡ end_of answers result pl
    pub table : Answers key_type lawful host run quiet answers proxy.callback_functions

  pub data Move (pl : Place S A) (o : Option (Pair S A)) : Type 1 where
    blocked : o ≡ none → Move pl o
    goes : Goes pl o → Move pl o

  pub busy-Goes :
      (ls : List (List ℕ)) (r : Run S A) (p : Proxy)
      → IsGood answers result (busy ls r)
      → Answers key_type lawful host run quiet answers p.callback_functions
      → Goes (busy ls r) (sandbox_turn result (at (busy ls r) p))
  unfolding sandbox_turn pair_at IsGood left_at end_of turns_left IsAnswered LogsPlainly direct
  busy-Goes ls (done a g) p h t = record {
    place = over ls a g;
    proxy = p;
    lands = refl;
    good = h.0;
    counts = omega arith;
    ends = refl;
    table = t;
  }
  busy-Goes ls (log line r) p h t = record {
    place = busy (ls ++ line ∷ []) r;
    proxy = p;
    lands =
        ap
          (λ bytes.
            some
              (record { program = record p { pending = bytes; sent = [] }; sandbox = running r }))
          (sym (log_messages-snoc ls line));
    good = (All-snoc ls line h.0 (h.1.0, h.2.0), h.1.1, h.2.1);
    counts = omega (arith, length-append ls (line ∷ []));
    ends = refl;
    table = t;
  }
  busy-Goes ls (callback name args k) p h t = record {
    place = asked ls name args k;
    proxy = p;
    lands = refl;
    good = h;
    counts = omega arith;
    ends = refl;
    table = t;
  }

  pub told-Goes :
      (ret : Value) (k : Option Value → Run S A) (p : Proxy)
      → IsGood answers result (told ret k)
      → Answers key_type lawful host run quiet answers p.callback_functions
      → Goes (told ret k) (sandbox_turn result (at (told ret k) p))
  unfolding sandbox_turn pair_at IsGood left_at end_of log_messages
  told-Goes ret k p h t = record {
    place = busy [] (k (some ret));
    proxy = p;
    lands = ap (goes_on k (record p { pending = []; sent = write_value ret })) (
        ap read_value_nolimit (sym (append-nil (write_value ret)))
        ∙ read_value_nolimit-write_value ret [] h.0 h.1);
    good = (tt, h.2, h.3);
    counts = omega arith;
    ends = refl;
    table = t;
  }

  -- The program reads a log line.
  pub log_turn :
      (line rest : List ℕ) (p : Proxy) (sandbox : Sandbox S A)
      → IsLine line
      → program_turn key_type host
          (record { program = record p { pending = log_message line ++ rest }; sandbox = sandbox })
        ≡ some (record {
          program = record p { pending = rest; messages = p.messages ++ guest_format line ∷ [] };
          sandbox = sandbox;
        })
  unfolding program_turn process_callbacks
  log_turn line rest p sandbox text =
      ap
        (λ bytes.
          next_round sandbox (process_callbacks key_type host 1 (record p { pending = bytes })))
        (append_assoc (write_byte resp_log) (write_string line) rest)
      ∙ ap (next_round sandbox)
          (process_callbacks-log key_type lawful host run quiet 0 line rest p text.0 text.1)

  -- a program that has read a log line stands at the next place
  line-Goes :
      (pl pl' : Place S A) (line rest : List ℕ) (sandbox : Sandbox S A) (p : Proxy)
      → at pl p ≡ record {
        program = record p { pending = log_message line ++ rest; sent = [] };
        sandbox = sandbox;
      }
      → ((q : Proxy)
          → at pl' q
            ≡ record { program = record q { pending = rest; sent = [] }; sandbox = sandbox })
      → IsLine line
      → IsGood answers result pl'
      → suc (left_at answers result pl') ≡ left_at answers result pl
      → end_of answers result pl' ≡ end_of answers result pl
      → Answers key_type lawful host run quiet answers p.callback_functions
      → Goes pl (program_turn key_type host (at pl p))
  line-Goes pl pl' line rest sandbox p from to text good counts ends t =
      let p' = record p { messages = p.messages ++ guest_format line ∷ [] } in
      record {
        place = pl';
        proxy = p';
        lands =
            ap (program_turn key_type host) from
            ∙ log_turn line rest (record p { sent = [] }) sandbox text
            ∙ ap some (sym (to p'));
        good = good;
        counts = counts;
        ends = ends;
        table = t;
      }

  pub asked-Goes :
      (name : List ℕ) (args : Value) (k : Option Value → Run S A) (p : Proxy)
      → IsGood answers result (asked [] name args k)
      → Answers key_type lawful host run quiet answers p.callback_functions
      → Goes (asked [] name args k) (program_turn key_type host (at (asked [] name args k) p))
  unfolding program_turn pair_at IsGood left_at end_of log_messages IsAnswered LogsPlainly
      process_callbacks
  asked-Goes name args k p h t =
      let (text, send_ok, small, (ret, e, reply_ok, reply_small), more) = h.1 in
      let plain = h.2 in
      let (table, turn, t', same) =
        process_callbacks-callback key_type lawful host run quiet answers 0 name args ret []
          (record p { sent = [] }) t text send_ok small e in
      record {
        place = told ret k;
        proxy = record p { callback_functions = table };
        lands =
            ap
              (λ bytes. next_round (waiting k) (
                process_callbacks key_type host 1 (record p {
                  pending = write_byte resp_callback ++ (write_string name ++ bytes);
                  sent = [];
                })))
              (sym (append-nil (write_value args)))
            ∙ ap (next_round (waiting k)) turn;
        good = (reply_ok, reply_small, rw e at more, rw e at plain);
        counts = omega (arith, ap (λ o. turns_left answers result (k o)) e);
        ends = ap (λ o. direct answers (k o)) (sym e);
        table = t';
      }

  pub asked_line-Goes :
      (l : List ℕ) (ls : List (List ℕ)) (name : List ℕ) (args : Value) (k : Option Value → Run S A)
      (p : Proxy)
      → IsGood answers result (asked (l ∷ ls) name args k)
      → Answers key_type lawful host run quiet answers p.callback_functions
      → Goes
          (asked (l ∷ ls) name args k)
          (program_turn key_type host (at (asked (l ∷ ls) name args k) p))
  unfolding pair_at IsGood left_at end_of log_messages
  asked_line-Goes l ls name args k p h t =
      line-Goes (asked (l ∷ ls) name args k) (asked ls name args k) l
        (log_messages ls ++ callback_message name args) (waiting k) p
        (ap
          (λ bytes. record {
            program = record p { pending = bytes; sent = [] };
            sandbox = waiting k;
          })
          (append_assoc (log_message l) (log_messages ls) (callback_message name args)))
        (λ q. refl) h.0.0 (h.0.1, h.1, h.2) (omega arith) refl t

  pub over_line-Goes :
      (l : List ℕ) (ls : List (List ℕ)) (a : A) (g : S) (p : Proxy)
      → IsGood answers result (over (l ∷ ls) a g)
      → Answers key_type lawful host run quiet answers p.callback_functions
      → Goes (over (l ∷ ls) a g) (program_turn key_type host (at (over (l ∷ ls) a g) p))
  unfolding pair_at IsGood left_at end_of log_messages
  over_line-Goes l ls a g p h t =
      line-Goes (over (l ∷ ls) a g) (over ls a g) l (log_messages ls ++ resp_return ∷ result a)
        (ended a g) p
        (ap
          (λ bytes. record {
            program = record p { pending = bytes; sent = [] };
            sandbox = ended a g;
          })
          (append_assoc (log_message l) (log_messages ls) (resp_return ∷ result a)))
        (λ q. refl) h.0 h.1 (omega arith) refl t

  pub program-Move :
      (pl : Place S A) (p : Proxy)
      → IsGood answers result pl
      → Answers key_type lawful host run quiet answers p.callback_functions
      → Move pl (program_turn key_type host (at pl p))
  unfolding pair_at IsGood left_at end_of log_messages program_turn process_callbacks serve receive
      read_byte
  program-Move (busy [] r) p h t = blocked refl
  program-Move (busy (l ∷ ls) r) p h t = goes (
      line-Goes (busy (l ∷ ls) r) (busy ls r) l (log_messages ls) (running r) p refl (λ q. refl)
        h.0.0 (h.0.1, h.1, h.2) (omega arith) refl t)
  program-Move (asked [] name args k) p h t = goes (asked-Goes name args k p h t)
  program-Move (asked (l ∷ ls) name args k) p h t = goes (asked_line-Goes l ls name args k p h t)
  program-Move (told ret k) p h t = blocked refl
  program-Move (over [] a g) p h t = blocked refl
  program-Move (over (l ∷ ls) a g) p h t = goes (over_line-Goes l ls a g p h t)

  pub sandbox-Move :
      (pl : Place S A) (p : Proxy)
      → IsGood answers result pl
      → Answers key_type lawful host run quiet answers p.callback_functions
      → Move pl (sandbox_turn result (at pl p))
  unfolding pair_at sandbox_turn
  sandbox-Move (busy ls r) p h t = goes (busy-Goes ls r p h t)
  sandbox-Move (asked ls name args k) p h t =
      blocked (ap (goes_on k (at (asked ls name args k) p).program) read_value_nolimit-nil)
  sandbox-Move (told ret k) p h t = goes (told-Goes ret k p h t)
  sandbox-Move (over ls a g) p h t = blocked refl
