-- ===== src/Tests/Sessions.antt =====
-- A session with a sandbox at concrete commands: a function, a constant, a script, a question and a
-- call whose function calls back.
use cagekeeper.Prelude.{
  ℕ, ◌≡◌, ◌≢◌, ◌<◌, ◌^◌, All, refl, true, false, none, some, List, [], ◌∷◌, arith,
}
use cagekeeper.Dict.{charptr_equals, strings_equal}
use cagekeeper.Dict.Placed.{view}
use cagekeeper.Dict.Presence.{dict_init-view}
use cagekeeper.Proxy.Callbacks.{IsAnswered, LogsPlainly, direct}
use cagekeeper.Proxy.Child.{
  Child, Interpreter, done, log, stops, result, never_ends, crash, child_round, round_command,
  round_is_function, round_compile, run_operation, run_guest, take, write,
}
use cagekeeper.Proxy.Commands.{
  Command, constant, function, compile, is_function, call, World, IsAccepted, AreAccepted, perform,
  received_all, said_all, perform_all,
}
use cagekeeper.Proxy.Definitions.{
  Definition, IsTable, define_all, define_all-Answers, answer_first, first_defined,
}
use cagekeeper.Proxy.Faithful.{AreReturned, IsSession, issue_all-child_loop}
use cagekeeper.Proxy.Operations.{IsServed, IsReturned}
use cagekeeper.Proxy.Loop.{IsOver, left, stopped_in, child_loop, child_loop-IsOver}
use cagekeeper.Proxy.Parent.{FunctionRef, Proxy, has_conversion}
use cagekeeper.Proxy.Serving.{Answers}
use cagekeeper.Tests.Commands.{
  names, names-IsLawful, no_functions, no_functions-IsValid, no_functions-IsUnique, host,
  run_function, interpreter, parent,
}
use cagekeeper.Value.{int32, array, nil, count_items}
use cagekeeper.Wire.{
  read_byte, read_bytes, read_word, refuses_length, read_string, write_byte, write_string,
}
use cagekeeper.Wire.Measure.{IsSendable, total}
use cagekeeper.Word.{is_negative, word_at, word_bytes}

abbrev pub fresh : Proxy
fresh = record parent { in_call = false; callback_functions = no_functions }

pub empty-IsTable : IsTable names names-IsLawful no_functions
empty-IsTable = record { valid = no_functions-IsValid; unique = no_functions-IsUnique }

pub empty-view : (q : List ℕ) → view names no_functions q ≡ none
empty-view q = dict_init-view names 1 q

abbrev world : World ℕ
world = record { functions = λ q. none; guest = 0 }

world-IsServed :
    IsServed names names-IsLawful host run_function
      (λ f args p. refl)
      interpreter
      world
      no_functions
world-IsServed = record { table = empty-IsTable; finds = empty-view }

abbrev pub first_f : FunctionRef
first_f = record { address = 1; num_params = 1 }

abbrev session : List Command
session =
    function (102 ∷ []) first_f
    ∷ constant (120 ∷ []) (int32 3)
    ∷ compile (115 ∷ [])
    ∷ is_function (103 ∷ [])
    ∷ call (103 ∷ []) (array nil)
    ∷ []

session-AreAccepted : AreAccepted interpreter names.equals run_function world session
unfolding AreAccepted IsAccepted perform direct IsAnswered LogsPlainly has_conversion IsSendable
    total count_items charptr_equals strings_equal
session-AreAccepted =
    let name : (n : ℕ) → 0 < n → All (λ b. b ≢ 0) (n ∷ []) × (1 < 2 ^ 31) =
      λ n lt. ((omega arith, tt), omega arith) in
    (
      (name 102 (omega arith), record { value = tt; guest = 0; returns = refl }),
      (
        (
          name 120 (omega arith),
          (omega arith, omega arith),
          record { value = tt; guest = 1; returns = refl },
        ),
        (
          (
            name 115 (omega arith),
            record { answered = tt; plain = tt; value = true; returns = refl },
          ),
          (
            (name 103 (omega arith), record { value = true; guest = 2; returns = refl }),
            (
              (
                name 103 (omega arith),
                (tt, omega arith),
                record {
                  answered = (
                    ((omega arith, (omega arith, tt)), omega arith),
                    (
                      ((omega arith, tt), omega arith),
                      tt,
                      omega arith,
                      (int32 42, refl, omega arith, omega arith),
                      tt,
                    ),
                  );
                  plain = (refl, tt);
                  value = some (int32 42);
                  returns = refl;
                },
              ),
              tt,
            ),
          ),
        ),
      ),
    )

session-AreReturned :
    AreReturned names names-IsLawful host run_function (λ f args p. refl) interpreter world session
unfolding AreReturned IsReturned perform direct IsSendable total
session-AreReturned = (tt, (tt, (tt, (tt, ((int32 42, refl, omega arith, omega arith), tt)))))

issue_all-child_loop_example :
    IsSession names names-IsLawful host run_function
      (λ f args p. refl)
      interpreter
      world
      session
      (record fresh { pending = said_all interpreter names.equals run_function world session })
    × (child_loop interpreter 6 (record {
      received = received_all interpreter names.equals run_function world session;
      written = [];
      guest = 0;
    })
        ≡ left (record {
          received = [];
          written = said_all interpreter names.equals run_function world session;
          guest = (perform_all interpreter names.equals run_function world session).guest;
        }))
issue_all-child_loop_example =
    issue_all-child_loop names names-IsLawful host run_function (λ f args p. refl) interpreter
      session world fresh 6 session-AreAccepted session-AreReturned world-IsServed refl
      (omega arith)

-- A script that never ends, and an interpreter that crashes on a function without a name.
abbrev hanging : Interpreter ℕ
hanging = record interpreter {
  compile_script = λ s script. log (104 ∷ []) (done (stops never_ends) s);
  call_function =
      λ s name args. elim name [ none ↦ done (stops crash) s | some n ↦ done (result none) s ];
}

-- An unknown command, a question, and a script; behind it is what is never read.
abbrev hangs : Child ℕ
hangs = record {
  received = 9 ∷ 4 ∷ 1 ∷ 0 ∷ 0 ∷ 0 ∷ 103 ∷ 3 ∷ 1 ∷ 0 ∷ 0 ∷ 0 ∷ 115 ∷ 5 ∷ [];
  written = [];
  guest = 0;
}

child_loop-IsOver_example : IsOver hanging (child_loop hanging 15 hangs)
child_loop-IsOver_example = child_loop-IsOver hanging 15 hangs (omega arith)

hangs_in_script :
    child_loop hanging 15 hangs
    ≡ stopped_in never_ends
        (record { received = 5 ∷ []; written = 1 ∷ 13 ∷ 1 ∷ 0 ∷ 0 ∷ 0 ∷ 104 ∷ []; guest = 1 })
unfolding child_loop child_round round_command round_is_function round_compile run_operation
    run_guest take write read_byte read_string read_word read_bytes refuses_length is_negative
    word_at write_byte write_string word_bytes
hangs_in_script = refl

abbrev definitions : List Definition
definitions =
    (102 ∷ [], first_f)
    ∷ (103 ∷ [], record { address = 2; num_params = 0 })
    ∷ (102 ∷ [], record { address = 3; num_params = 2 })
    ∷ []

define_all-Answers_example :
    Answers names names-IsLawful host run_function
      (λ f args p. refl)
      (λ name args.
        answer_first names names-IsLawful run_function args (first_defined names definitions name))
      (define_all names definitions fresh).callback_functions
define_all-Answers_example =
    define_all-Answers names names-IsLawful host run_function (λ f args p. refl) definitions fresh
      empty-IsTable empty-view
