-- ===== src/Tests/Commands.antt =====
-- language_proxy.c at a concrete command: the guest writes a line and calls one function.
use cagekeeper.Prelude.{
  ℕ, suc, ◌≡◌, ◌<◌, refl, true, false, Option, none, some, List, [], ◌∷◌, ◌++◌, length, arith,
}
use cagekeeper.Dict.{
  HashType, IsLawful, Dict, charptr_type, charptr_equals, charptr_hash, strings_equal, hash_block,
  dict_init, dict_put, push,
}
use cagekeeper.Dict.Chain.{find, count, weight}
use cagekeeper.Dict.Checksum.{charptr_type-IsLawful}
use cagekeeper.Dict.Placed.{IsValid, IsUnique, view}
use cagekeeper.Dict.Update.{dict_init-IsValid}
use cagekeeper.Proxy.Callbacks.{
  IsAnswered, transcript, replies, direct, run_guest-direct, answer_by, answers_of,
}
use cagekeeper.Proxy.Guard.{call_function_proxy_stuck}
use cagekeeper.Proxy.Child.{Interpreter, Ending, result, Run, done, callback, log, run_guest}
use cagekeeper.Proxy.Parent.{
  guest_format, report, reentered, serve, receive, FunctionRef, Proxy, served, process_callbacks,
  call_function_cmd, call_function_proxy,
}
use cagekeeper.Proxy.Turns.{Pair, running, waiting, callback_message, Who, the_program, the_sandbox}
use cagekeeper.Value.{Value, int32, array, nil, count_items}
use cagekeeper.Wire.{
  read_byte, write_byte, write_string, write_value, max_array_size, max_string_size,
}
use cagekeeper.Wire.Measure.{IsSendable, total}
use cagekeeper.Word.{int_max, word_bytes}
use mathlib.Core.List.{flatten}

-- names, which are never null
abbrev pub names : HashType (List ℕ)
names = record {
  equals = λ a b. charptr_type.equals (some a) (some b);
  hash = λ a. charptr_type.hash (some a);
  dup = λ a. a;
}

pub names-IsLawful : IsLawful names
names-IsLawful = record {
  refl_lem = λ a. charptr_type-IsLawful.refl_lem (some a);
  symm = λ a b. charptr_type-IsLawful.symm (some a) (some b);
  trans = λ a b c. charptr_type-IsLawful.trans (some a) (some b) (some c);
  hash-equals = λ a b. charptr_type-IsLawful.hash-equals (some a) (some b);
  equals-dup = λ a. charptr_type-IsLawful.refl_lem (some a);
}

abbrev pub no_functions : Dict (List ℕ) (Option FunctionRef)
no_functions = dict_init 1

abbrev pub table : Dict (List ℕ) (Option FunctionRef)
table = dict_put names no_functions (102 ∷ []) (some (record { address = 1; num_params = 1 }))

-- Every function of the program returns 42.
abbrev pub run_function : FunctionRef → Value → Option Value
run_function f args = some (int32 42)

abbrev pub host : FunctionRef → Value → Proxy → Option Value × Proxy
host f args p = (run_function f args, p)

abbrev answers : List ℕ → Value → Option Value
answers = answers_of names run_function table

pub no_functions-IsValid : IsValid names no_functions
no_functions-IsValid = dict_init-IsValid names names-IsLawful 1

pub no_functions-IsUnique : IsUnique names no_functions
unfolding dict_init count weight flatten
no_functions-IsUnique q = omega arith

name_answer : answers (102 ∷ []) (array nil) ≡ some (int32 42)
unfolding view find dict_init dict_put push charptr_equals charptr_hash strings_equal hash_block
    answer_by
name_answer = refl

-- The guest writes "hi", calls "f" and ends.
abbrev guest_run : Run ℕ ℕ
guest_run = log (104 ∷ 105 ∷ []) (callback (102 ∷ []) (array nil) (λ ret. done 5 6))

no_items : (IsSendable max_string_size (array nil)) × (total (array nil) < max_array_size)
unfolding IsSendable total count_items
no_items = (tt, omega arith)

number-IsSendable : (IsSendable 0 (int32 42)) × (total (int32 42) < int_max)
unfolding IsSendable total
number-IsSendable = (omega arith, omega arith)

guest_run-IsAnswered : IsAnswered answers guest_run
unfolding IsAnswered
guest_run-IsAnswered = (
  ((omega arith, (omega arith, tt)), omega arith),
  (
    ((omega arith, tt), omega arith),
    no_items.0,
    no_items.1,
    (int32 42, name_answer, number-IsSendable.0, number-IsSendable.1),
    tt,
  ),
)

run_guest-direct_example :
    run_guest guest_run
      (record { received = replies answers guest_run ++ 9 ∷ []; written = 1 ∷ []; guest = 0 })
    ≡ (
      (direct answers guest_run).0,
      record {
        received = 9 ∷ [];
        written = 1 ∷ transcript answers guest_run;
        guest = (direct answers guest_run).1;
      },
    )
run_guest-direct_example =
    run_guest-direct answers guest_run (9 ∷ []) (1 ∷ []) 0 guest_run-IsAnswered

abbrev pub parent : Proxy
parent = record {
  sent = [];
  pending = [];
  silent = false;
  expired = false;
  timeout = false;
  in_call = true;
  callback_functions = table;
  messages = [];
}

few_bytes : length (transcript answers guest_run) < 40
unfolding transcript write_byte write_string write_value word_bytes count_items
few_bytes = omega arith

abbrev idle_parent : Proxy
idle_parent = record parent { in_call = false }

result-IsSendable : (IsSendable max_string_size (int32 42)) × (total (int32 42) < max_array_size)
unfolding IsSendable total
result-IsSendable = (omega arith, omega arith)

-- an interpreter in which every call of a function makes the run above, and gives 42
abbrev pub calling_run : Run ℕ (Ending (Option Value))
calling_run =
    log (104 ∷ 105 ∷ [])
      (callback (102 ∷ []) (array nil) (λ ret. done (result (some (int32 42))) 6))

abbrev pub interpreter : Interpreter ℕ
interpreter = record {
  define_constant = λ s name v. done (result tt) (suc s);
  define_function = λ s name n. done (result tt) s;
  compile_script = λ s script. done (result true) s;
  is_function = λ s name. done (result true) (suc s);
  call_function = λ s name args. calling_run;
}

calling_run-IsAnswered : IsAnswered answers calling_run
unfolding IsAnswered
calling_run-IsAnswered = (
  ((omega arith, (omega arith, tt)), omega arith),
  (
    ((omega arith, tt), omega arith),
    no_items.0,
    no_items.1,
    (int32 42, name_answer, number-IsSendable.0, number-IsSendable.1),
    tt,
  ),
)

empty-IsSendable : (IsSendable 0 (array nil)) × (total (array nil) < int_max)
unfolding IsSendable total count_items
empty-IsSendable = (tt, omega arith)

-- The call is under way, and the pipe ends.
abbrev cut_off : Proxy
cut_off = record idle_parent {
  sent =
      [] ++ (write_byte call_function_cmd ++ (write_string (103 ∷ []) ++ write_value (array nil)));
  expired = false;
  in_call = true;
}

cut_off_fails :
    process_callbacks names host (suc (length {A = ℕ} [])) cut_off ≡ served false cut_off
unfolding process_callbacks serve receive read_byte
cut_off_fails = refl

call_function_proxy_stuck_example :
    (stuck : Proxy) × (call_function_proxy names host (103 ∷ []) (array nil) idle_parent
      ≡ some (none, stuck))
    × (stuck.in_call ≡ true)
    × ((name' : List ℕ) (args' : Value)
        → call_function_proxy names host name' args' stuck
          ≡ some (
            none,
            report reentered (record stuck {
              sent =
                  stuck.sent
                  ++ (write_byte call_function_cmd ++ (write_string name' ++ write_value args'));
              expired = false;
            }),
          ))
call_function_proxy_stuck_example =
    call_function_proxy_stuck names host (λ f args p. refl) (103 ∷ []) (array nil) idle_parent
      cut_off refl cut_off_fails

calling_run-direct : (direct answers calling_run).0 ≡ result (some (int32 42))
unfolding direct
calling_run-direct = refl

-- The sandbox writes ahead, and the program catches up.
abbrev some_turns : List Who
some_turns = the_sandbox ∷ the_sandbox ∷ the_program ∷ []

abbrev begun : Pair ℕ ℕ
begun = record { program = record parent { pending = []; sent = [] }; sandbox = running guest_run }

abbrev after_turns : Pair ℕ ℕ
after_turns = record {
  program = record parent {
    pending = callback_message (102 ∷ []) (array nil);
    sent = [];
    messages = guest_format (104 ∷ 105 ∷ []) ∷ [];
  };
  sandbox = waiting (λ ret. done 5 6);
}
