-- ===== src/Proxy/Operations.antt =====
-- The program's operations as commands, and what it holds of the functions that are defined.
use cagekeeper.Prelude.{ℕ, ◌<◌, ◌≡◌, refl, sym, ap, ◌∙◌, Bool, Option, none, some, List, [], ◌∷◌}
use cagekeeper.Dict.{HashType, IsLawful, Dict}
use cagekeeper.Dict.Placed.{view}
use cagekeeper.Proxy.Callbacks.{direct, answer_by}
use cagekeeper.Proxy.Child.{Interpreter}
use cagekeeper.Proxy.Commands.{
  Command, constant, function, compile, is_function, call, World, Reply, nothing, truth, value,
  answers, called, given,
}
use cagekeeper.Proxy.Definitions.{or_first, IsTable}
use cagekeeper.Proxy.Parent.{
  FunctionRef, Proxy, define_constant_proxy, define_function_proxy, compile_script_proxy,
  is_function_proxy, call_function_proxy,
}
use cagekeeper.Proxy.Serving.{Answers}
use cagekeeper.Value.{Value}
use cagekeeper.Wire.{max_string_size, max_array_size}
use cagekeeper.Wire.Measure.{IsSendable, total}

module _ (key_type : HashType (List ℕ))
    (host : FunctionRef → Value → Proxy → Option Value × Proxy) where
  abbrev pub truth_result : Option (Bool × Proxy) → Option (Reply × Proxy)
  truth_result none = none
  truth_result (some (b, p)) = some (truth b, p)

  abbrev pub value_result : Option (Option Value × Proxy) → Option (Reply × Proxy)
  value_result none = none
  value_result (some (v, p)) = some (value v, p)

  -- The program's operation of a command.
  unfoldable pub issue : Command → Proxy → Option (Reply × Proxy)
  issue (constant name v) p = some (nothing, define_constant_proxy name v p)
  issue (function name f) p = some (nothing, define_function_proxy key_type name f p)
  issue (compile script) p = truth_result (compile_script_proxy key_type host script p)
  issue (is_function name) p = truth_result (some (is_function_proxy key_type host name p))
  issue (call name args) p = value_result (call_function_proxy key_type host name args p)

  abbrev pub push_reply : Reply → Option (List Reply × Proxy) → Option (List Reply × Proxy)
  push_reply r none = none
  push_reply r (some (rs, p)) = some (r ∷ rs, p)

  abbrev pub and_then :
      (Proxy → Option (List Reply × Proxy)) → Option (Reply × Proxy) → Option (List Reply × Proxy)
  and_then rest none = none
  and_then rest (some (r, p)) = push_reply r (rest p)

  unfoldable pub issue_all : List Command → Proxy → Option (List Reply × Proxy)
  issue_all [] p = some ([], p)
  issue_all (cmd ∷ cmds) p = and_then (issue_all cmds) (issue cmd p)

module _ (key_type : HashType (List ℕ)) (lawful : IsLawful key_type)
    (host : FunctionRef → Value → Proxy → Option Value × Proxy)
    (run : FunctionRef → Value → Option Value)
    (quiet : (f : FunctionRef) (args : Value) (p : Proxy) → host f args p ≡ (run f args, p))
    {S : Type 0} (old : Interpreter S) where
  -- The table of the program has the functions of the world.
  pub record IsServed (w : World S) (t : Dict (List ℕ) (Option FunctionRef)) : Type 0 where
    pub table : IsTable key_type lawful t
    pub finds : (q : List ℕ) → view key_type t q ≡ or_first none (w.functions q)

  answer_by-functions :
      (g : Option FunctionRef) (args : Value)
      → (elim g [ none ↦ none | some f ↦ run f args ]) ≡ answer_by run args (or_first none g)
  unfolding answer_by
  answer_by-functions none args = refl
  answer_by-functions (some f) args = refl

  pub IsServed-Answers :
      (w : World S) (t : Dict (List ℕ) (Option FunctionRef))
      → IsServed w t
      → Answers key_type lawful host run quiet (answers old key_type.equals run w) t
  IsServed-Answers w t h = record {
    valid = h.table.valid;
    unique = h.table.unique;
    agrees = λ name args.
        answer_by-functions (w.functions name) args ∙ ap (answer_by run args) (sym (h.finds name));
  }

  -- The value of a call goes back through the pipe.
  unfoldable pub IsReturned : World S → Command → Type 0
  IsReturned w (call name args) =
      (v : Value) × (given none
          (direct (answers old key_type.equals run w)
            (called old key_type.equals run w name args)).0
        ≡ some v)
      × IsSendable max_string_size v
      × (total v < max_array_size)
  IsReturned w (constant name v) = Unit
  IsReturned w (function name f) = Unit
  IsReturned w (compile script) = Unit
  IsReturned w (is_function name) = Unit
