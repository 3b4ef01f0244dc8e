-- ===== src/Proxy/Schedules.antt =====
-- Whatever the order of the turns, a command comes to the same end.
use cagekeeper.Prelude.{ℕ, suc, ◌+◌, ◌≡◌, true, Option, List, []}
use cagekeeper.Dict.{HashType, IsLawful}
use cagekeeper.Proxy.Moves.{at}
use cagekeeper.Proxy.Parent.{FunctionRef, Proxy, served, process_callbacks}
use cagekeeper.Proxy.Places.{Place, IsGood, left_at, end_of}
use cagekeeper.Proxy.Serving.{Answers}
use cagekeeper.Proxy.Turns.{ended, Pair}
use cagekeeper.Value.{Value}

module _ (key_type : HashType (List ℕ)) (lawful : IsLawful key_type)
    (host : FunctionRef → Value → Proxy → Option Value × Proxy)
    (run : FunctionRef → Value → Option Value)
    (quiet : (f : FunctionRef) (args : Value) (p : Proxy) → host f args p ≡ (run f args, p))
    {S A : Type 0} (answers : List ℕ → Value → Option Value) (result : A → List ℕ) where
  -- After some turns of a schedule: where the two stand.
  record Reached (pl : Place S A) (turns : ℕ) (s : Pair S A) : Type 1 where
    place : Place S A
    proxy : Proxy
    stands : s ≡ at key_type lawful host run quiet answers result place proxy
    good : IsGood answers result place
    counts : turns + left_at answers result place ≡ left_at answers result pl
    ends : end_of answers result place ≡ end_of answers result pl
    table : Answers key_type lawful host run quiet answers proxy.callback_functions

  -- A pair whose command is over: the sandbox has ended, and the program's next round ends as well.
  pub record IsOver (a : A) (g : S) (s : Pair S A) : Type 0 where
    pub sandbox : s.sandbox ≡ ended a g
    pub read : s.program.sent ≡ []
    pub program :
        (f : ℕ)
        → process_callbacks key_type host (suc f) s.program
          ≡ served true (record s.program { pending = result a })
