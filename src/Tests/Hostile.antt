-- ===== src/Tests/Hostile.antt =====
-- language_proxy.c with a sandbox that writes what it likes.
use cagekeeper.Prelude.{
  ℕ, ◌≡◌, ◌≢◌, refl, sym, ap, ◌∙◌, Bool, true, false, Option, some, none, List, [], ◌∷◌, arith,
  ◌==◌, if◌then◌else◌,
}
use cagekeeper.Proxy.Ending.{process_callbacks_ends}
use cagekeeper.Proxy.Definitions.{
  Definition, define_all, define_all-IsTable, first_defined, or_first,
}
use cagekeeper.Proxy.Exposure.{IsChecked, IsSafe, process_callbacks-exposed}
use cagekeeper.Proxy.Parent.{FunctionRef, Proxy, no_rounds, process_callbacks}
use cagekeeper.Value.{Value}
use cagekeeper.Tests.Sessions.{fresh, first_f, empty-IsTable, empty-view}
use cagekeeper.Tests.Commands.{names, names-IsLawful, host, run_function, parent}
use cagekeeper.Wire.{AreBytes}

-- a log line, an answer that does not exist, and a callback without its name
abbrev noise : List ℕ
noise = 13 ∷ 1 ∷ 0 ∷ 0 ∷ 0 ∷ 65 ∷ 200 ∷ 10 ∷ []

noise-AreBytes : AreBytes noise
noise-AreBytes = (
  omega arith,
  (
    omega arith,
    (omega arith, (omega arith, (omega arith, (omega arith, (omega arith, (omega arith, tt)))))),
  ),
)

process_callbacks_ends_example :
    process_callbacks names host 9 (record parent { pending = noise }) ≢ no_rounds parent
process_callbacks_ends_example =
    process_callbacks_ends names host (λ f args p n h. h) 9 (record parent { pending = noise })
      parent (omega arith) noise-AreBytes

-- The program has one function, and the sandbox writes noise.
abbrev one_function : List Definition
one_function = (102 ∷ [], first_f) ∷ []

abbrev exposing : Proxy
exposing = record (define_all names one_function fresh) { pending = noise }

abbrev IsFirst : FunctionRef → Type 0
IsFirst f = f ≡ first_f

-- Another program, in which every other function fails.
abbrev host' : FunctionRef → Value → Proxy → Option Value × Proxy
host' f args p = (if f.address == 1 then run_function f args else none, p)

hosts_agree :
    (f : FunctionRef) (args : Value) (p : Proxy)
    → IsFirst f
    → IsChecked args
    → host f args p ≡ host' f args p
hosts_agree f args p e c = rw e refl

one_exposed :
    (b : Bool) (f : FunctionRef)
    → or_first none (if b then some first_f else none) ≡ some (some f)
    → f ≡ first_f
one_exposed true f e = ground arith
one_exposed false f e = ground arith

exposing-IsSafe : IsSafe names names-IsLawful IsFirst exposing
unfolding first_defined
exposing-IsSafe =
    let (table, views) = define_all-IsTable names names-IsLawful one_function fresh empty-IsTable in
    record {
      bytes = noise-AreBytes;
      valid = table;
      exposed = λ name f e. one_exposed (names.equals (102 ∷ []) name) f (
          ap (λ v. or_first v (first_defined names one_function name)) (sym (empty-view name))
          ∙ sym (views name)
          ∙ e);
    }

process_callbacks-exposed_example :
    process_callbacks names host 9 exposing ≡ process_callbacks names host' 9 exposing
process_callbacks-exposed_example =
    process_callbacks-exposed names names-IsLawful IsFirst host host' (λ f args p s. s) hosts_agree
      9 exposing exposing-IsSafe
