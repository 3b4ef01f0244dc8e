-- ===== src/Language/Setup.antt =====
-- language.c, lines 97 to 157: interpreters inside and outside of a sandbox, and what a program defines
-- in one.
use cagekeeper.Prelude.{ℕ, Bool, true, false, Option, none, some, List}
use cagekeeper.Language.Defs.{Interpreter, raw_interpreter_by_extension}
use cagekeeper.Proxy.Parent.{Proxy}
use cagekeeper.Proxy.Spawn.{Handle, Spawned, proxy_new}
use cagekeeper.Seccomp.{config_maxmem}
use cagekeeper.Value.{Value, int32, string}

-- `initialized` is whether `language->internal` is set; `spawned` is what `spawn_child` comes to.
unfoldable pub wrap_sandbox : Bool → Spawned → Option (Handle × Proxy)
unfolding proxy_new
wrap_sandbox true spawned = none
wrap_sandbox false spawned = proxy_new spawned

-- A new interpreter is not initialized.
unfoldable pub interpreter_by_extension : List ℕ → Spawned → Interpreter × Option (Handle × Proxy)
unfolding wrap_sandbox
interpreter_by_extension filename spawned =
    (raw_interpreter_by_extension filename, wrap_sandbox false spawned)

abbrev pub if_initialized : Bool → Interpreter → Option Interpreter
if_initialized true li = some li
if_initialized false li = none

-- `initialize` is what the interpreter's own does with so much memory; one that fails is destroyed.
unfoldable pub unsafe_interpreter_by_extension :
    (Interpreter → ℕ → Bool) → List ℕ → Option Interpreter
unsafe_interpreter_by_extension initialize filename =
    let li = raw_interpreter_by_extension filename in
    if_initialized (initialize li config_maxmem) li

-- The value of a constant is made, passed to the interpreter by its pointer, and freed. `new` is the
-- constructor of values, `define` is `define_constant` of an interpreter, and `destroy` is
-- `value_destroy`, all over the state `S` of the program.
module _ {S A : Type 0} (new : Value → S → A × S) (define : List ℕ → A → S → S)
    (destroy : A → S → S) where
  unfoldable pub define_int_constant : List ℕ → ℕ → S → S
  define_int_constant name i st = let (v, st') = new (int32 i) st in destroy v (define name v st')

  unfoldable pub define_string_constant : List ℕ → List ℕ → S → S
  define_string_constant name s st =
      let (v, st') = new (string s) st in destroy v (define name v st')
