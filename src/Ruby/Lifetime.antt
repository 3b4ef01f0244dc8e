-- ===== src/Ruby/Lifetime.antt =====
-- language_rb.c, lines 13 to 36 and 268 to 278: when the Ruby library runs, and which interpreter
-- `global` points to.
use cagekeeper.Prelude.{ℕ, ◌+◌, ◌-◌, Bool, true, false, Option, some, ◌==◌, if◌then◌else◌}

-- The variables of the file, for interpreters that have numbers.
pub record Shared : Type 0 where
  pub reference_count : ℕ
  pub running : Bool
  pub global : Option ℕ

-- `initialize_rb`, for the interpreter `rb`, which is initialized already or not
unfoldable pub initialize_rb : Bool → ℕ → Shared → Shared
initialize_rb true rb lib = lib
initialize_rb false rb lib = record {
  reference_count = lib.reference_count + 1;
  running = if lib.reference_count == 0 then true else lib.running;
  global = if lib.reference_count == 0 then some rb else lib.global;
}

-- `destroy_rb`; `global` stays, also where it points to the interpreter that is freed.
unfoldable pub destroy_rb : Bool → Shared → Shared
destroy_rb false lib = lib
destroy_rb true lib = record lib {
  reference_count = lib.reference_count - 1;
  running = if (lib.reference_count - 1) == 0 then false else lib.running;
}
