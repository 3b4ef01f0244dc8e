-- ===== src/Javascript/Lifetime.antt =====
-- language_js.c, lines 42 to 77 and 293 to 304: the start and the end of an interpreter.
use cagekeeper.Prelude.{Bool, true, false, Option, none, some, ◌≡◌, refl}

-- What of `js_internal_t` is set: the runtime, the context, the global object and the table.
pub record Internal : Type 0 where
  pub rt : Bool
  pub cx : Bool
  pub global : Bool
  pub jsfunction_to_function : Bool

abbrev pub blank : Internal
blank = record { rt = false; cx = false; global = false; jsfunction_to_function = false }

-- What the library gives: a runtime, a context, a global object, and the standard classes in it.
pub record Given : Type 0 where
  pub runtime : Bool
  pub context : Bool
  pub object : Bool
  pub classes : Bool

-- the tests in their order
unfoldable pub set_up : Bool → Bool → Bool → Bool → Bool × Internal
set_up false context object classes = (false, blank)
set_up true false object classes = (false, record blank { rt = true })
set_up true true false classes = (false, record blank { rt = true; cx = true })
set_up true true true false = (false, record blank { rt = true; cx = true; global = true })
set_up true true true true =
    (true, record { rt = true; cx = true; global = true; jsfunction_to_function = true })

-- `none` is an interpreter that is not initialized.
unfoldable pub initialize_js : Given → Option Internal → Bool × Option Internal
unfolding set_up
initialize_js given (some js) = (true, some js)
initialize_js given none =
    let (ok, js) = set_up given.runtime given.context given.object given.classes in (ok, some js)

-- The calls of the library at the end of an interpreter. `JS_ShutDown` ends the library for all.
pub data LibraryCall : Type 0 where
  destroy_context destroy_runtime shut_down : LibraryCall

unfoldable pub destroy_js : Option Internal → Option (LibraryCall × LibraryCall × LibraryCall)
destroy_js none = none
destroy_js (some js) = some (destroy_context, destroy_runtime, shut_down)

-- An interpreter that has failed to start says that it is initialized when it is asked again, and
-- stays as it is.
pub initialize_js_again :
    (given later : Given)
    → (initialize_js given none).0 ≡ false
    → initialize_js later (initialize_js given none).1 ≡ (true, (initialize_js given none).1)
unfolding initialize_js
initialize_js_again given later h = refl
