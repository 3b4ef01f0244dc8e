-- ===== src/Python/Methods.antt =====
-- language_py.c: the operations of the interpreter, and the method that every function of the program
-- stands for in Python. The Python library is a parameter and acts on its state `S`.
use cagekeeper.Prelude.{
  ℕ, Bool, true, false, Option, none, some, List, [], ◌∷◌, ◌++◌, ◌==◌, ◌-◌, ◌+◌, if◌then◌else◌,
}
use cagekeeper.Binding.{Converted, converted, refused, out_of_fuel, has_null}
use cagekeeper.Function.Values.{Copy}
use cagekeeper.Language.{after_last_dot, or_whole}
use cagekeeper.Python.Values.{Python, pyobject_to_value, value_to_pyobject}
use cagekeeper.Value.{Value}

-- What names an exception: a class, perhaps without a name, the type of another object, or nothing.
pub data Thrown : Type 0 where
  exception_class : Option (List ℕ) → Thrown
  other_object : List ℕ → Thrown
  no_object : Thrown

-- A line of a traceback: file, line and function.
pub record Frame : Type 0 where
  pub filename : List ℕ
  pub lineno : ℕ
  pub name : List ℕ

-- What `PyErr_Fetch` and `PyErr_NormalizeException` give, with the text of the exception. An error
-- found before any code runs has no traceback.
pub record Exception : Type 0 where
  pub thrown : Thrown
  pub traceback : Option (List Frame)
  pub message : List ℕ

-- What the code uses of the library's state; `none` of a run or a call is an exception, which is then
-- fetched. `call_object` is given the tuple of arguments.
pub record PyVm (O S : Type 0) : Type 0 where
  pub run_string : List ℕ → S → Option O × S
  pub fetch : S → Exception × S
  pub get_item_string : List ℕ → S → Option O
  pub callable_check : O → Bool
  pub has_call : O → Bool
  pub call_object : O → O → S → Option O × S
  pub set_item : List ℕ → O → S → S
  pub cfunction_new : List ℕ → Value → S → O × S

-- What goes to `language_error`.
pub data PyError : Type 0 where
  traceback_header : PyError
  traceback_line : Frame → PyError
  exception_named : Option (List ℕ) → List ℕ → PyError
  exception_unnamed : List ℕ → PyError
  not_found not_callable : List ℕ → PyError

-- The interpreter: the library's state with `globals`, and the errors.
pub record Py (S : Type 0) : Type 0 where
  pub vm : S
  pub errors : List PyError

-- A crash is the read of a null pointer.
pub data Outcome (A : Type 0) : Type 0 where
  done : A → Outcome A
  crashed no_fuel : Outcome A

abbrev pub report : {S : Type 0} → List PyError → Py S → Py S
report es st = record st { errors = st.errors ++ es }

unfoldable pub traceback_lines : List Frame → List PyError
traceback_lines [] = []
traceback_lines (tb ∷ rest) = traceback_line tb ∷ traceback_lines rest

-- `className = dot+1`
unfoldable pub base_name : Option (List ℕ) → Option (List ℕ)
base_name none = none
base_name (some class_name) = some (or_whole class_name (after_last_dot class_name))

unfoldable pub exception_line : Thrown → List ℕ → PyError
unfolding base_name
exception_line (exception_class class_name) msg = exception_named (base_name class_name) msg
exception_line (other_object tp_name) msg = exception_named (some tp_name) msg
exception_line no_object msg = exception_unnamed msg

-- `Py_DECREF(_tb)` at the end of `handle_exception` reads the traceback.
unfoldable pub handle_fetched : {A S : Type 0} → A → Py S → Exception → Outcome (A × Py S)
unfolding traceback_lines exception_line
handle_fetched result st e = elim e.traceback [
  | none ↦ crashed
  | some tb ↦ done (
    result,
    report ((traceback_header ∷ traceback_lines tb) ++ exception_line e.thrown e.message ∷ []) st,
  )
]

unfoldable pub checked : {S : Type 0} → Converted Copy → Py S → Outcome (Copy × Py S)
checked (converted v) st = done (v, st)
checked refused st = crashed
checked out_of_fuel st = no_fuel

module _ {O S : Type 0} (py : Python O) (python : PyVm O S) where
  unfoldable pub handle_exception : {A : Type 0} → A → Py S → Outcome (A × Py S)
  unfolding handle_fetched
  handle_exception result st =
      let (e, s) = python.fetch st.vm in handle_fetched result (record st { vm = s }) e

  unfoldable pub after_run : Option O × Py S → Outcome (Bool × Py S)
  unfolding handle_exception
  after_run (none, st) = handle_exception false st
  after_run (some ret, st) = done (true, st)

  unfoldable pub compile_script_py : List ℕ → Py S → Outcome (Bool × Py S)
  unfolding after_run
  compile_script_py script st =
      let (ret, s) = python.run_string script st.vm in after_run (ret, record st { vm = s })

  -- Anything under the name counts as a function.
  unfoldable pub is_some : Option O → Bool
  is_some none = false
  is_some (some o) = true

  unfoldable pub is_function_py : List ℕ → Py S → Bool
  unfolding is_some
  is_function_py name st = is_some (python.get_item_string name st.vm)

  unfoldable pub after_call : ℕ → Option O × Py S → Outcome (Copy × Py S)
  unfolding handle_exception checked
  after_call f (none, st) = handle_exception Copy.null st
  after_call f (some ret, st) = checked (pyobject_to_value py f ret) st

  -- Arguments that Python cannot hold give a null pointer without an error.
  unfoldable pub call_args : ℕ → O → Option O → Py S → Outcome (Copy × Py S)
  unfolding after_call
  call_args f callee none st = done (Copy.null, st)
  call_args f callee (some args) st =
      let (ret, s) = python.call_object callee args st.vm in
      after_call f (ret, record st { vm = s })

  unfoldable pub call_found : ℕ → List ℕ → Value → Py S → Option O → Outcome (Copy × Py S)
  unfolding call_args
  call_found f name args st none = done (Copy.null, report (not_found name ∷ []) st)
  call_found f name args st (some callee) =
      if python.callable_check callee
      then if python.has_call callee
        then call_args f callee (value_to_pyobject py args true) st
        else done (Copy.null, report (not_callable name ∷ []) st)
      else done (Copy.null, report (not_callable name ∷ []) st)

  unfoldable pub call_function_py : ℕ → List ℕ → Value → Py S → Outcome (Copy × Py S)
  unfolding call_found
  call_function_py f name args st = call_found f name args st (python.get_item_string name st.vm)

  -- `PyDict_SetItem` reads the object.
  unfoldable pub set_object : List ℕ → Option O → Py S → Outcome (Py S)
  set_object name none st = crashed
  set_object name (some o) st = done (record st { vm = python.set_item name o st.vm })

  unfoldable pub define_constant_py : List ℕ → Value → Py S → Outcome (Py S)
  unfolding set_object
  define_constant_py name value st = set_object name (value_to_pyobject py value false) st

  unfoldable pub define_function_py : List ℕ → Value → Py S → Py S
  define_function_py name f st =
      let (cfunction, s) = python.cfunction_new name f st.vm in
      record st { vm = python.set_item name cfunction s }

  -- The value that the program's function returns; a null pointer is read.
  unfoldable pub to_python : Option Value → Outcome (Option O)
  to_python none = crashed
  to_python (some ret) = done (value_to_pyobject py ret false)

  -- `call` runs the function on its arguments, which are destroyed after it: a null pointer is read.
  unfoldable pub with_args : (Copy → Option Value) → Converted Copy → Outcome (Option O)
  unfolding to_python
  with_args call (converted args) = if has_null args then crashed else to_python (call args)
  with_args call refused = crashed
  with_args call out_of_fuel = no_fuel

  unfoldable pub python_method_proxy : ℕ → (Copy → Option Value) → O → Outcome (Option O)
  unfolding with_args
  python_method_proxy f call args = with_args call (pyobject_to_value py f args)

-- `py_reference_count`, and whether the library runs.
pub record Library : Type 0 where
  pub reference_count : ℕ
  pub running : Bool

-- `initialize_py`, for an interpreter that is initialized or not
unfoldable pub initialize_py : Bool → Library → Library
initialize_py true lib = lib
initialize_py false lib = record {
  reference_count = lib.reference_count + 1;
  running = if lib.reference_count == 0 then true else lib.running;
}

unfoldable pub destroy_py : Bool → Library → Library
destroy_py false lib = lib
destroy_py true lib = record {
  reference_count = lib.reference_count - 1;
  running = if (lib.reference_count - 1) == 0 then false else lib.running;
}
