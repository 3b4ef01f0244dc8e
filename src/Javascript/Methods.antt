-- ===== src/Javascript/Methods.antt =====
-- language_js.c: the operations of the interpreter, and the function that every function of the
-- program stands for in JavaScript.
use cagekeeper.Prelude.{
  ℕ, Bool, true, false, Option, none, some, List, [], ◌∷◌, ◌++◌, if◌then◌else◌,
}
use cagekeeper.Binding.{Converted, converted, refused, out_of_fuel, copies_of_list, any_null}
use cagekeeper.Dict.{Dict, dict_put, dict_lookup, ptr_type}
use cagekeeper.Function.Values.{Copy}
use cagekeeper.Javascript.Values.{
  Js, jsval_to_value, js_argv_to_args, value_to_jsval, values_to_jsvals,
}
use cagekeeper.Value.{Value, Items}

-- What the code uses of the library's state. An evaluation reports errors by `error_callback`; a
-- result `none` is a failure. A function object is its address.
pub record JsVm (V S : Type 0) : Type 0 where
  pub evaluate_script : List ℕ → S → Option V × List (List ℕ) × S
  pub call_function_name : List ℕ → List V → S → Option V × List (List ℕ) × S
  pub define_function : List ℕ → S → ℕ × S
  pub set_property : List ℕ → V → S → Bool × S
  pub value_to_function : V → Option ℕ

-- What goes to `language_error`.
pub data JsError : Type 0 where
  reported : List ℕ → JsError
  not_compiled no_function_pointer never_seen call_failed : JsError
  execution_failed not_defined : List ℕ → JsError

-- `js_internal_t`
pub record JsState (S : Type 0) : Type 0 where
  pub vm : S
  pub noerrors : Bool
  pub jsfunction_to_function : Dict ℕ (Option Value)
  pub errors : List JsError

-- How a function of the program ends in JavaScript: with a value or JS_FALSE, or with the end of the
-- process where a null pointer is read.
pub data Called (V S : Type 0) : Type 0 where
  called : Option V × JsState S → Called V S
  crashed no_fuel : Called V S

abbrev pub fail : {S : Type 0} → JsError → JsState S → JsState S
fail e st = record st { errors = st.errors ++ e ∷ [] }

-- `error_callback`, for each report
unfoldable pub error_callback : {S : Type 0} → List (List ℕ) → JsState S → JsState S
error_callback [] st = st
error_callback (message ∷ reports) st =
    error_callback reports (if st.noerrors then st else fail (reported message) st)

module _ {V S : Type 0} (js : Js V) (spidermonkey : JsVm V S) where
  -- `JS_EvaluateScript`, with its reports
  unfoldable pub evaluate : List ℕ → JsState S → Option V × JsState S
  unfolding error_callback
  evaluate script st =
      let (rval, reports, s) = spidermonkey.evaluate_script script st.vm in
      (rval, error_callback reports (record st { vm = s }))

  unfoldable pub after_compile : Option V × JsState S → Bool × JsState S
  after_compile (none, st) = (false, fail not_compiled st)
  after_compile (some rval, st) = (true, st)

  unfoldable pub compile_script_js : List ℕ → JsState S → Bool × JsState S
  unfolding after_compile evaluate
  compile_script_js script st = after_compile (evaluate script st)

  -- The name is evaluated, without reports; any object counts as a function, also null.
  unfoldable pub is_object_result : Option V → Bool
  is_object_result none = false
  is_object_result (some rval) = js.is_object rval

  unfoldable pub is_function_js : List ℕ → JsState S → Bool × JsState S
  unfolding is_object_result evaluate
  is_function_js name st =
      let (rval, st') = evaluate name (record st { noerrors = true }) in
      (is_object_result rval, record st' { noerrors = false })

  -- `none` of the outer result is that the conversion does not end.
  unfoldable pub after_call : ℕ → List ℕ → Option V × JsState S → Converted Copy × JsState S
  after_call f name (none, st) = (converted Copy.null, fail (execution_failed name) st)
  after_call f name (some rval, st) = (jsval_to_value js f rval, st)

  unfoldable pub call_function_js : ℕ → List ℕ → Items → JsState S → Converted Copy × JsState S
  unfolding after_call error_callback
  call_function_js f name args st =
      let (rval, reports, s) =
        spidermonkey.call_function_name name (values_to_jsvals js args) st.vm in
      after_call f name (rval, error_callback reports (record st { vm = s }))

  unfoldable pub define_constant_js : List ℕ → Value → JsState S → JsState S
  define_constant_js name value st =
      let (ok, s) = spidermonkey.set_property name (value_to_jsval js value) st.vm in
      if ok then record st { vm = s } else fail (not_defined name) (record st { vm = s })

  unfoldable pub define_function_js : ℕ → List ℕ → Value → JsState S → JsState S
  define_function_js pointer_size name f st =
      let (func, s) = spidermonkey.define_function name st.vm in
      record st {
        vm = s;
        jsfunction_to_function =
            dict_put (ptr_type pointer_size) st.jsfunction_to_function func (some f);
      }

  -- `call` runs a function of the program on the arguments, which may be null pointers; `none` is
  -- JS_FALSE.
  unfoldable pub after_host : Option Value × JsState S → Option V × JsState S
  after_host (none, st) = (none, fail call_failed st)
  after_host (some value, st) = (some (value_to_jsval js value), st)

  -- after `js_argv_to_args`; the arguments are destroyed behind the call
  unfoldable pub call_converted :
      (Value → List Copy → Option Value) → Value → JsState S → Converted (List Copy) → Called V S
  unfolding after_host
  call_converted call fn st (converted args) =
      if any_null (copies_of_list args) then crashed else called (after_host (call fn args, st))
  call_converted call fn st refused = crashed
  call_converted call fn st out_of_fuel = no_fuel

  unfoldable pub call_known :
      (Value → List Copy → Option Value) → ℕ → List V → Option Value × JsState S → Called V S
  unfolding call_converted
  call_known call f argv (none, st) = called (none, fail never_seen st)
  call_known call f argv (some fn, st) = call_converted call fn st (js_argv_to_args js f argv)

  unfoldable pub call_pointer :
      ℕ → (Value → List Copy → Option Value) → ℕ → List V → Option ℕ → JsState S → Called V S
  unfolding call_known
  call_pointer pointer_size call f argv none st = called (none, fail no_function_pointer st)
  call_pointer pointer_size call f argv (some func) st =
      let (fn, t) = dict_lookup (ptr_type pointer_size) none st.jsfunction_to_function func in
      call_known call f argv (fn, record st { jsfunction_to_function = t })

  -- `callee` is `argv[-2]`.
  unfoldable pub js_function_proxy :
      ℕ → (Value → List Copy → Option Value) → ℕ → V → List V → JsState S → Called V S
  unfolding call_pointer
  js_function_proxy pointer_size call f callee argv st =
      call_pointer pointer_size call f argv (spidermonkey.value_to_function callee) st
