-- ===== src/Javascript/Callbacks.antt =====
-- language_js.c: a function object that the program has defined calls the function that it was
-- defined for.
use cagekeeper.Prelude.{ℕ, ◌≡◌, refl, ap, ◌∙◌, true, false, Option, none, some, List, ◌==◌, ==_iff}
use cagekeeper.Binding.{converted, copies_of_list, any_null}
use cagekeeper.Dict.{dict_put, dict_lookup, ptr_type, ptr_equals}
use cagekeeper.Dict.Chain.{count}
use cagekeeper.Dict.Checksum.{ptr_type-IsLawful}
use cagekeeper.Dict.Lookup.{dict_lookup-view}
use cagekeeper.Dict.Placed.{IsValid, IsUnique, view}
use cagekeeper.Dict.Update.{dict_put-Put, dict_put-IsUnique}
use cagekeeper.Function.Values.{Copy}
use cagekeeper.Javascript.Methods.{
  JsVm, JsState, called, define_function_js, call_converted, call_known, call_pointer, after_host,
  js_function_proxy,
}
use cagekeeper.Javascript.Values.{Js, js_argv_to_args, value_to_jsval}
use cagekeeper.Value.{Value}
use mathlib.Core.List.{flatten}

-- What a call gives to JavaScript, by what the program's function returns: its value, or JS_FALSE.
abbrev pub given : {V : Type 0} → Js V → Option Value → Option V
given js none = none
given js (some value) = some (value_to_jsval js value)

after_host-given :
    {V S : Type 0} (js : Js V) (spidermonkey : JsVm V S) (ret : Option Value) (st : JsState S)
    → (after_host js spidermonkey (ret, st)).0 ≡ given js ret
unfolding after_host
after_host-given js spidermonkey none st = refl
after_host-given js spidermonkey (some value) st = refl

-- In an interpreter whose table is valid, with unique keys and without the new function object, a
-- call of that object with arguments that are converted, with no null pointer inside, runs the function that was defined, on these
-- arguments in order, and gives its value to JavaScript, or fails where it returns a null pointer.
pub define_function_js-js_function_proxy :
    {V S : Type 0} (js : Js V) (spidermonkey : JsVm V S) (size : ℕ)
    (call : Value → List Copy → Option Value) (f : ℕ) (name : List ℕ) (fn : Value) (callee : V)
    (argv : List V) (args : List Copy) (st : JsState S)
    → let func = (spidermonkey.define_function name st.vm).0 in
      IsValid (ptr_type size) st.jsfunction_to_function
      → IsUnique (ptr_type size) st.jsfunction_to_function
      → count (ptr_type size) func (flatten st.jsfunction_to_function.slots) ≡ 0
      → spidermonkey.value_to_function callee ≡ some func
      → js_argv_to_args js f argv ≡ converted args
      → any_null (copies_of_list args) ≡ false
      → (st' : JsState S) × (js_function_proxy js spidermonkey size call f callee argv
            (define_function_js js spidermonkey size name fn st)
          ≡ called (given js (call fn args), st'))
unfolding define_function_js js_function_proxy call_pointer call_known call_converted ptr_equals
define_function_js-js_function_proxy js spidermonkey size call f name fn callee argv args st valid
      unique absent known converts entries =
    let func = (spidermonkey.define_function name st.vm).0 in
    let t = st.jsfunction_to_function in
    let lawful = ptr_type-IsLawful size in
    let p = dict_put-Put (ptr_type size) lawful t func (some fn) valid in
    let once = dict_put-IsUnique (ptr_type size) lawful t func (some fn) valid unique absent in
    let table = dict_put (ptr_type size) t func (some fn) in
    let d = dict_lookup-view (ptr_type size) lawful none table func p.valid once in
    let same : (func == func) ≡ true = (==_iff func func).1 refl in
    let found : view (ptr_type size) table func ≡ some (some fn) = p.reads func ∙ rw same refl in
    let is_fn : (dict_lookup (ptr_type size) none table func).0 ≡ some fn = d.0 ∙ rw found refl in
    let st₁ = record st {
      vm = (spidermonkey.define_function name st.vm).1;
      jsfunction_to_function = (dict_lookup (ptr_type size) none table func).1;
    } in
    (
      (after_host js spidermonkey (call fn args, st₁)).1,
      rw (known, is_fn, converts, entries)
          (ap (λ x. called (x, (after_host js spidermonkey (call fn args, st₁)).1))
            (after_host-given js spidermonkey (call fn args) st₁)),
    )
