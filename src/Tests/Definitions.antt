-- ===== src/Tests/Definitions.antt =====
-- The definitions of the program in concrete interpreters of Ruby, JavaScript and Python.
use cagekeeper.Prelude.{
  ℕ, suc, ◌≡◌, refl, true, false, Option, none, some, List, [], ◌∷◌, arith, ◌==◌, if◌then◌else◌,
}
use cagekeeper.Binding.{converted, copies_of_list, any_null}
use cagekeeper.Dict.{Dict, dict_new, dict_init, ptr_type}
use cagekeeper.Dict.Chain.{count, weight}
use cagekeeper.Dict.Checksum.{ptr_type-IsLawful}
use cagekeeper.Dict.Placed.{IsValid, IsUnique, view}
use cagekeeper.Dict.Update.{dict_init-IsValid}
use cagekeeper.Function.Values.{Copy}
use cagekeeper.Javascript.{
  JsVm, JsState, called, define_function_js, js_argv_to_args, js_function_proxy,
}
use cagekeeper.Javascript.Callbacks.{given, define_function_js-js_function_proxy}
use cagekeeper.Python.{Library, initialize_py, destroy_py}
use cagekeeper.Python.Lifetime.{Uses, not_used, made, initialized, destroyed}
use cagekeeper.Ruby.{RubyVm, returned, Rb, table_or_new, define_constant_rb, ruby_function_proxy}
use cagekeeper.Ruby.Constants.{IsNoFunction, read_constant, define_constant_rb-ruby_function_proxy}
use cagekeeper.Tests.JavascriptObjects.{spidermonkey}
use cagekeeper.Tests.Objects.{Object, nothing, whole, sample}
use cagekeeper.Tests.RubyObjects.{ruby}
use cagekeeper.Value.{Value, type_of, void, int32, function}
use mathlib.Core.List.{flatten}

empty_table-IsValid : IsValid {V = Option Value} (ptr_type 8) dict_new
unfolding dict_new
empty_table-IsValid = dict_init-IsValid (ptr_type 8) (ptr_type-IsLawful 8) 1

empty_table-IsUnique : IsUnique (ptr_type 8) (dict_new {K = ℕ} {V = Option Value})
unfolding dict_new dict_init count weight flatten
empty_table-IsUnique q = omega arith

empty_table_absent :
    (k : ℕ) → count (ptr_type 8) k (flatten (dict_new {K = ℕ} {V = Option Value}).slots) ≡ 0
unfolding dict_new dict_init count weight flatten
empty_table_absent k = refl

pointers-IsValid : IsValid {V = Option ℕ} (ptr_type 8) dict_new
unfolding dict_new
pointers-IsValid = dict_init-IsValid (ptr_type 8) (ptr_type-IsLawful 8) 1

pointers-IsUnique : IsUnique (ptr_type 8) (dict_new {K = ℕ} {V = Option ℕ})
unfolding dict_new dict_init count weight flatten
pointers-IsUnique q = omega arith

pointers_absent :
    (k : ℕ) → count (ptr_type 8) k (flatten (dict_new {K = ℕ} {V = Option ℕ}).slots) ≡ 0
unfolding dict_new dict_init count weight flatten
pointers_absent k = refl

-- a Ruby whose names have the number of their first letter
first_letter : List ℕ → ℕ
first_letter [] = 0
first_letter (c ∷ name) = c

abbrev ruby_vm : RubyVm Object ℕ
ruby_vm = record {
  eval_string = λ script s. returned nothing s;
  intern = first_letter;
  respond_to = λ s id. true;
  funcall = λ id args s. returned nothing s;
  define_global_function = λ name s. suc s;
}

abbrev new_ruby : Rb ℕ
new_ruby = record { vm = 0; functions = none; printed = [] }

abbrev silent_call : Value → Value → Option Value
silent_call f args = some void

-- The constant lies at 16, and nothing else in memory.
abbrev memory : ℕ → Option Value
memory address = if address == 16 then some sample else none

sample-IsNoFunction : IsNoFunction (memory 16)
unfolding type_of
sample-IsNoFunction e = cc

define_constant_rb-ruby_function_proxy_example :
    ((ruby_function_proxy ruby ruby_vm 8 silent_call memory 3
        (ruby_vm.intern (107 ∷ []))
        nothing
        (define_constant_rb ruby ruby_vm 8 (107 ∷ []) 16 new_ruby)).0
      ≡ read_constant ruby (memory 16))
    × ((id : ℕ)
        → (id == ruby_vm.intern (107 ∷ [])) ≡ false
        → (t' : Dict ℕ (Option ℕ)) × ((define_constant_rb ruby ruby_vm 8
              (107 ∷ [])
              16
              new_ruby).functions
            ≡ some t')
          × (view (ptr_type 8) t' id ≡ view (ptr_type 8) (table_or_new new_ruby.functions) id))
define_constant_rb-ruby_function_proxy_example =
    define_constant_rb-ruby_function_proxy ruby ruby_vm 8 silent_call memory 3 (107 ∷ []) 16 nothing
      new_ruby pointers-IsValid pointers-IsUnique (pointers_absent (ruby_vm.intern (107 ∷ [])))
      sample-IsNoFunction

-- a JavaScript whose function objects are numbered; a number is the object with that number
number_of_object : Object → Option ℕ
number_of_object (whole i) = some i
number_of_object o = none

abbrev javascript_vm : JsVm Object ℕ
javascript_vm = record {
  evaluate_script = λ script s. (some nothing, [], s);
  call_function_name = λ name args s. (some nothing, [], s);
  define_function = λ name s. (s, suc s);
  set_property = λ name v s. (true, s);
  value_to_function = number_of_object;
}

abbrev new_javascript : JsState ℕ
new_javascript = record {
  vm = 64;
  noerrors = false;
  jsfunction_to_function = dict_new;
  errors = [];
}

abbrev answer_42 : Value → List Copy → Option Value
answer_42 f args = some (int32 42)

callee_known : number_of_object (whole 64) ≡ some 64
unfolding number_of_object
callee_known = refl

no_arguments : js_argv_to_args spidermonkey 3 [] ≡ converted []
unfolding js_argv_to_args
no_arguments = refl

no_entries : any_null (copies_of_list []) ≡ false
unfolding any_null copies_of_list
no_entries = refl

define_function_js-js_function_proxy_example :
    (st' : JsState ℕ) × (js_function_proxy spidermonkey javascript_vm 8 answer_42 3
        (whole 64)
        []
        (define_function_js spidermonkey javascript_vm 8 (102 ∷ []) (function 1 0) new_javascript)
      ≡ called (given spidermonkey (answer_42 (function 1 0) []), st'))
define_function_js-js_function_proxy_example =
    define_function_js-js_function_proxy spidermonkey javascript_vm 8 answer_42 3 (102 ∷ [])
      (function 1 0) (whole 64) [] [] new_javascript empty_table-IsValid empty_table-IsUnique
      (empty_table_absent 64) callee_known no_arguments no_entries

-- Two interpreters are made, one is initialized, and the other is destroyed.
abbrev one_initialized : Library
one_initialized =
    destroy_py false (initialize_py false (record { reference_count = 0; running = false }))

one_initialized-Uses : Uses (true ∷ []) one_initialized
one_initialized-Uses =
    destroyed (true ∷ []) false [] (true ∷ false ∷ []) refl
      (initialized [] false (false ∷ []) (false ∷ false ∷ []) refl (made (made not_used)))
