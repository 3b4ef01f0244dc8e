-- ===== src/Ruby/Methods.antt =====
-- language_rb.c: the operations of the interpreter, and the function that every definition of the
-- program stands for in Ruby. The Ruby library acts on its state `S`, and names have numbers.
use cagekeeper.Prelude.{ℕ, Bool, true, false, Option, none, some, List, [], ◌∷◌, ◌++◌}
use cagekeeper.Binding.{Converted, converted, refused, out_of_fuel}
use cagekeeper.Dict.{Dict, dict_new, dict_put, dict_lookup, ptr_type}
use cagekeeper.Ruby.Values.{Ruby, ruby_to_value, value_to_ruby, values_to_ruby}
use cagekeeper.Value.{Value, Items, function}

-- How Ruby code ends: with a value, with an exception that `rb_rescue` takes, or with another, which
-- only `rb_rescue2` with `rb_eException` takes. An exception has a text.
pub data Ended (V S : Type 0) : Type 0 where
  returned : V → S → Ended V S
  standard_error other_error : List ℕ → S → Ended V S

-- What the code uses of the library's state.
pub record RubyVm (V S : Type 0) : Type 0 where
  pub eval_string : List ℕ → S → Ended V S
  pub intern : List ℕ → ℕ
  pub respond_to : S → ℕ → Bool
  pub funcall : ℕ → List V → S → Ended V S
  pub define_global_function : List ℕ → S → S

-- The interpreter: the library's state, `global->functions`, and the texts that `rb_report_error`
-- prints. The table holds the pointers that the program passed, by their addresses.
pub record Rb (S : Type 0) : Type 0 where
  pub vm : S
  pub functions : Option (Dict ℕ (Option ℕ))
  pub printed : List (List ℕ)

-- `rb_report_error`: an empty text is not printed.
unfoldable pub rb_report_error : {S : Type 0} → List ℕ → Rb S → Rb S
rb_report_error [] st = st
rb_report_error (c ∷ msg) st = record st { printed = st.printed ++ (c ∷ msg) ∷ [] }

-- `dict_new` where `global->functions` is still the null pointer
abbrev pub table_or_new : Option (Dict ℕ (Option ℕ)) → Dict ℕ (Option ℕ)
table_or_new none = dict_new
table_or_new (some t) = t

-- What `ruby_function_proxy` gives to Ruby. `crashed` is the read of a null pointer or of a value that
-- is freed, which is undefined, and an argument
-- that is not converted raises an exception.
pub data Answer (V : Type 0) : Type 0 where
  answered : V → Answer V
  type_error crashed no_fuel : Answer V

module _ {V S : Type 0} (rb : Ruby V) (ruby : RubyVm V S) where
  -- `compile_script_internal` and `compile_script_exception`, under `rb_rescue2`
  unfoldable pub after_eval : Rb S → Ended V S → Bool × Rb S
  unfolding rb_report_error
  after_eval st (returned v s) = (true, record st { vm = s })
  after_eval st (standard_error msg s) = (false, rb_report_error msg (record st { vm = s }))
  after_eval st (other_error msg s) = (false, rb_report_error msg (record st { vm = s }))

  unfoldable pub compile_script_rb : List ℕ → Rb S → Bool × Rb S
  unfolding after_eval
  compile_script_rb script st = after_eval st (ruby.eval_string script st.vm)

  -- The pointer itself is stored, and no copy is made. `pointer_size` is that of the key type; the
  -- table is made at the first definition.
  unfoldable pub store_function : ℕ → List ℕ → ℕ → Rb S → Rb S
  store_function pointer_size name address st = record st {
    functions = some (
        dict_put (ptr_type pointer_size) (table_or_new st.functions) (ruby.intern name)
          (some address));
  }

  unfoldable pub define_constant_rb : ℕ → List ℕ → ℕ → Rb S → Rb S
  unfolding store_function
  define_constant_rb pointer_size name address st =
      store_function pointer_size name address
        (record st { vm = ruby.define_global_function name st.vm })

  unfoldable pub define_function_rb : ℕ → List ℕ → ℕ → Rb S → Rb S
  unfolding store_function
  define_function_rb pointer_size name f st =
      store_function pointer_size name f (record st { vm = ruby.define_global_function name st.vm })

  unfoldable pub is_function_rb : List ℕ → Rb S → Bool
  is_function_rb name st = ruby.respond_to st.vm (ruby.intern name)

  -- `rb_rescue` around `call_function_internal`: `none` where the exception is not taken, and leaves
  -- `call_function_rb` too.
  unfoldable pub after_funcall : ℕ → Rb S → Ended V S → Option (Converted (Option Value) × Rb S)
  unfolding rb_report_error
  after_funcall f st (returned v s) =
      let result : Converted (Option Value) = elim (ruby_to_value rb f v) [
        | converted x ↦ converted (some x)
        | refused ↦ refused
        | out_of_fuel ↦ out_of_fuel
      ] in
      some (result, record st { vm = s })
  after_funcall f st (standard_error msg s) =
      some (converted none, rb_report_error msg (record st { vm = s }))
  after_funcall f st (other_error msg s) = none

  unfoldable pub call_function_rb :
      ℕ → List ℕ → Items → Rb S → Option (Converted (Option Value) × Rb S)
  unfolding after_funcall
  call_function_rb f name args st =
      after_funcall f st (ruby.funcall (ruby.intern name) (values_to_ruby rb args) st.vm)

  -- the reply of the program's function; `none` is a null pointer
  unfoldable pub to_answer : Option Value → Answer V
  to_answer none = crashed
  to_answer (some ret) = answered (value_to_ruby rb ret)

  unfoldable pub call_with_args : (Value → Option Value) → Converted Value → Answer V
  unfolding to_answer
  call_with_args call (converted args) = to_answer (call args)
  call_with_args call refused = type_error
  call_with_args call out_of_fuel = no_fuel

  -- What the pointer points to: nothing where that is freed, a function, which is called, or a
  -- constant, which gives its value.
  unfoldable pub call_or_constant : (Value → Value → Option Value) → ℕ → V → Option Value → Answer V
  unfolding call_with_args
  call_or_constant call f args none = crashed
  call_or_constant call f args (some (function p n)) =
      call_with_args (call (function p n)) (ruby_to_value rb f args)
  call_or_constant call f args (some value) = answered (value_to_ruby rb value)

  -- A name that the table does not hold gives nil.
  abbrev pub behind :
      (Value → Value → Option Value) → (ℕ → Option Value) → ℕ → V → Option ℕ → Answer V
  behind call memory f args none = answered rb.qnil
  behind call memory f args (some address) = call_or_constant call f args (memory address)

  -- `call` runs a function value on its arguments, `memory` is the values that are not freed by their
  -- addresses, and `id` is the name of the frame.
  unfoldable pub ruby_function_proxy :
      ℕ → (Value → Value → Option Value) → (ℕ → Option Value) → ℕ → ℕ → V → Rb S → Answer V × Rb S
  unfolding call_or_constant
  ruby_function_proxy pointer_size call memory f id args st = elim st.functions [
    | none ↦ (crashed, st)
    | some t ↦
        let (address, t') = dict_lookup (ptr_type pointer_size) none t id in
        (behind call memory f args address, record st { functions = some t' })
  ]
