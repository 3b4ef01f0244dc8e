-- ===== src/Lua/Methods.antt =====
-- language_lua.c: the operations of the interpreter, and the closure that every function of the
-- program stands for in Lua.
use cagekeeper.Prelude.{
  ℕ, zero, suc, Bool, true, false, Option, none, some, List, [], ◌∷◌, ◌++◌, if◌then◌else◌,
}
use cagekeeper.Binding.{Converted, converted, refused, out_of_fuel, copies_of_list, any_null}
use cagekeeper.Function.Values.{Copy, null, scalar, copied_array}
use cagekeeper.Lua.Values.{Lua, push_value, lua_to_value}
use cagekeeper.Value.{Value, Items, nil, cons, count_items}

-- What the code uses of the library on the rest of its state. `loadbuffer` and the calls give an
-- error code, 0 for none. `pushclosure` is the pointer to the function with its name, and the closure
-- over it.
pub record LuaVm (L : Type 0) : Type 0 where
  pub loadbuffer : List ℕ → L → ℕ × L
  pub pcall_multret : L → ℕ × L
  pub pcall : ℕ → L → ℕ × L
  pub getglobal : List ℕ → L → L
  pub setglobal : List ℕ → L → L
  pub isfunction : ℕ → L → Bool
  pub pushclosure : List ℕ → Value → L → L

-- What goes to `language_error`.
pub data LuaError : Type 0 where
  shown : List ℕ → LuaError
  not_compiled : ℕ → LuaError
  not_a_function : List ℕ → LuaError
  call_failed : List ℕ → ℕ → LuaError

-- The interpreter: the library's state, and the errors.
pub record LuaState (L : Type 0) : Type 0 where
  pub vm : L
  pub errors : List LuaError

-- How the closure ends in Lua: with its result on the stack, with the error of an argument, or with
-- the end of the process where a null pointer is read.
pub data Proxied (L : Type 0) : Type 0 where
  pushed : L → Proxied L
  argument_error : ℕ → L → Proxied L
  crashed no_fuel : Proxied L

-- The arguments read so far, or the one that is not converted.
pub data ArgsRead (L : Type 0) : Type 0 where
  args_read : List Copy → L → ArgsRead L
  bad_argument : ℕ → L → ArgsRead L
  args_no_fuel : ArgsRead L

unfoldable pub prepend : {L : Type 0} → Copy → ArgsRead L → ArgsRead L
prepend c (args_read cs l) = args_read (c ∷ cs) l
prepend c (bad_argument i l) = bad_argument i l
prepend c args_no_fuel = args_no_fuel

module _ {L : Type 0} (lua : Lua L) (vm : LuaVm L) where
  abbrev pub with_errors : List LuaError → L → LuaState L → LuaState L
  with_errors es l st = record { vm = l; errors = st.errors ++ es }

  -- `show_error` and the message behind it
  unfoldable pub after_script : LuaState L → ℕ × L → Bool × LuaState L
  after_script st (zero, l) = (true, record st { vm = l })
  after_script st (suc e, l) =
      (false, with_errors (shown (lua.tostring 1 l) ∷ not_compiled (suc e) ∷ []) l st)

  unfoldable pub run_loaded : ℕ × L → ℕ × L
  run_loaded (zero, l) = vm.pcall_multret l
  run_loaded (suc e, l) = (suc e, l)

  unfoldable pub compile_script_lua : List ℕ → LuaState L → Bool × LuaState L
  unfolding after_script run_loaded
  compile_script_lua script st = after_script st (run_loaded (vm.loadbuffer script st.vm))

  unfoldable pub define_constant_lua : List ℕ → Value → LuaState L → LuaState L
  define_constant_lua name value st = record st {
    vm = vm.setglobal name (push_value lua value st.vm);
  }

  unfoldable pub define_function_lua : List ℕ → Value → LuaState L → LuaState L
  define_function_lua name f st = record st { vm = vm.setglobal name (vm.pushclosure name f st.vm) }

  unfoldable pub is_function_lua : List ℕ → LuaState L → Bool × LuaState L
  is_function_lua name st =
      let l = vm.getglobal name st.vm in (vm.isfunction 1 l, record st { vm = lua.pop 1 l })

  unfoldable pub push_args : Items → L → L
  push_args nil l = l
  push_args (cons v vs) l = push_args vs (push_value lua v l)

  unfoldable pub after_result : LuaState L → Converted (Copy × L) → Converted (Copy × LuaState L)
  after_result st (converted (ret, l)) = converted (ret, record st { vm = lua.pop 1 l })
  after_result st refused = refused
  after_result st out_of_fuel = out_of_fuel

  unfoldable pub after_pcall : ℕ → List ℕ → LuaState L → ℕ × L → Converted (Copy × LuaState L)
  unfolding after_result
  after_pcall f name st (zero, l) = after_result st (lua_to_value lua f 1 l)
  after_pcall f name st (suc e, l) =
      converted (null, with_errors (shown (lua.tostring 1 l) ∷ call_failed name (suc e) ∷ []) l st)

  unfoldable pub call_function_lua : ℕ → List ℕ → Items → LuaState L → Converted (Copy × LuaState L)
  unfolding after_pcall push_args
  call_function_lua f name args st =
      let l = vm.getglobal name st.vm in
      if vm.isfunction 1 l
      then after_pcall f name st (vm.pcall (count_items args) (push_args args l))
      else converted (null, with_errors (not_a_function name ∷ []) l st)

  -- `a == NULL` ends the closure with the error of the argument.
  unfoldable pub after_arg : ℕ → (L → ArgsRead L) → Converted (Copy × L) → ArgsRead L
  unfolding prepend
  after_arg i rest (converted (null, l)) = bad_argument (suc i) l
  after_arg i rest (converted (scalar v, l)) = prepend (scalar v) (rest l)
  after_arg i rest (converted (copied_array cs, l)) = prepend (copied_array cs) (rest l)
  after_arg i rest refused = args_no_fuel
  after_arg i rest out_of_fuel = args_no_fuel

  -- the loop over the parameters, of which so many are left
  unfoldable pub args_from : ℕ → ℕ → ℕ → L → ArgsRead L
  unfolding after_arg
  args_from f zero i l = args_read [] l
  args_from f (suc left) i l =
      after_arg i (args_from f left (suc i)) (lua_to_value lua f (suc left) l)

  unfoldable pub push_result : Option Value → L → Proxied L
  push_result none l = crashed
  push_result (some ret) l = pushed (push_value lua ret l)

  -- The arguments are destroyed behind the call.
  unfoldable pub with_args_read : (List Copy → Option Value) → ArgsRead L → Proxied L
  unfolding push_result
  with_args_read call (args_read args l) =
      if any_null (copies_of_list args) then crashed else push_result (call args) l
  with_args_read call (bad_argument i l) = argument_error i l
  with_args_read call args_no_fuel = no_fuel

  -- `call` runs the function, which has `num_params` parameters.
  unfoldable pub lua_function_proxy : ℕ → (List Copy → Option Value) → ℕ → L → Proxied L
  unfolding with_args_read args_from
  lua_function_proxy f call num_params l = with_args_read call (args_from f num_params 0 l)
