-- ===== src/Function/Call.antt =====
-- `cfunction_call`: the arguments are converted into an array of unions, `args_data`, and handed to
-- the C function through pointers into it.
use cagekeeper.Prelude.{
  ℕ, zero, suc, ◌+◌, Bool, true, false, not, Option, none, some, List, [], ◌∷◌, length, get_or, set,
  replicate, ltb, ◌==◌, if◌then◌else◌,
}
use cagekeeper.Function.Signature.{CFunctionDef, function_get_signature}
use cagekeeper.Value.{
  Value, Items, ValueType, void, float32, int32, boolean, string, array, nil, cons, count_items,
}

-- What the C compiler and its library do: conversions to and from `float`, and `snprintf` of a
-- `float`, an `int` and the length of an array into a buffer of `TMP_STR_SIZE` (32) bytes.
pub record Libc : Type 0 where
  pub int_of_float : ℕ → ℕ
  pub float_of_int : ℕ → ℕ
  pub print_float : ℕ → List ℕ
  pub print_int : ℕ → List ℕ
  pub print_array : ℕ → List ℕ

-- One union of `args_data`: a scalar, the characters of `tmp_str`, or a pointer, to a string of
-- the caller, to a value, or to the `tmp_str` of a slot.
pub data Slot : Type 0 where
  unset null : Slot
  i32 f32 : ℕ → Slot
  b : Bool → Slot
  tmp_str : List ℕ → Slot
  ptr_string : List ℕ → Slot
  ptr_value : Value → Slot
  ptr_slot : ℕ → Slot

-- What one argument becomes: stored as it is, printed into a buffer, or refused.
pub data Conversion : Type 0 where
  stored : Slot → Conversion
  printed : List ℕ → Conversion
  refused : Conversion

abbrev bool_number : Bool → ℕ
bool_number true = 1
bool_number false = 0

abbrev pub true_text : List ℕ
true_text = b't' ∷ b'r' ∷ b'u' ∷ b'e' ∷ []

abbrev pub false_text : List ℕ
false_text = b'f' ∷ b'a' ∷ b'l' ∷ b's' ∷ b'e' ∷ []

-- the nested tests of the `switch` on the type of the argument, then on that of the parameter
unfoldable pub convert : Libc → Value → ValueType → Conversion
convert c (float32 v) ValueType.float32 = stored (f32 v)
convert c (float32 v) ValueType.int32 = stored (i32 (c.int_of_float v))
convert c (float32 v) ValueType.boolean = stored (b (not (c.int_of_float v == 0)))
convert c (float32 v) ValueType.string = printed (c.print_float v)
convert c (int32 v) ValueType.float32 = stored (f32 (c.float_of_int v))
convert c (int32 v) ValueType.int32 = stored (i32 v)
convert c (int32 v) ValueType.boolean = stored (b (not (v == 0)))
convert c (int32 v) ValueType.string = printed (c.print_int v)
convert c (boolean v) ValueType.float32 = stored (f32 (c.float_of_int (bool_number v)))
convert c (boolean v) ValueType.int32 = stored (i32 (bool_number v))
convert c (boolean v) ValueType.boolean = stored (b v)
convert c (boolean v) ValueType.string = stored (ptr_string (if v then true_text else false_text))
convert c (string v) ValueType.string = stored (ptr_string v)
convert c void ValueType.void = stored null
convert c (array vs) ValueType.array = stored (ptr_value (array vs))
convert c (array vs) ValueType.string = printed (c.print_array (count_items vs))
convert c _ _ = refused

-- How far the loop over the arguments came. `overflow` is a write past the end of `args_data`.
pub data Filled : Type 0 where
  filled : List Slot → Filled
  bad_param overflow : ℕ → Filled

-- `args_data[k] = s`, then the rest of the loop
unfoldable pub write_slot : ℕ → ℕ → Slot → List Slot → (List Slot → Filled) → Filled
write_slot i k s slots rest = if ltb k (length slots) then rest (set slots k s) else overflow i

-- Parameter `i` is stored in slot `i + 1`. Printed text goes to the buffer of slot `i + i`.
unfoldable pub store_arg : ℕ → Conversion → List Slot → (List Slot → Filled) → Filled
unfolding write_slot
store_arg i (stored s) slots rest = write_slot i (suc i) s slots rest
store_arg i (printed text) slots rest =
    write_slot i (i + i) (tmp_str text) slots
      λ written. write_slot i (suc i) (ptr_slot (i + i)) written rest
store_arg i refused slots rest = bad_param (suc i)

-- the loop over the arguments and `sig->param`, which are equally many
unfoldable pub fill_args : Libc → ℕ → Items → List ValueType → List Slot → Filled
fill_args c i nil ts slots = filled slots
fill_args c i (cons v vs) [] slots = filled slots
fill_args c i (cons v vs) (ty ∷ ts) slots =
    store_arg i (convert c v ty) slots (fill_args c (suc i) vs ts)

-- What the C function finds in a parameter; `clobbered` is text that was overwritten.
pub data Arg : Type 0 where
  int_arg float_arg : ℕ → Arg
  bool_arg : Bool → Arg
  string_arg : List ℕ → Arg
  value_arg : Value → Arg
  null_arg clobbered : Arg

abbrev text_at : Slot → Arg
text_at (tmp_str text) = string_arg text
text_at _ = clobbered

unfoldable pub receive : List Slot → Slot → Arg
receive slots unset = clobbered
receive slots null = null_arg
receive slots (i32 n) = int_arg n
receive slots (f32 n) = float_arg n
receive slots (b v) = bool_arg v
receive slots (tmp_str s) = clobbered
receive slots (ptr_string s) = string_arg s
receive slots (ptr_value v) = value_arg v
receive slots (ptr_slot k) = text_at (get_or slots k unset)

-- the arguments of parameters `i` and on, when the call is made
unfoldable pub receive_from : List Slot → ℕ → ℕ → List Arg
receive_from slots i zero = []
receive_from slots i (suc n) =
    receive slots (get_or slots (suc i) unset) ∷ receive_from slots (suc i) n

-- `ret_raw`, as each of its members reads after the call
pub record RawReturn : Type 0 where
  pub raw_i32 : ℕ
  pub raw_f32 : ℕ
  pub raw_b : Bool
  pub raw_string : List ℕ
  pub raw_value : Option Value

-- the `switch` on the type of the result; an array is handed back as it came, null pointer or not
unfoldable pub return_value : ValueType → RawReturn → Option Value
return_value ValueType.void r = some void
return_value ValueType.float32 r = some (float32 r.raw_f32)
return_value ValueType.int32 r = some (int32 r.raw_i32)
return_value ValueType.boolean r = some (boolean r.raw_b)
return_value ValueType.string r = some (string r.raw_string)
return_value ValueType.array r = r.raw_value
return_value ValueType.function r = none

-- How a call ends. The four failures but `overran` return the null pointer.
pub data CallResult : Type 0 where
  returned : Option Value → CallResult
  not_prepared not_array wrong_count : CallResult
  cannot_convert overran : ℕ → CallResult

unfoldable pub invoke : (List Arg → RawReturn) → ValueType → ℕ → Filled → CallResult
invoke call ret n (filled slots) = returned (return_value ret (call (receive_from slots 0 n)))
invoke call ret n (bad_param i) = cannot_convert i
invoke call ret n (overflow i) = overran i

-- `prepared` is the status of `ffi_prep_cif`, and `call` the C function.
unfoldable pub cfunction_call :
    Libc → Bool → (List Arg → RawReturn) → CFunctionDef → Value → CallResult
unfolding invoke
cfunction_call c prepared call f (array args) =
    let sig = function_get_signature f in
    let n = count_items args in
    if not prepared
    then not_prepared
    else if not (sig.num_params == n)
    then wrong_count
    else invoke call sig.ret n (fill_args c 0 args sig.param (replicate (suc n) unset))
cfunction_call c prepared call f _ = if not prepared then not_prepared else not_array
