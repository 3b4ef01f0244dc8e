-- ===== src/Tests/Calls.antt =====
-- function.c at concrete calls.
use cagekeeper.Prelude.{◌≡◌, ◌≤◌, refl, true, some, none, List, [], ◌∷◌, ◌++◌, arith}
use cagekeeper.Function.Arguments.{passes, needs_print, IsPlain, AllPlain}
use cagekeeper.Function.Call.{
  Libc, Arg, int_arg, string_arg, clobbered, RawReturn, returned, overran, return_value,
  cfunction_call,
}
use cagekeeper.Function.Overrun.{cfunction_call_overran, cfunction_call_clobbered, snoc}
use cagekeeper.Function.Passing.{AllPassed, cfunction_call-passes}
use cagekeeper.Function.Signature.{
  CFunctionDef, function_get_signature, type_of_char, parse_type, parse_params,
}
use cagekeeper.Function.Typing.{AreTyped, IsResult, cfunction_call-typed}
use cagekeeper.Value.{ValueType, int32, string, array, nil, cons, count_items}

-- a machine that prints every number as "1"
abbrev libc : Libc
libc = record {
  int_of_float = λ n. n;
  float_of_int = λ n. n;
  print_float = λ n. 49 ∷ [];
  print_int = λ n. 49 ∷ [];
  print_array = λ n. 49 ∷ [];
}

-- "is" and "iis", with an integer result
abbrev number_and_text : CFunctionDef
number_and_text = record { name = 102 ∷ []; params = 105 ∷ 115 ∷ []; ret = 105 ∷ [] }

abbrev numbers_and_text : CFunctionDef
numbers_and_text = record { name = 102 ∷ []; params = 105 ∷ 105 ∷ 115 ∷ []; ret = 105 ∷ [] }

text_signature :
    (function_get_signature number_and_text).param ≡ ValueType.int32 ∷ ValueType.string ∷ []
unfolding function_get_signature parse_params parse_type type_of_char
text_signature = refl

three_signature :
    (function_get_signature numbers_and_text).param
    ≡ (ValueType.int32 ∷ ValueType.int32 ∷ []) ++ ValueType.string ∷ []
unfolding function_get_signature parse_params parse_type type_of_char
three_signature = refl

-- a C function that returns 7
abbrev seven : List Arg → RawReturn
seven args = record { raw_i32 = 7; raw_f32 = 0; raw_b = true; raw_string = []; raw_value = none }

IsPlain-number : IsPlain libc (int32 4) ValueType.int32 (int_arg 4)
unfolding passes needs_print
IsPlain-number = record { passed = refl; kept = refl }

number-AllPassed :
    AllPassed libc
      (cons (int32 4) (cons (string (104 ∷ [])) nil))
      (ValueType.int32 ∷ ValueType.string ∷ [])
      (int_arg 4 ∷ string_arg (104 ∷ []) ∷ [])
unfolding AllPassed AllPlain passes needs_print
number-AllPassed = (refl, (record { passed = refl; kept = refl }, tt))

number-AllPassed_signature :
    AllPassed libc
      (cons (int32 4) (cons (string (104 ∷ [])) nil))
      (function_get_signature number_and_text).param
      (int_arg 4 ∷ string_arg (104 ∷ []) ∷ [])
number-AllPassed_signature = rw text_signature number-AllPassed

cfunction_call-passes_example :
    cfunction_call libc true seven number_and_text
      (array (cons (int32 4) (cons (string (104 ∷ [])) nil)))
    ≡ returned (
        return_value
          (function_get_signature number_and_text).ret
          (seven (int_arg 4 ∷ string_arg (104 ∷ []) ∷ [])))
cfunction_call-passes_example =
    cfunction_call-passes libc seven number_and_text (cons (int32 4) (cons (string (104 ∷ [])) nil))
      (int_arg 4 ∷ string_arg (104 ∷ []) ∷ []) number-AllPassed_signature

two_plain :
    AllPlain libc
      (cons (int32 4) (cons (int32 4) nil))
      (ValueType.int32 ∷ ValueType.int32 ∷ [])
      (int_arg 4 ∷ int_arg 4 ∷ [])
unfolding AllPlain
two_plain = (IsPlain-number, (IsPlain-number, tt))

printed_number : needs_print (int32 4) ValueType.string ≡ true
unfolding needs_print
printed_number = refl

two_before : 2 ≤ count_items (cons (int32 4) (cons (int32 4) nil))
unfolding count_items
two_before = omega arith

cfunction_call_overran_example :
    cfunction_call libc true seven numbers_and_text
      (array (snoc (cons (int32 4) (cons (int32 4) nil)) (int32 4)))
    ≡ overran (count_items (cons (int32 4) (cons (int32 4) nil)))
cfunction_call_overran_example =
    cfunction_call_overran libc seven numbers_and_text (cons (int32 4) (cons (int32 4) nil))
      (int32 4) (ValueType.int32 ∷ ValueType.int32 ∷ []) (int_arg 4 ∷ int_arg 4 ∷ [])
      three_signature two_plain printed_number two_before

cfunction_call_clobbered_example :
    cfunction_call libc true seven number_and_text (array (cons (int32 4) (cons (int32 4) nil)))
    ≡ returned (
        return_value
          (function_get_signature number_and_text).ret
          (seven (int_arg 4 ∷ clobbered ∷ [])))
cfunction_call_clobbered_example =
    cfunction_call_clobbered libc seven number_and_text (int32 4) (int32 4) ValueType.int32
      (int_arg 4) text_signature IsPlain-number printed_number

seven_returned :
    cfunction_call libc true seven number_and_text (array (cons (int32 4) (cons (int32 4) nil)))
    ≡ returned (some (int32 7))
unfolding function_get_signature parse_type type_of_char return_value
seven_returned =
    cfunction_call_clobbered libc seven number_and_text (int32 4) (int32 4) ValueType.int32
      (int_arg 4) text_signature IsPlain-number printed_number

cfunction_call-typed_example :
    let sig = function_get_signature number_and_text in
    (as' : List Arg) × AreTyped sig.param as'
    × (some (int32 7) ≡ return_value sig.ret (seven as'))
    × IsResult sig.ret (some (int32 7))
cfunction_call-typed_example =
    cfunction_call-typed libc true seven number_and_text
      (array (cons (int32 4) (cons (int32 4) nil))) (some (int32 7)) seven_returned
