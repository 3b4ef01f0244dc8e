-- ===== src/Function/Passing.antt =====
-- `cfunction_call` as a whole: when the C function gets its arguments, and when it does not.
use cagekeeper.Prelude.{
  ℕ, suc, ◌≡◌, inl, inr, refl, sym, ◌∙◌, true, Bool-cases, some, List, [], ◌∷◌, length, replicate,
  length-replicate, arith, ==_iff,
}
use cagekeeper.Function.Arguments.{
  passes, needs_print, AllPlain, text_of, convert-printed, Fills, write_slot-lt, fill-plain,
}
use cagekeeper.Function.Call.{
  Libc, Slot, unset, tmp_str, ptr_slot, printed, convert, filled, store_arg, fill_args, Arg,
  string_arg, receive, receive_from, RawReturn, return_value, returned, invoke, cfunction_call,
}
use cagekeeper.Function.Signature.{CFunctionDef, function_get_signature, function_get_signature_lem}
use cagekeeper.Value.{Value, Items, ValueType, array, nil, cons, count_items}

-- Every argument goes with its parameter, and none but the first has to be printed.
unfoldable pub AllPassed : Libc → Items → List ValueType → List Arg → Type 0
unfolding AllPlain
AllPassed c nil [] [] = Unit
AllPassed c (cons v vs) (ty ∷ ts) (a ∷ as') = (passes c v ty ≡ some a) × AllPlain c vs ts as'
AllPassed c _ _ _ = ⊥

pub length-AllPlain :
    (c : Libc) (vs : Items) (ts : List ValueType) (as' : List Arg)
    → AllPlain c vs ts as'
    → length ts ≡ count_items vs
unfolding AllPlain count_items
length-AllPlain c nil [] [] p = refl
length-AllPlain c (cons v vs) (ty ∷ ts) (a ∷ as') p = omega (arith, length-AllPlain c vs ts as' p.1)
length-AllPlain c _ _ _ p = elim p [ ]

length-AllPassed :
    (c : Libc) (vs : Items) (ts : List ValueType) (as' : List Arg)
    → AllPassed c vs ts as'
    → length ts ≡ count_items vs
unfolding AllPassed count_items
length-AllPassed c nil [] [] p = refl
length-AllPassed c (cons v vs) (ty ∷ ts) (a ∷ as') p =
    omega (arith, length-AllPlain c vs ts as' p.1)
length-AllPassed c _ _ _ p = elim p [ ]

-- A call with as many arguments as parameters fills the slots and goes on.
pub call-invoke :
    (c : Libc) (call : List Arg → RawReturn) (f : CFunctionDef) (args : Items)
    → length (function_get_signature f).param ≡ count_items args
    → cfunction_call c true call f (array args)
      ≡ invoke call (function_get_signature f).ret (count_items args) (
          fill_args c 0 args
            (function_get_signature f).param
            (replicate (suc (count_items args)) unset))
unfolding cfunction_call
call-invoke c call f args len =
    let same : (function_get_signature f).num_params ≡ count_items args =
      sym (function_get_signature_lem f).1 ∙ len in
    rw ((==_iff _ _).1 same)

-- A printed first argument has slot 0 for its text.
first-runs :
    (c : Libc) (v : Value) (vs : Items) (ty : ValueType) (ts : List ValueType) (as' : List Arg)
    (text : List ℕ) (done : List Slot)
    → convert c v ty ≡ printed text
    → Fills c 1 vs ts as' (tmp_str text ∷ ptr_slot 0 ∷ replicate (count_items vs) unset) done
    → fill_args c 0 (cons v vs) (ty ∷ ts) (replicate (suc (suc (count_items vs))) unset)
      ≡ filled done
unfolding fill_args store_arg
first-runs c v vs ty ts as' text done form f =
    rw
      (
        form,
        write_slot-lt 0 0 (tmp_str text) (unset ∷ unset ∷ replicate (count_items vs) unset) _
            (omega arith),
        write_slot-lt 0 1 (ptr_slot 0) (tmp_str text ∷ unset ∷ replicate (count_items vs) unset) _
            (omega arith),
      )
      f.runs

first-receives :
    (c : Libc) (vs : Items) (ts : List ValueType) (as' : List Arg) (text : List ℕ)
    (rest done : List Slot)
    → Fills c 1 vs ts as' (tmp_str text ∷ ptr_slot 0 ∷ rest) done
    → receive_from done 0 (suc (count_items vs)) ≡ string_arg text ∷ as'
unfolding receive_from receive
first-receives c vs ts as' text rest done f =
    rw (f.keeps 1 (omega arith), f.keeps 0 (omega arith), f.receives)

-- The loop over the first argument, printed or not, and plain ones.
fill-passed :
    (c : Libc) (vs : Items) (ts : List ValueType) (as' : List Arg)
    → AllPassed c vs ts as'
    → (done : List Slot) × (fill_args c 0 vs ts (replicate (suc (count_items vs)) unset)
        ≡ filled done)
      × (receive_from done 0 (count_items vs) ≡ as')
unfolding AllPassed count_items fill_args receive_from
fill-passed c nil [] [] p = (unset ∷ [], refl, refl)
fill-passed c (cons v vs) (ty ∷ ts) (a ∷ as') p = elim (Bool-cases (needs_print v ty)) [
  | inr plain ↦
      let (done, f) =
        fill-plain c 0 (cons v vs) (ty ∷ ts) (a ∷ as')
          (replicate (suc (suc (count_items vs))) unset)
          (unfold AllPlain in (record { passed = p.0; kept = plain }, p.1))
          (length-replicate (suc (suc (count_items vs))) unset ∙ omega arith) in
      (done, f.runs, f.receives)
  | inl print ↦
      let text = text_of (convert c v ty) in
      let slots : List Slot = tmp_str text ∷ ptr_slot 0 ∷ replicate (count_items vs) unset in
      let (done, f) =
        fill-plain c 1 vs ts as' slots p.1
          (omega (arith, length-replicate (count_items vs) unset)) in
      let (form, value) = convert-printed c v ty print in
      let same : a ≡ string_arg text = ground arith in
      (
        done,
        first-runs c v vs ty ts as' text done form f,
        rw same (first-receives c vs ts as' text _ done f),
      )
]
fill-passed c _ _ _ p = elim p [ ]

-- Where every argument goes with its parameter, and none but the first is a number or an array for
-- a string, the C function gets exactly what should be passed, and its result is handed back.
pub cfunction_call-passes :
    (c : Libc) (call : List Arg → RawReturn) (f : CFunctionDef) (args : Items) (as' : List Arg)
    → AllPassed c args (function_get_signature f).param as'
    → cfunction_call c true call f (array args)
      ≡ returned (return_value (function_get_signature f).ret (call as'))
cfunction_call-passes c call f args as' p =
    let (done, runs, gets) = fill-passed c args (function_get_signature f).param as' p in
    call-invoke c call f args (length-AllPassed c args (function_get_signature f).param as' p)
    ∙ unfold invoke in rw (runs, gets)
