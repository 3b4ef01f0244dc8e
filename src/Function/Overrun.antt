-- ===== src/Function/Overrun.antt =====
-- Printed arguments behind the first one: the text goes to slot `i + i` of `args_data`, where slot
-- `i + 1` belongs to the parameter.
use cagekeeper.Prelude.{
  ℕ, suc, ◌+◌, ◌≤◌, ◌≡◌, refl, ap, ◌∙◌, true, List, [], ◌∷◌, ◌++◌, length, set, replicate,
  length-set, length-replicate, length-append, arith, ltb, ltb→lt, Bool-cases, inl, inr,
}
use cagekeeper.Function.Arguments.{
  needs_print, IsPlain, AllPlain, slot_of, text_of, convert-plain, convert-printed, write_slot-lt,
}
use cagekeeper.Function.Call.{
  Libc, Slot, unset, tmp_str, ptr_slot, convert, Filled, overflow, write_slot, store_arg, fill_args,
  Arg, clobbered, receive, receive_from, RawReturn, return_value, returned, overran, invoke,
  cfunction_call,
}
use cagekeeper.Function.Passing.{length-AllPlain, call-invoke}
use cagekeeper.Function.Signature.{CFunctionDef, function_get_signature}
use cagekeeper.Value.{Value, Items, ValueType, array, nil, cons, count_items}

-- One more item at the end.
unfoldable pub snoc : Items → Value → Items
snoc nil v = cons v nil
snoc (cons x vs) v = cons x (snoc vs v)

pub count_items-snoc : (vs : Items) (v : Value) → count_items (snoc vs v) ≡ suc (count_items vs)
unfolding snoc count_items
count_items-snoc nil v = refl
count_items-snoc (cons x vs) v = ap suc (count_items-snoc vs v)

write_slot-le :
    (i k : ℕ) (s : Slot) (slots : List Slot) (rest : List Slot → Filled)
    → length slots ≤ k
    → write_slot i k s slots rest ≡ overflow i
unfolding write_slot
write_slot-le i k s slots rest h = elim (Bool-cases (ltb k (length slots))) [
  | inl y ↦ absurd (omega (arith, ltb→lt k (length slots) y))
  | inr n ↦ rw n
]

fill-overflow :
    (c : Libc) (v : Value) (i : ℕ) (vs : Items) (ts : List ValueType) (as' : List Arg)
    (slots : List Slot)
    → AllPlain c vs ts as'
    → needs_print v ValueType.string ≡ true
    → length slots ≡ suc (suc (i + count_items vs))
    → 2 ≤ i + count_items vs
    → fill_args c i (snoc vs v) (ts ++ ValueType.string ∷ []) slots ≡ overflow (i + count_items vs)
unfolding fill_args AllPlain count_items snoc store_arg slot_of
fill-overflow c v i nil [] [] slots p print len late =
    rw
      (
        (convert-printed c v ValueType.string print).0,
        write_slot-le i (i + i) (tmp_str (text_of (convert c v ValueType.string))) slots _
            (omega arith),
      )
      (ap overflow (omega arith))
fill-overflow c v i (cons x vs) (ty ∷ ts) (a ∷ as') slots p print len late =
    let s = slot_of (convert c x ty) in
    rw
      (
        (convert-plain c x ty a slots p.0).0,
        write_slot-lt i (suc i) s slots _ (omega arith),
        fill-overflow c v (suc i) vs ts as' (set slots (suc i) s) p.1 print
            (length-set slots (suc i) s ∙ omega arith) (omega arith),
      )
      (ap overflow (omega arith))
fill-overflow c v i _ _ _ slots p print len late = elim p [ ]

-- A call of a function with three parameters or more, the last of them a string for which a number
-- or an array is given, writes past the end of `args_data`; the arguments before it are plain.
pub cfunction_call_overran :
    (c : Libc) (call : List Arg → RawReturn) (f : CFunctionDef) (before : Items) (v : Value)
    (ts : List ValueType) (as' : List Arg)
    → (function_get_signature f).param ≡ ts ++ ValueType.string ∷ []
    → AllPlain c before ts as'
    → needs_print v ValueType.string ≡ true
    → 2 ≤ count_items before
    → cfunction_call c true call f (array (snoc before v)) ≡ overran (count_items before)
cfunction_call_overran c call f before v ts as' sig p print late =
    let n = count_items-snoc before v in
    let len : length (function_get_signature f).param ≡ count_items (snoc before v) =
      rw (sig, n)
        (omega
          (arith, length-append ts (ValueType.string ∷ []), length-AllPlain c before ts as' p)) in
    call-invoke c call f (snoc before v) len
    ∙ rw
        (
          sig,
          n,
          fill-overflow c v 0 before ts as' (replicate (suc (suc (count_items before))) unset) p
              print (length-replicate (suc (suc (count_items before))) unset ∙ omega arith)
              (omega arith),
        )
        (unfold invoke in ap overran (omega arith))

-- Of two arguments, the first of which is passed without being printed, the second, a number or an
-- array for a string, is overwritten by the pointer to it before the C function reads it.
pub cfunction_call_clobbered :
    (c : Libc) (call : List Arg → RawReturn) (f : CFunctionDef) (u v : Value) (ty : ValueType)
    (a : Arg)
    → (function_get_signature f).param ≡ ty ∷ ValueType.string ∷ []
    → IsPlain c u ty a
    → needs_print v ValueType.string ≡ true
    → cfunction_call c true call f (array (cons u (cons v nil)))
      ≡ returned (return_value (function_get_signature f).ret (call (a ∷ clobbered ∷ [])))
unfolding count_items fill_args store_arg receive_from slot_of
cfunction_call_clobbered c call f u v ty a sig p print =
    let s = slot_of (convert c u ty) in
    let text = text_of (convert c v ValueType.string) in
    call-invoke c call f (cons u (cons v nil)) (rw sig refl)
    ∙ rw
        (
          sig,
          (convert-plain c u ty a [] p).0,
          write_slot-lt 0 1 s (unset ∷ unset ∷ unset ∷ []) _ (omega arith),
          (convert-printed c v ValueType.string print).0,
          write_slot-lt 1 2 (tmp_str text) (unset ∷ s ∷ unset ∷ []) _ (omega arith),
          write_slot-lt 1 2 (ptr_slot 2) (unset ∷ s ∷ tmp_str text ∷ []) _ (omega arith),
        )
        (unfold invoke receive in
          ap
            (λ x.
              returned (return_value (function_get_signature f).ret (call (x ∷ clobbered ∷ []))))
            (convert-plain c u ty a (unset ∷ s ∷ ptr_slot 2 ∷ []) p).1)
