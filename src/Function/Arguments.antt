-- ===== src/Function/Arguments.antt =====
-- What the C function receives from `cfunction_call`.
use cagekeeper.Prelude.{
  ℕ, suc, ◌+◌, ◌≤◌, ◌<◌, ◌≡◌, refl, ◌∙◌, Bool, true, false, not, Option, none, some, List, [], ◌∷◌,
  length, get_or, set, length-set, arith, lt→ltb, ◌==◌, if◌then◌else◌,
}
use cagekeeper.Dict.Chain.{get_or-set}
use cagekeeper.Function.Call.{
  Libc, Slot, unset, Conversion, stored, printed, true_text, false_text, convert, Filled, filled,
  write_slot, store_arg, fill_args, Arg, int_arg, float_arg, bool_arg, string_arg, value_arg,
  null_arg, receive, receive_from,
}
use cagekeeper.Value.{
  Value, Items, ValueType, void, float32, int32, boolean, string, array, nil, cons, count_items,
}

-- What a parameter of type `ty` should get for a value: the value itself, a number or a truth value
-- converted, or its text; and nothing where the two do not go together.
unfoldable pub passes : Libc → Value → ValueType → Option Arg
passes c (float32 v) ValueType.float32 = some (float_arg v)
passes c (float32 v) ValueType.int32 = some (int_arg (c.int_of_float v))
passes c (float32 v) ValueType.boolean = some (bool_arg (not (c.int_of_float v == 0)))
passes c (float32 v) ValueType.string = some (string_arg (c.print_float v))
passes c (int32 v) ValueType.float32 = some (float_arg (c.float_of_int v))
passes c (int32 v) ValueType.int32 = some (int_arg v)
passes c (int32 v) ValueType.boolean = some (bool_arg (not (v == 0)))
passes c (int32 v) ValueType.string = some (string_arg (c.print_int v))
passes c (boolean v) ValueType.float32 = some (float_arg (c.float_of_int (if v then 1 else 0)))
passes c (boolean v) ValueType.int32 = some (int_arg (if v then 1 else 0))
passes c (boolean v) ValueType.boolean = some (bool_arg v)
passes c (boolean v) ValueType.string = some (string_arg (if v then true_text else false_text))
passes c (string v) ValueType.string = some (string_arg v)
passes c (array vs) ValueType.array = some (value_arg (array vs))
passes c (array vs) ValueType.string = some (string_arg (c.print_array (count_items vs)))
passes c void ValueType.void = some null_arg
passes c _ _ = none

-- A number or an array for a string has to be printed.
unfoldable pub needs_print : Value → ValueType → Bool
needs_print (float32 v) ValueType.string = true
needs_print (int32 v) ValueType.string = true
needs_print (array vs) ValueType.string = true
needs_print _ _ = false

-- An argument that is passed as `a` without printing.
pub record IsPlain (c : Libc) (v : Value) (ty : ValueType) (a : Arg) : Type 0 where
  pub passed : passes c v ty ≡ some a
  pub kept : needs_print v ty ≡ false

-- Values, parameters and what is passed for them, one by one.
unfoldable pub AllPlain : Libc → Items → List ValueType → List Arg → Type 0
AllPlain c nil [] [] = Unit
AllPlain c (cons v vs) (ty ∷ ts) (a ∷ as') = IsPlain c v ty a × AllPlain c vs ts as'
AllPlain c _ _ _ = ⊥

unfoldable pub slot_of : Conversion → Slot
slot_of (stored s) = s
slot_of _ = unset

unfoldable pub text_of : Conversion → List ℕ
text_of (printed text) = text
text_of _ = []

-- A plain argument is stored, and read back whatever the other slots hold.
pub convert-plain :
    (c : Libc) (v : Value) (ty : ValueType) (a : Arg) (slots : List Slot)
    → IsPlain c v ty a
    → (convert c v ty ≡ stored (slot_of (convert c v ty)))
      × (receive slots (slot_of (convert c v ty)) ≡ a)
unfolding convert passes needs_print receive slot_of
convert-plain c (float32 v) ValueType.float32 a slots p = (refl, ground arith)
convert-plain c (boolean true) ValueType.float32 a slots p = (refl, ground arith)
convert-plain c _ _ a slots p = ground arith

-- A printed argument is the text that should be passed.
pub convert-printed :
    (c : Libc) (v : Value) (ty : ValueType)
    → needs_print v ty ≡ true
    → (convert c v ty ≡ printed (text_of (convert c v ty)))
      × (passes c v ty ≡ some (string_arg (text_of (convert c v ty))))
unfolding convert passes needs_print text_of
convert-printed c (float32 v) ValueType.string p = (refl, refl)
convert-printed c _ _ p = ground arith

-- The loop over plain arguments from parameter `i` on fills the slots behind `i` and no others, and
-- the C function then receives what should be passed.
pub record Fills (c : Libc) (i : ℕ) (vs : Items) (ts : List ValueType) (as' : List Arg)
    (slots done : List Slot) : Type 0 where
  pub runs : fill_args c i vs ts slots ≡ filled done
  pub keeps : (k : ℕ) → k ≤ i → get_or done k unset ≡ get_or slots k unset
  pub receives : receive_from done i (count_items vs) ≡ as'

pub write_slot-lt :
    (i k : ℕ) (s : Slot) (slots : List Slot) (rest : List Slot → Filled)
    → k < length slots
    → write_slot i k s slots rest ≡ rest (set slots k s)
unfolding write_slot
write_slot-lt i k s slots rest h = rw (lt→ltb k (length slots) h)

pub fill-plain :
    (c : Libc) (i : ℕ) (vs : Items) (ts : List ValueType) (as' : List Arg) (slots : List Slot)
    → AllPlain c vs ts as'
    → length slots ≡ suc (i + count_items vs)
    → (done : List Slot) × Fills c i vs ts as' slots done
unfolding fill_args receive_from AllPlain count_items store_arg slot_of
fill-plain c i nil [] [] slots p len =
    (slots, record { runs = refl; keeps = λ k h. refl; receives = refl })
fill-plain c i (cons v vs) (ty ∷ ts) (a ∷ as') slots p len =
    let s = slot_of (convert c v ty) in
    let room : suc i < length slots = omega arith in
    let next = set slots (suc i) s in
    let (done, f) =
      fill-plain c (suc i) vs ts as' next p.1 (length-set slots (suc i) s ∙ omega arith) in
    let here = get_or-set slots (suc i) (suc i) s unset room in
    (
      done,
      record {
        runs =
            rw
              (
                (convert-plain c v ty a slots p.0).0,
                store_arg,
                write_slot-lt i (suc i) s slots _ room,
              )
              f.runs;
        keeps = λ k h.
            f.keeps k (omega arith) ∙ (get_or-set slots (suc i) k s unset room).1 (omega arith);
        receives = rw (
          f.keeps (suc i) (omega arith),
          here.0 refl,
          (convert-plain c v ty a done p.0).1,
          f.receives,
        );
      },
    )
fill-plain c i _ _ _ slots p len = elim p [ ]
