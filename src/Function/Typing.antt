-- ===== src/Function/Typing.antt =====
-- `cfunction_call` and the types of the C function: what reaches it and what comes back, whatever the
-- arguments are.
use cagekeeper.Prelude.{
  ℕ, suc, ◌+◌, ◌≤◌, ◌<◌, ◌≡◌, refl, ◌≢◌, ◌∙◌, Bool, true, false, inl, inr, Option, none, some, List,
  [], ◌∷◌, length, get_or, set, arith, ltb, ltb→lt, Bool-cases, ◌==◌, ==_iff,
}
use cagekeeper.Dict.Chain.{get_or-set}
use cagekeeper.Function.Call.{
  Libc, Slot, unset, tmp_str, ptr_slot, Conversion, stored, printed, refused, convert, Filled,
  filled, write_slot, store_arg, fill_args, Arg, int_arg, float_arg, bool_arg, string_arg,
  value_arg, null_arg, clobbered, receive, receive_from, RawReturn, return_value, returned, invoke,
  cfunction_call,
}
use cagekeeper.Function.Signature.{
  CFunctionDef, FunctionSignature, function_get_signature, function_get_signature_lem,
  function_get_signature-ne_function,
}
use cagekeeper.Value.{
  Value, Items, ValueType, void, float32, int32, boolean, string, array, nil, cons, count_items,
  type_of,
}

-- An argument that a parameter of this type can take. Only a string can be overwritten text.
unfoldable pub IsTyped : ValueType → Arg → Type 0
IsTyped ValueType.float32 (float_arg f) = Unit
IsTyped ValueType.int32 (int_arg n) = Unit
IsTyped ValueType.boolean (bool_arg v) = Unit
IsTyped ValueType.string (string_arg s) = Unit
IsTyped ValueType.string clobbered = Unit
IsTyped ValueType.array (value_arg (array vs)) = Unit
IsTyped ValueType.void null_arg = Unit
IsTyped _ _ = ⊥

unfoldable pub AreTyped : List ValueType → List Arg → Type 0
AreTyped [] [] = Unit
AreTyped (ty ∷ ts) (a ∷ as') = IsTyped ty a × AreTyped ts as'
AreTyped _ _ = ⊥

-- A slot that reads as an argument of this type whatever the other slots hold.
abbrev IsTypedSlot : ValueType → Slot → Type 0
IsTypedSlot ty s = (slots : List Slot) → IsTyped ty (receive slots s)

unfoldable IsTypedConversion : ValueType → Conversion → Type 0
IsTypedConversion ty (stored s) = IsTypedSlot ty s
IsTypedConversion ty (printed text) = ty ≡ ValueType.string
IsTypedConversion ty refused = Unit

convert-IsTypedConversion :
    (c : Libc) (v : Value) (ty : ValueType) → IsTypedConversion ty (convert c v ty)
unfolding convert IsTypedConversion IsTyped receive
convert-IsTypedConversion c (float32 v) ValueType.float32 = λ slots. tt
convert-IsTypedConversion c (float32 v) ValueType.int32 = λ slots. tt
convert-IsTypedConversion c (float32 v) ValueType.boolean = λ slots. tt
convert-IsTypedConversion c (float32 v) ValueType.string = refl
convert-IsTypedConversion c (int32 v) ValueType.float32 = λ slots. tt
convert-IsTypedConversion c (int32 v) ValueType.int32 = λ slots. tt
convert-IsTypedConversion c (int32 v) ValueType.boolean = λ slots. tt
convert-IsTypedConversion c (int32 v) ValueType.string = refl
convert-IsTypedConversion c (boolean v) ValueType.float32 = λ slots. tt
convert-IsTypedConversion c (boolean v) ValueType.int32 = λ slots. tt
convert-IsTypedConversion c (boolean v) ValueType.boolean = λ slots. tt
convert-IsTypedConversion c (boolean v) ValueType.string = λ slots. tt
convert-IsTypedConversion c (string v) ValueType.string = λ slots. tt
convert-IsTypedConversion c void ValueType.void = λ slots. tt
convert-IsTypedConversion c (array vs) ValueType.array = λ slots. tt
convert-IsTypedConversion c (array vs) ValueType.string = refl
convert-IsTypedConversion c _ _ = tt

text_at-IsTyped : (s : Slot) → IsTyped ValueType.string (receive (s ∷ []) (ptr_slot 0))
unfolding IsTyped receive
text_at-IsTyped (tmp_str t) = tt
text_at-IsTyped _ = tt

ptr_slot-IsTypedSlot : (k : ℕ) → IsTypedSlot ValueType.string (ptr_slot k)
unfolding receive
ptr_slot-IsTypedSlot k slots = text_at-IsTyped (get_or slots k unset)

write_slot-filled :
    (i k : ℕ) (s : Slot) (slots : List Slot) (rest : List Slot → Filled) (done : List Slot)
    → write_slot i k s slots rest ≡ filled done
    → (k < length slots) × (rest (set slots k s) ≡ filled done)
unfolding write_slot
write_slot-filled i k s slots rest done h = elim (Bool-cases (ltb k (length slots))) [
  | inl e ↦ (ltb→lt k (length slots) e, rw e at h)
  | inr e ↦ ground arith
]

-- Once an argument is stored, its slot has the type of the parameter, and the slots of the parameters
-- before it are as they were.
record Stores (i : ℕ) (ty : ValueType) (slots : List Slot) (rest : List Slot → Filled)
    (done : List Slot) : Type 0 where
  next : List Slot
  slot : Slot
  goes_on : rest next ≡ filled done
  typed : IsTypedSlot ty slot
  stored_at : get_or next (suc i) unset ≡ slot
  kept : (k : ℕ) → 0 < k → k ≤ i → get_or next k unset ≡ get_or slots k unset

store_arg-Stores :
    (i : ℕ) (ty : ValueType) (v : Conversion) (slots : List Slot) (rest : List Slot → Filled)
    (done : List Slot)
    → IsTypedConversion ty v
    → store_arg i v slots rest ≡ filled done
    → Stores i ty slots rest done
unfolding store_arg IsTypedConversion
store_arg-Stores i ty (stored s) slots rest done typed h =
    let (room, more) = write_slot-filled i (suc i) s slots rest done h in
    record {
      next = set slots (suc i) s;
      slot = s;
      goes_on = more;
      typed = typed;
      stored_at = (get_or-set slots (suc i) (suc i) s unset room).0 refl;
      kept = λ k pos le. (get_or-set slots (suc i) k s unset room).1 (omega arith);
    }
store_arg-Stores i ty (printed text) slots rest done typed h =
    let (room, more) =
      write_slot-filled i (i + i) (tmp_str text) slots
        (λ written. write_slot i (suc i) (ptr_slot (i + i)) written rest) done h in
    let written = set slots (i + i) (tmp_str text) in
    let (room', more') = write_slot-filled i (suc i) (ptr_slot (i + i)) written rest done more in
    record {
      next = set written (suc i) (ptr_slot (i + i));
      slot = ptr_slot (i + i);
      goes_on = more';
      typed = rw typed (ptr_slot-IsTypedSlot (i + i));
      stored_at = (get_or-set written (suc i) (suc i) (ptr_slot (i + i)) unset room').0 refl;
      kept = λ k pos le.
          (get_or-set written (suc i) k (ptr_slot (i + i)) unset room').1 (omega arith)
          ∙ (get_or-set slots (i + i) k (tmp_str text) unset room).1 (omega arith);
    }
store_arg-Stores i ty refused slots rest done typed h = ground arith

fill_args-AreTyped :
    (c : Libc) (i : ℕ) (vs : Items) (ts : List ValueType) (slots done : List Slot)
    → length ts ≡ count_items vs
    → fill_args c i vs ts slots ≡ filled done
    → ((k : ℕ) → 0 < k → k ≤ i → get_or done k unset ≡ get_or slots k unset)
      × AreTyped ts (receive_from done i (count_items vs))
unfolding fill_args receive_from AreTyped count_items
fill_args-AreTyped c i nil [] slots done len h = (λ k pos le. ground arith, tt)
fill_args-AreTyped c i nil (ty ∷ ts) slots done len h = absurd (omega arith)
fill_args-AreTyped c i (cons v vs) [] slots done len h = absurd (omega arith)
fill_args-AreTyped c i (cons v vs) (ty ∷ ts) slots done len h =
    let s =
      store_arg-Stores i ty (convert c v ty) slots (fill_args c (suc i) vs ts) done
        (convert-IsTypedConversion c v ty) h in
    let (kept, typed) = fill_args-AreTyped c (suc i) vs ts s.next done (omega arith) s.goes_on in
    (
      λ k pos le. kept k pos (omega arith) ∙ s.kept k pos le,
      (rw (kept (suc i) (omega arith) (omega arith), s.stored_at) (s.typed done), typed),
    )

-- The type of what is handed back, where the C function hands back an array for an array.
unfoldable pub IsResult : ValueType → Option Value → Type 0
IsResult ValueType.array r = Unit
IsResult ty none = ⊥
IsResult ty (some v) = type_of v ≡ ty

return_value-IsResult :
    (ret : ValueType) (raw : RawReturn)
    → ret ≢ ValueType.function
    → IsResult ret (return_value ret raw)
unfolding return_value IsResult type_of
return_value-IsResult ValueType.void raw n = refl
return_value-IsResult ValueType.float32 raw n = refl
return_value-IsResult ValueType.int32 raw n = refl
return_value-IsResult ValueType.boolean raw n = refl
return_value-IsResult ValueType.string raw n = refl
return_value-IsResult ValueType.array raw n = tt
return_value-IsResult ValueType.function raw n = absurd (n refl)

invoke-typed :
    (call : List Arg → RawReturn) (sig : FunctionSignature) (n : ℕ) (r : Option Value)
    (slots : Filled)
    → ((done : List Slot) → slots ≡ filled done → AreTyped sig.param (receive_from done 0 n))
    → invoke call sig.ret n slots ≡ returned r
    → (as' : List Arg) × AreTyped sig.param as' × (r ≡ return_value sig.ret (call as'))
unfolding invoke
invoke-typed call sig n r (filled done) typed h =
    (receive_from done 0 n, typed done refl, ground (arith, h))
invoke-typed call sig n r _ typed h = ground arith

-- Whatever arguments a function of the program is called with: if the call returns, the C function
-- has received one argument for each parameter of its signature, each of the parameter's type, except
-- that the text for a string may be overwritten; and what is handed back is made from its result, with
-- the type that the signature declares, where an array is handed back as it came.
pub cfunction_call-typed :
    (c : Libc) (prepared : Bool) (call : List Arg → RawReturn) (f : CFunctionDef) (args : Value)
    (r : Option Value)
    → cfunction_call c prepared call f args ≡ returned r
    → let sig = function_get_signature f in
      (as' : List Arg) × AreTyped sig.param as'
      × (r ≡ return_value sig.ret (call as'))
      × IsResult sig.ret r
unfolding cfunction_call
cfunction_call-typed c false call f (array vs) r h = ground arith
cfunction_call-typed c true call f (array vs) r h =
    let sig = function_get_signature f in
    elim (Bool-cases (sig.num_params == count_items vs)) [
      | inr e ↦ absurd (ground (arith, h))
      | inl e ↦
          let same : length sig.param ≡ count_items vs =
            (function_get_signature_lem f).1 ∙ (==_iff sig.num_params (count_items vs)).0 e in
          let (as', typed, result) =
            invoke-typed call sig (count_items vs) r _
              (λ done e'. (fill_args-AreTyped c 0 vs sig.param _ done same e').1) (rw e at h) in
          (
            as',
            typed,
            result,
            rw result
                (return_value-IsResult sig.ret (call as') (function_get_signature-ne_function f)),
          )
    ]
cfunction_call-typed c prepared call f _ r h = ground arith
