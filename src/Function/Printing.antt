-- ===== src/Function/Printing.antt =====
-- function.c: the names of types, and the texts of values, signatures and foreign calls that are
-- printed for debugging. What printf does with a number is a parameter.
use cagekeeper.Prelude.{
  ℕ, suc, Option, none, some, false, ◌≡◌, refl, ap, append-nil, arith, length, List, [], ◌∷◌, ◌++◌,
  map, ◌==◌, if◌then◌else◌,
}
use cagekeeper.Function.Signature.{
  FunctionSignature, FfiType, ffi_void, ffi_float, ffi_sint32, ffi_uint8, ffi_pointer,
}
use cagekeeper.Value.{
  Value, Items, ValueType, void, float32, int32, boolean, string, array, function, nil, cons,
}

abbrev pub void_text : List ℕ
void_text = b'v' ∷ b'o' ∷ b'i' ∷ b'd' ∷ []

-- `type_to_string`; a function has no name of its own
unfoldable pub type_to_string : ValueType → List ℕ
type_to_string void = void_text
type_to_string float32 = b'f' ∷ b'l' ∷ b'o' ∷ b'a' ∷ b't' ∷ b'3' ∷ b'2' ∷ []
type_to_string int32 = b'i' ∷ b'n' ∷ b't' ∷ b'3' ∷ b'2' ∷ []
type_to_string boolean = b'b' ∷ b'o' ∷ b'o' ∷ b'l' ∷ b'e' ∷ b'a' ∷ b'n' ∷ []
type_to_string string = b's' ∷ b't' ∷ b'r' ∷ b'i' ∷ b'n' ∷ b'g' ∷ []
type_to_string array = b'a' ∷ b'r' ∷ b'r' ∷ b'a' ∷ b'y' ∷ []
type_to_string function = b'<' ∷ b'u' ∷ b'n' ∷ b'k' ∷ b'n' ∷ b'o' ∷ b'w' ∷ b'n' ∷ b'>' ∷ []

abbrev pub comma : List ℕ
comma = b',' ∷ b' ' ∷ []

-- a loop over `i` with `if(i>0) printf(", ")` in front of each item
unfoldable pub dump_from {ℓ} : {A : Type ℓ} → (A → List ℕ) → ℕ → List A → List ℕ
dump_from text i [] = []
dump_from text i (x ∷ xs) = (if i == 0 then [] else comma) ++ (text x ++ dump_from text (suc i) xs)

-- `function_signature_dump`
unfoldable pub function_signature_dump : FunctionSignature → List ℕ
function_signature_dump sig =
    (b's' ∷ b'i' ∷ b'g' ∷ b':' ∷ b' ' ∷ b'(' ∷ [])
    ++ (dump_from type_to_string 0 sig.param ++ (b')' ∷ b':' ∷ (type_to_string sig.ret ++ 10 ∷ [])))

-- `_ffi_arg_type`, for the types that occur
unfoldable pub ffi_arg_type : FfiType → List ℕ
ffi_arg_type ffi_void = void_text
ffi_arg_type ffi_float = b'f' ∷ b'l' ∷ b'o' ∷ b'a' ∷ b't' ∷ []
ffi_arg_type ffi_sint32 = b's' ∷ b'i' ∷ b'n' ∷ b't' ∷ b'3' ∷ b'2' ∷ []
ffi_arg_type ffi_uint8 = b'u' ∷ b'i' ∷ b'n' ∷ b't' ∷ b'8' ∷ []
ffi_arg_type ffi_pointer = b'p' ∷ b'o' ∷ b'i' ∷ b'n' ∷ b't' ∷ b'e' ∷ b'r' ∷ []

-- `dump_ffi_call`, of the argument types and the result type of a prepared call
unfoldable pub dump_ffi_call : List FfiType → FfiType → List ℕ
dump_ffi_call arg_types rtype =
    b'(' ∷ (dump_from ffi_arg_type 0 arg_types ++ (b')' ∷ b':' ∷ (ffi_arg_type rtype ++ 10 ∷ [])))

-- `%f` and `%d`
module _ (print_float print_int : ℕ → List ℕ) where
  abbrev print_tagged : List ℕ → List ℕ → List ℕ
  print_tagged tag text = b'(' ∷ (tag ++ b')' ∷ text)

  -- `value_dump` of a value; the pointer is not NULL
  unfoldable mutual
    pub value_dump : Value → List ℕ
    value_dump void = void_text
    value_dump (float32 f) = print_tagged (b'f' ∷ b'3' ∷ b'2' ∷ []) (print_float f)
    value_dump (int32 i) = print_tagged (b'i' ∷ b'3' ∷ b'2' ∷ []) (print_int i)
    value_dump (boolean v) =
        print_tagged (b'b' ∷ b'o' ∷ b'o' ∷ b'l' ∷ []) (print_int (if v then 1 else 0))
    value_dump (string s) = b'"' ∷ (s ++ b'"' ∷ [])
    value_dump (array vs) = b'[' ∷ (dump_items 0 vs ++ b']' ∷ [])
    value_dump (function p n) =
        (b't' ∷ b'y' ∷ b'p' ∷ b'e' ∷ b'<' ∷ []) ++ (print_int 6 ++ b'>' ∷ [])

    -- the loop over the items
    pub dump_items : ℕ → Items → List ℕ
    dump_items i nil = []
    dump_items i (cons v vs) =
        (if i == 0 then [] else comma) ++ (value_dump v ++ dump_items (suc i) vs)

-- `count_function_defs`, on the pointers `call` of an array; `none` inside ends it. Without an end the
-- loop reads past the array.
unfoldable pub count_function_defs : List (Option ℕ) → Option ℕ
count_function_defs [] = none
count_function_defs (none ∷ methods) = some 0
count_function_defs (some call ∷ methods) = elim (count_function_defs methods) [
  | none ↦ none
  | some n ↦ some (suc n)
]

-- The texts with a comma between each two.
unfoldable pub join : List (List ℕ) → List ℕ
join [] = []
join (t ∷ []) = t
join (t ∷ u ∷ ts) = t ++ (comma ++ join (u ∷ ts))

suc_not_zero : (i : ℕ) → (suc i == 0) ≡ false
suc_not_zero i = ground arith

dump_from-suc {ℓ} :
    {A : Type ℓ} (text : A → List ℕ) (i : ℕ) (x : A) (xs : List A)
    → dump_from text (suc i) (x ∷ xs) ≡ comma ++ join (map text (x ∷ xs))
unfolding dump_from join
dump_from-suc text i x [] = rw (suc_not_zero i, append-nil (text x)) refl
dump_from-suc text i x (y ∷ ys) =
    rw (suc_not_zero i) (ap (λ t. comma ++ (text x ++ t)) (dump_from-suc text (suc i) y ys))

-- The loop prints the texts with a comma between each two, and none in front or behind.
pub dump_from-join {ℓ} :
    {A : Type ℓ} (text : A → List ℕ) (xs : List A) → dump_from text 0 xs ≡ join (map text xs)
unfolding dump_from join
dump_from-join text [] = refl
dump_from-join text (x ∷ []) = append-nil (text x)
dump_from-join text (x ∷ y ∷ ys) = ap (λ t. text x ++ t) (dump_from-suc text 0 y ys)

-- The definitions before the first that has no function are counted.
pub count_function_defs-map :
    (calls : List ℕ) (rest : List (Option ℕ))
    → count_function_defs (map some calls ++ none ∷ rest) ≡ some (length calls)
unfolding count_function_defs
count_function_defs-map [] rest = refl
count_function_defs-map (c ∷ calls) rest = rw (count_function_defs-map calls rest) refl
