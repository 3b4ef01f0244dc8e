-- ===== src/Function/Signature.antt =====
-- Signatures such as "is[": one character for each parameter.
use cagekeeper.Prelude.{
  ℕ, ◌+◌, ◌≡◌, ◌≢◌, refl, ap, Option, none, some, List, [], ◌∷◌, map, length, All, arith, ◌==◌,
  if◌then◌else◌,
}
use cagekeeper.Value.{ValueType, void, float32, int32, boolean, string, array, function}

-- `c_function_def_t`; the addresses `call`, `context` and `runtime` do not enter the signature.
pub record CFunctionDef : Type 0 where
  pub name : List ℕ
  pub params : List ℕ
  pub ret : List ℕ

-- `function_signature_t`
pub record FunctionSignature : Type 0 where
  pub num_params : ℕ
  pub param : List ValueType
  pub ret : ValueType

-- the `switch` of `_parse_type` on a character that is not the terminator
unfoldable pub type_of_char : ℕ → ValueType
type_of_char c =
    if c == b'b'
    then boolean
    else if c == b'i'
    then int32
    else if c == b'f'
    then float32
    else if c == b's'
    then string
    else if c == b'['
    then array
    else string

-- `_parse_type`: the type, and the number of characters that it takes, which is always one
unfoldable pub parse_type : List ℕ → ValueType × ℕ
parse_type [] = (void, 1)
parse_type (c ∷ s) = (type_of_char c, 1)

unfoldable pub function_count_args : CFunctionDef → ℕ
function_count_args method = count method.params
  where
    count : List ℕ → ℕ
    count [] = 0
    count (c ∷ a) = (parse_type (c ∷ a)).1 + count a

-- the loop of `function_get_signature` that fills `param`; each step goes on by one character
unfoldable pub parse_params : List ℕ → List ValueType
parse_params [] = []
parse_params (c ∷ a) = (parse_type (c ∷ a)).0 ∷ parse_params a

unfoldable pub function_get_signature : CFunctionDef → FunctionSignature
function_get_signature f = record {
  num_params = function_count_args f;
  param = parse_params f.params;
  ret = (parse_type f.ret).0;
}

-- the `ffi_type_*` that occur
pub data FfiType : Type 0 where
  ffi_void ffi_float ffi_sint32 ffi_uint8 ffi_pointer : FfiType

-- `_type_to_ffi_type`; no value is returned for the default case
unfoldable pub type_to_ffi_type : ValueType → Option FfiType
type_to_ffi_type void = some ffi_void
type_to_ffi_type float32 = some ffi_float
type_to_ffi_type int32 = some ffi_sint32
type_to_ffi_type boolean = some ffi_uint8
type_to_ffi_type string = some ffi_pointer
type_to_ffi_type array = some ffi_pointer
type_to_ffi_type function = none

unfoldable pub function_ffi_rtype : CFunctionDef → Option FfiType
function_ffi_rtype method = type_to_ffi_type (parse_type method.ret).0

unfoldable pub ffi_params : List ℕ → List (Option FfiType)
ffi_params [] = []
ffi_params (c ∷ a) = type_to_ffi_type (parse_type (c ∷ a)).0 ∷ ffi_params a

-- The first argument is the context pointer.
unfoldable pub function_ffi_args_plus_one : CFunctionDef → List (Option FfiType)
function_ffi_args_plus_one method = some ffi_pointer ∷ ffi_params method.params

abbrev pub IsArgument : ValueType → Type 0
IsArgument ty = (ty ≢ void) × (ty ≢ function)

type_of_char-IsArgument : (c : ℕ) → IsArgument (type_of_char c)
unfolding type_of_char
type_of_char-IsArgument c = (ground arith, ground arith)

parse_type-ne_function : (s : List ℕ) → (parse_type s).0 ≢ function
unfolding parse_type
parse_type-ne_function [] = ground arith
parse_type-ne_function (c ∷ s) = (type_of_char-IsArgument c).1

-- No C function returns a function.
pub function_get_signature-ne_function :
    (f : CFunctionDef) → (function_get_signature f).ret ≢ function
unfolding function_get_signature
function_get_signature-ne_function f = parse_type-ne_function f.ret

parse_params-lem :
    (a : List ℕ)
    → (length (parse_params a) ≡ length a)
      × (ffi_params a ≡ map type_to_ffi_type (parse_params a))
      × All IsArgument (parse_params a)
unfolding parse_params ffi_params parse_type
parse_params-lem [] = (refl, refl, tt)
parse_params-lem (c ∷ a) =
    let ih = parse_params-lem a in
    (omega (arith, ih.0), rw (ih.1), (type_of_char-IsArgument c, ih.2))

function_count_args-length : (f : CFunctionDef) → function_count_args f ≡ length f.params
unfolding function_count_args parse_type
function_count_args-length f = go f.params
  where
    go : (a : List ℕ) → function_count_args (record f { params = a }) ≡ length a
    go [] = refl
    go (c ∷ a) = omega (arith, go a)

-- The parts of a signature agree: there are as many parameters as characters, the argument types of
-- the foreign call are the context pointer and then those of the parameters, in order, and no
-- parameter is void or a function.
pub function_get_signature_lem :
    (f : CFunctionDef)
    → let sig = function_get_signature f in
      (sig.num_params ≡ length f.params)
      × (length sig.param ≡ sig.num_params)
      × (function_ffi_args_plus_one f ≡ some ffi_pointer ∷ map type_to_ffi_type sig.param)
      × All IsArgument sig.param
unfolding function_get_signature function_ffi_args_plus_one
function_get_signature_lem f =
    let p = parse_params-lem f.params in
    let n = function_count_args-length f in
    (n, omega (arith, p.0, n), ap (λ ts. some ffi_pointer ∷ ts) p.1, p.2)
