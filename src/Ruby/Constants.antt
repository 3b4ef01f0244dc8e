-- ===== src/Ruby/Constants.antt =====
-- language_rb.c: what Ruby reads under the name of a constant that the program defined.
use cagekeeper.Prelude.{
  ℕ, ◌≡◌, ◌≢◌, refl, ◌∙◌, true, false, Option, none, some, List, arith, ◌==◌, ==_iff,
}
use cagekeeper.Dict.{Dict, dict_put, ptr_type, ptr_equals}
use cagekeeper.Dict.Chain.{count}
use cagekeeper.Dict.Checksum.{ptr_type-IsLawful}
use cagekeeper.Dict.Lookup.{dict_lookup-view}
use cagekeeper.Dict.Placed.{IsValid, IsUnique, view}
use cagekeeper.Dict.Update.{dict_put-Put, dict_put-IsUnique}
use cagekeeper.Ruby.Methods.{
  RubyVm, Rb, Answer, table_or_new, answered, crashed, store_function, define_constant_rb,
  call_or_constant, ruby_function_proxy,
}
use cagekeeper.Ruby.Values.{Ruby, value_to_ruby}
use cagekeeper.Value.{
  Value, ValueType, type_of, void, float32, int32, boolean, string, array, function,
}
use mathlib.Core.List.{flatten}

beq_sym_false : (a b : ℕ) → (a == b) ≡ false → (b == a) ≡ false
beq_sym_false a b h = ground arith

-- A value that is no function, or none.
abbrev pub IsNoFunction : Option Value → Type 0
IsNoFunction none = Unit
IsNoFunction (some v) = type_of v ≢ ValueType.function

-- What Ruby reads of a constant.
unfoldable pub read_constant : {V : Type 0} → Ruby V → Option Value → Answer V
read_constant rb none = crashed
read_constant rb (some v) = answered (value_to_ruby rb v)

call_or_constant-value :
    {V S : Type 0} (rb : Ruby V) (ruby : RubyVm V S) (call : Value → Value → Option Value) (f : ℕ)
    (args : V) (o : Option Value)
    → IsNoFunction o
    → call_or_constant rb ruby call f args o ≡ read_constant rb o
unfolding call_or_constant read_constant type_of
call_or_constant-value rb ruby call f args none h = refl
call_or_constant-value rb ruby call f args (some void) h = refl
call_or_constant-value rb ruby call f args (some (float32 x)) h = refl
call_or_constant-value rb ruby call f args (some (int32 i)) h = refl
call_or_constant-value rb ruby call f args (some (boolean b)) h = refl
call_or_constant-value rb ruby call f args (some (string s)) h = refl
call_or_constant-value rb ruby call f args (some (array vs)) h = refl
call_or_constant-value rb ruby call f args (some (function p n)) h = absurd (h refl)

-- In an interpreter whose table is valid, with unique keys and without the name: whatever has become
-- of the memory since a constant was defined, what Ruby reads under the name is what then lies at
-- the pointer that was passed, if that is no function, and whatever the arguments; and where the
-- value is freed, the read is of freed memory. Every other name keeps its pointer.
pub define_constant_rb-ruby_function_proxy :
    {V S : Type 0} (rb : Ruby V) (ruby : RubyVm V S) (size : ℕ)
    (call : Value → Value → Option Value) (memory : ℕ → Option Value) (f : ℕ) (name : List ℕ)
    (address : ℕ) (args : V) (st : Rb S)
    → IsValid (ptr_type size) (table_or_new st.functions)
    → IsUnique (ptr_type size) (table_or_new st.functions)
    → count (ptr_type size) (ruby.intern name) (flatten (table_or_new st.functions).slots) ≡ 0
    → IsNoFunction (memory address)
    → ((ruby_function_proxy rb ruby size call memory f
          (ruby.intern name)
          args
          (define_constant_rb rb ruby size name address st)).0
        ≡ read_constant rb (memory address))
      × ((id : ℕ)
          → (id == ruby.intern name) ≡ false
          → (t' : Dict ℕ (Option ℕ)) × ((define_constant_rb rb ruby size name address st).functions
              ≡ some t')
            × (view (ptr_type size) t' id ≡ view (ptr_type size) (table_or_new st.functions) id))
unfolding define_constant_rb store_function ruby_function_proxy ptr_equals
define_constant_rb-ruby_function_proxy rb ruby size call memory f name address args st valid unique
      absent const =
    let t = table_or_new st.functions in
    let key = ruby.intern name in
    let lawful = ptr_type-IsLawful size in
    let t' = dict_put (ptr_type size) t key (some address) in
    let p = dict_put-Put (ptr_type size) lawful t key (some address) valid in
    let once = dict_put-IsUnique (ptr_type size) lawful t key (some address) valid unique absent in
    let d = dict_lookup-view (ptr_type size) lawful none t' key p.valid once in
    let same : (key == key) ≡ true = (==_iff key key).1 refl in
    let found : view (ptr_type size) t' key ≡ some (some address) = p.reads key ∙ rw same refl in
    let other : (id : ℕ) → (id == key) ≡ false → (key == id) ≡ false =
      λ id ne. beq_sym_false id key ne in
    (
      rw (d.0, found, call_or_constant-value rb ruby call f args (memory address) const) refl,
      λ id ne. (t', refl, p.reads id ∙ rw (other id ne) refl),
    )
