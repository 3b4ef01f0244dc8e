-- ===== src/Ruby/Values.antt =====
-- language_rb.c, lines 48 to 118: values to and from Ruby's. The Ruby library is a parameter. An
-- array that is being filled is known to nobody else, so that a store gives the changed array.
use cagekeeper.Prelude.{ℕ, zero, suc, true, false, Option, List, [], ◌∷◌}
use cagekeeper.Binding.{
  Converted, converted, refused, out_of_fuel, ◌>>=◌, store_all, collect, items_of_list,
}
use cagekeeper.Value.{
  Value, Items, void, float32, int32, boolean, string, array, function, nil, cons, count_items,
}

-- What `TYPE` tells.
pub data RubyType : Type 0 where
  t_nil t_bignum t_fixnum t_true t_false t_float t_symbol t_string t_array t_other : RubyType

-- What the code uses of the library, for a `VALUE` each. `array_len` and `array_entry` are what is read
-- in the fields `as.heap.len` and `as.heap.ptr` of the array's structure, which Ruby only uses for
-- arrays that are too large to be kept in the structure itself.
pub record Ruby (V : Type 0) : Type 0 where
  pub type_of_value : V → RubyType
  pub num2int : V → ℕ
  pub num2dbl : V → ℕ
  pub symbol_name : V → List ℕ
  pub string_ptr : V → List ℕ
  pub array_len : V → ℕ
  pub array_entry : V → ℕ → Option V
  pub qnil : V
  pub qtrue : V
  pub qfalse : V
  pub float_new : ℕ → V
  pub int2fix : ℕ → V
  pub str_new2 : List ℕ → V
  pub ary_new2 : ℕ → V
  pub ary_store : V → ℕ → V → V

module _ {V : Type 0} (rb : Ruby V) where
  -- the `switch` of `ruby_to_value`; `convert` is the function itself, and `rb_raise` ends everything
  unfoldable pub ruby_switch : (V → Converted Value) → V → RubyType → Converted Value
  ruby_switch convert v t_nil = converted void
  ruby_switch convert v t_bignum = converted (int32 (rb.num2int v))
  ruby_switch convert v t_fixnum = converted (int32 (rb.num2int v))
  ruby_switch convert v t_true = converted (boolean true)
  ruby_switch convert v t_false = converted (boolean false)
  ruby_switch convert v t_float = converted (float32 (rb.num2dbl v))
  ruby_switch convert v t_symbol = converted (string (rb.symbol_name v))
  ruby_switch convert v t_string = converted (string (rb.string_ptr v))
  ruby_switch convert v t_array = collect convert (rb.array_entry v) (rb.array_len v) 0 >>= λ vs.
      converted (array (items_of_list vs))
  ruby_switch convert v t_other = refused

  unfoldable pub ruby_to_value : ℕ → V → Converted Value
  unfolding ruby_switch
  ruby_to_value zero v = out_of_fuel
  ruby_to_value (suc f) v = ruby_switch (ruby_to_value f) v (rb.type_of_value v)

  -- `value_to_ruby`; the entries of an array, and the loop that stores them
  unfoldable mutual
    pub value_to_ruby : Value → V
    value_to_ruby void = rb.qnil
    value_to_ruby (float32 f) = rb.float_new f
    value_to_ruby (int32 i) = rb.int2fix i
    value_to_ruby (boolean true) = rb.qtrue
    value_to_ruby (boolean false) = rb.qfalse
    value_to_ruby (string s) = rb.str_new2 s
    value_to_ruby (array vs) =
        store_all rb.ary_store (rb.ary_new2 (count_items vs)) 0 (values_to_ruby vs)
    value_to_ruby (function p n) = rb.qnil

    pub values_to_ruby : Items → List V
    values_to_ruby nil = []
    values_to_ruby (cons v vs) = value_to_ruby v ∷ values_to_ruby vs
