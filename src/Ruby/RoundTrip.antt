-- ===== src/Ruby/RoundTrip.antt =====
-- language_rb.c: a value that goes to Ruby comes back, if its arrays are large.
use cagekeeper.Prelude.{
  ℕ, zero, suc, ◌<◌, ◌≡◌, refl, ap, ◌∙◌, Option, true, false, List, [], ◌∷◌, length, arith, All,
  ◌≢◌,
}
use cagekeeper.Binding.{
  Converted, converted, collect, store_all, items_of_list, list_of_items, IsShared, AreShared,
}
use cagekeeper.Binding.Built.{IsArray, Built-store_all, convert_each, collect-Built}
use cagekeeper.Ruby.Values.{
  t_nil, t_fixnum, t_true, t_false, t_float, t_string, t_array, Ruby, ruby_switch, ruby_to_value,
  value_to_ruby, values_to_ruby,
}
use std.Path.{fun_ext}
use cagekeeper.Value.{
  Value, Items, void, float32, int32, boolean, string, array, function, nil, cons, count_items,
}
use cagekeeper.Wire.Measure.{depth, depth_items}

-- What the library documents of what the code uses. `IsFixnum` holds of the numbers that a Fixnum
-- can hold; `INT2FIX` does not look at the range. An array of up to `embed_max` entries is kept in its
-- structure, and the fields that the code reads hold the length and the entries of larger ones alone.
pub record IsRuby {V : Type 0} (rb : Ruby V) (IsFixnum : ℕ → Type 0) (embed_max : ℕ) : Type 1 where
  pub nil_type : rb.type_of_value rb.qnil ≡ t_nil
  pub true_type : rb.type_of_value rb.qtrue ≡ t_true
  pub false_type : rb.type_of_value rb.qfalse ≡ t_false
  pub float_type : (f : ℕ) → rb.type_of_value (rb.float_new f) ≡ t_float
  pub num2dbl-float_new : (f : ℕ) → rb.num2dbl (rb.float_new f) ≡ f
  pub fixnum_type : (i : ℕ) → IsFixnum i → rb.type_of_value (rb.int2fix i) ≡ t_fixnum
  pub num2int-int2fix : (i : ℕ) → IsFixnum i → rb.num2int (rb.int2fix i) ≡ i
  pub string_type : (s : List ℕ) → rb.type_of_value (rb.str_new2 s) ≡ t_string
  pub string_ptr-str_new2 : (s : List ℕ) → All (λ b. b ≢ 0) s → rb.string_ptr (rb.str_new2 s) ≡ s
  pub array_new_type : (n : ℕ) → rb.type_of_value (rb.ary_new2 n) ≡ t_array
  pub array_store_type :
      (a x : V) (i : ℕ)
      → rb.type_of_value a ≡ t_array
      → rb.type_of_value (rb.ary_store a i x) ≡ t_array
  pub length_of : V → ℕ
  pub entry_of : V → ℕ → Option V
  pub arrays : IsArray rb.ary_new2 rb.ary_store length_of entry_of
  pub heap_array :
      (a : V) (xs : List V)
      → embed_max < length xs
      → arrays.Built (length xs) a xs
      → (rb.array_len a ≡ length_of a) × ((i : ℕ) → rb.array_entry a i ≡ entry_of a i)

-- All arrays of a value have more than so many entries.
unfoldable mutual
  pub HasLongArrays : ℕ → Value → Type 0
  HasLongArrays n (array vs) = (n < count_items vs) × HaveLongArrays n vs
  HasLongArrays n void = Unit
  HasLongArrays n (float32 f) = Unit
  HasLongArrays n (int32 i) = Unit
  HasLongArrays n (boolean b) = Unit
  HasLongArrays n (string s) = Unit
  HasLongArrays n (function p k) = Unit

  pub HaveLongArrays : ℕ → Items → Type 0
  HaveLongArrays n nil = Unit
  HaveLongArrays n (cons v vs) = HasLongArrays n v × HaveLongArrays n vs

items_of_list-list_of_items : (vs : Items) → items_of_list (list_of_items vs) ≡ vs
unfolding items_of_list list_of_items
items_of_list-list_of_items nil = refl
items_of_list-list_of_items (cons v vs) = ap (cons v) (items_of_list-list_of_items vs)

module _ {V : Type 0} (rb : Ruby V) {IsFixnum : ℕ → Type 0} {embed_max : ℕ}
    (laws : IsRuby rb IsFixnum embed_max) where
  store_all_type :
      (a : V) (i : ℕ) (xs : List V)
      → rb.type_of_value a ≡ t_array
      → rb.type_of_value (store_all rb.ary_store a i xs) ≡ t_array
  unfolding store_all
  store_all_type a i [] h = h
  store_all_type a i (x ∷ xs) h =
      store_all_type (rb.ary_store a i x) (suc i) xs (laws.array_store_type a x i h)

  length-values_to_ruby : (vs : Items) → length (values_to_ruby rb vs) ≡ count_items vs
  unfolding value_to_ruby count_items
  length-values_to_ruby nil = refl
  length-values_to_ruby (cons v vs) = ap suc (length-values_to_ruby vs)

  -- A large array that the loop has built is converted entry by entry.
  array_back :
      {A : Type 0} (convert : V → Converted A) (xs : List V)
      → embed_max < length xs
      → let a = store_all rb.ary_store (rb.ary_new2 (length xs)) 0 xs in
        collect convert (rb.array_entry a) (rb.array_len a) 0 ≡ convert_each convert xs
  array_back convert xs large =
      let a = store_all rb.ary_store (rb.ary_new2 (length xs)) 0 xs in
      let (len, entries) = laws.heap_array a xs large (Built-store_all laws.arrays xs) in
      ap (λ read. collect convert read (rb.array_len a) 0) (fun_ext entries)
      ∙ ap (λ n. collect convert (laws.entry_of a) n 0) len
      ∙ collect-Built laws.arrays convert xs

  mutual
    unfolding value_to_ruby ruby_to_value ruby_switch IsShared HasLongArrays depth convert_each
        list_of_items

    back :
        (v : Value) (f : ℕ)
        → depth v < f
        → IsShared IsFixnum v
        → HasLongArrays embed_max v
        → ruby_to_value rb f (value_to_ruby rb v) ≡ converted v
    back v zero lt h l = absurd (omega arith)
    back void (suc f) lt h l = rw (laws.nil_type) refl
    back (float32 x) (suc f) lt h l = rw (laws.float_type, laws.num2dbl-float_new) refl
    back (int32 i) (suc f) lt h l = rw (laws.fixnum_type i h, laws.num2int-int2fix i h) refl
    back (boolean true) (suc f) lt h l = rw (laws.true_type) refl
    back (boolean false) (suc f) lt h l = rw (laws.false_type) refl
    back (string s) (suc f) lt h l = rw (laws.string_type, laws.string_ptr-str_new2 s h) refl
    back (array vs) (suc f) lt h l =
        let entries = values_to_ruby rb vs in
        rw
          (
            store_all_type (rb.ary_new2 (count_items vs)) 0 entries
                (laws.array_new_type (count_items vs)),
            ← length-values_to_ruby vs,
            array_back (ruby_to_value rb f) entries (omega (arith, l.0, length-values_to_ruby vs)),
            back_each vs f (omega arith) h l.1,
          )
          (ap (λ x. converted (array x)) (items_of_list-list_of_items vs))
    back (function p n) (suc f) lt h l = elim h [ ]

    back_each :
        (vs : Items) (f : ℕ)
        → depth_items vs < f
        → AreShared IsFixnum vs
        → HaveLongArrays embed_max vs
        → convert_each (ruby_to_value rb f) (values_to_ruby rb vs) ≡ converted (list_of_items vs)
    back_each nil f lt h l = refl
    back_each (cons v vs) f lt h l =
        rw (back v f (omega arith) h.0 l.0, back_each vs f (omega arith) h.1 l.1) refl

  -- With a library that does what is documented of it, every value without functions, whose whole
  -- numbers are in a Fixnum's range, whose strings are C strings and whose arrays are all too large
  -- for Ruby to keep them in their structure, comes back from Ruby as it was, with a level of
  -- recursion for each level of nesting. Smaller arrays are read through fields that are not theirs,
  -- and nothing is said of them.
  pub ruby_to_value-value_to_ruby :
      (v : Value) (f : ℕ)
      → depth v < f
      → IsShared IsFixnum v
      → HasLongArrays embed_max v
      → ruby_to_value rb f (value_to_ruby rb v) ≡ converted v
  ruby_to_value-value_to_ruby v f lt h l = back v f lt h l
