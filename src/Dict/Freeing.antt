-- ===== src/Dict/Freeing.antt =====
-- dict.c, lines 433 to 502: the end of a table. What is released is a list of calls of `free`, in
-- order.
use cagekeeper.Prelude.{◌≡◌, refl, ap, Bool, true, false, Option, none, some, List, [], ◌∷◌, ◌++◌}
use cagekeeper.Dict.Defs.{Entry, Dict}
use mathlib.Core.List.{flatten}

-- A call of `free`: for a key, for data, for an entry, for the slots and for the table itself.
pub data Freed (K V : Type 0) : Type 0 where
  freed_key : K → Freed K V
  freed_data : V → Freed K V
  freed_entry : Entry K V → Freed K V
  freed_slots freed_table : Freed K V

abbrev pub when : {A : Type 0} → Bool → List A → List A
when true xs = xs
when false xs = []

module _ {K V : Type 0} where
  unfoldable pub values_of : List (Entry K V) → List V
  values_of [] = []
  values_of (e ∷ c) = e.value ∷ values_of c

  unfoldable pub keys_of : List (Entry K V) → List K
  keys_of [] = []
  keys_of (e ∷ c) = e.key ∷ keys_of c

  -- The calls of the function that it is given, one for each entry.
  unfoldable pub all_values : List (List (Entry K V)) → List V
  unfolding values_of
  all_values [] = []
  all_values (c ∷ cs) = values_of c ++ all_values cs

  unfoldable pub dict_foreach_value : Dict K V → List V
  unfolding all_values
  dict_foreach_value h = all_values h.slots

  abbrev pub if_wanted : Bool → Freed K V → List (Freed K V) → List (Freed K V)
  if_wanted true call calls = call ∷ calls
  if_wanted false call calls = calls

  -- the inner loop
  unfoldable pub free_chain : Bool → Bool → List (Entry K V) → List (Freed K V) → List (Freed K V)
  free_chain free_keys free_data [] calls = calls
  free_chain free_keys free_data (e ∷ next) calls = if_wanted free_keys (freed_key e.key) (
      if_wanted free_data (freed_data e.value)
        (freed_entry e ∷ free_chain free_keys free_data next calls))

  unfoldable pub free_slots : Bool → Bool → List (List (Entry K V)) → List (Freed K V)
  unfolding free_chain
  free_slots free_keys free_data [] = freed_slots ∷ []
  free_slots free_keys free_data (c ∷ cs) =
      free_chain free_keys free_data c (free_slots free_keys free_data cs)

  -- `free_data` is whether there is a `free_data_function`. The table is zeroed, with no slots left.
  unfoldable pub dict_free_all : Bool → Bool → Dict K V → List (Freed K V) × Dict K V
  unfolding free_slots
  dict_free_all free_keys free_data h =
      (free_slots free_keys free_data h.slots, record { slots = []; num = 0 })

  unfoldable pub dict_clear_shallow : Dict K V → List (Freed K V) × Dict K V
  unfolding dict_free_all
  dict_clear_shallow h = dict_free_all false false h

  unfoldable pub dict_clear : Dict K V → List (Freed K V) × Dict K V
  unfolding dict_free_all
  dict_clear h = dict_free_all true false h

  unfoldable pub dict_destroy_shallow : Dict K V → List (Freed K V)
  unfolding dict_clear_shallow
  dict_destroy_shallow dict = (dict_clear_shallow dict).0 ++ freed_table ∷ []

  -- `none` is the null pointer.
  unfoldable pub dict_destroy : Option (Dict K V) → List (Freed K V)
  unfolding dict_clear
  dict_destroy none = []
  dict_destroy (some dict) = (dict_clear dict).0 ++ freed_table ∷ []

  unfoldable pub dict_destroy_with_data : Option (Dict K V) → List (Freed K V)
  unfolding dict_free_all
  dict_destroy_with_data none = []
  dict_destroy_with_data (some dict) = (dict_free_all true true dict).0 ++ freed_table ∷ []

  -- Of the calls, those for entries, for keys and for data.
  unfoldable pub entries_freed : List (Freed K V) → List (Entry K V)
  entries_freed [] = []
  entries_freed (freed_entry e ∷ calls) = e ∷ entries_freed calls
  entries_freed (_ ∷ calls) = entries_freed calls

  unfoldable pub keys_freed : List (Freed K V) → List K
  keys_freed [] = []
  keys_freed (freed_key k ∷ calls) = k ∷ keys_freed calls
  keys_freed (_ ∷ calls) = keys_freed calls

  unfoldable pub data_freed : List (Freed K V) → List V
  data_freed [] = []
  data_freed (freed_data v ∷ calls) = v ∷ data_freed calls
  data_freed (_ ∷ calls) = data_freed calls

  -- What is released, by kind.
  pub record Releases (fk fd : Bool) (es : List (Entry K V)) (calls : List (Freed K V))
      : Type 0 where
    pub entries : entries_freed calls ≡ es
    pub keys : keys_freed calls ≡ when fk (keys_of es)
    pub values : data_freed calls ≡ when fd (values_of es)

  module _ (ds : List (Entry K V)) (calls : List (Freed K V)) where
    free_chain-Releases :
        (fk fd : Bool) (c : List (Entry K V))
        → Releases fk fd ds calls
        → Releases fk fd (c ++ ds) (free_chain fk fd c calls)
    unfolding free_chain entries_freed keys_freed data_freed keys_of values_of
    free_chain-Releases fk fd [] h = h
    free_chain-Releases true true (e ∷ c) h =
        let r = free_chain-Releases true true c h in
        record {
          entries = ap (λ xs. e ∷ xs) r.entries;
          keys = ap (λ xs. e.key ∷ xs) r.keys;
          values = ap (λ xs. e.value ∷ xs) r.values;
        }
    free_chain-Releases true false (e ∷ c) h =
        let r = free_chain-Releases true false c h in
        record {
          entries = ap (λ xs. e ∷ xs) r.entries;
          keys = ap (λ xs. e.key ∷ xs) r.keys;
          values = r.values;
        }
    free_chain-Releases false true (e ∷ c) h =
        let r = free_chain-Releases false true c h in
        record {
          entries = ap (λ xs. e ∷ xs) r.entries;
          keys = r.keys;
          values = ap (λ xs. e.value ∷ xs) r.values;
        }
    free_chain-Releases false false (e ∷ c) h =
        let r = free_chain-Releases false false c h in
        record { entries = ap (λ xs. e ∷ xs) r.entries; keys = r.keys; values = r.values }

  free_slots-Releases :
      (fk fd : Bool) (cs : List (List (Entry K V)))
      → Releases fk fd (flatten cs) (free_slots fk fd cs)
  unfolding free_slots flatten entries_freed keys_freed data_freed keys_of values_of
  free_slots-Releases true true [] = record { entries = refl; keys = refl; values = refl }
  free_slots-Releases true false [] = record { entries = refl; keys = refl; values = refl }
  free_slots-Releases false true [] = record { entries = refl; keys = refl; values = refl }
  free_slots-Releases false false [] = record { entries = refl; keys = refl; values = refl }
  free_slots-Releases fk fd (c ∷ cs) =
      free_chain-Releases (flatten cs) (free_slots fk fd cs) fk fd c (free_slots-Releases fk fd cs)

  -- dict_free_all releases each entry of the table once and nothing else of its kind, each key once
  -- where keys are to be released and none otherwise, and the data in the same way.
  pub dict_free_all-Releases :
      (fk fd : Bool) (h : Dict K V) → Releases fk fd (flatten h.slots) (dict_free_all fk fd h).0
  unfolding dict_free_all
  dict_free_all-Releases fk fd h = free_slots-Releases fk fd h.slots
