-- ===== src/Tests/Tables.antt =====
-- dict.c at concrete tables, whose keys are pointers of four bytes.
use cagekeeper.Prelude.{false, ℕ, ◌≡◌, refl, some, arith, true}
use cagekeeper.Dict.{
  Dict, push, ptr_hash, ptr_dup, ptr_type, ptr_equals, dict_init, dict_put, dict_expand,
  dict_lookup, dict_del, dict_do_lookup, dict_clone, hashsize,
}
use cagekeeper.Dict.Chain.{count, weight}
use cagekeeper.Dict.Checksum.{ptr_type-IsLawful}
use cagekeeper.Dict.Copies.{dict_clone-view, dict_expand_shadowed}
use cagekeeper.Dict.Delete.{Deleted, dict_del-Deleted}
use cagekeeper.Dict.Expand.{Grown, dict_expand-Grown}
use cagekeeper.Dict.Freeing.{Releases, dict_free_all, dict_free_all-Releases}
use cagekeeper.Dict.Lookup.{get_or_null, dict_do_lookup-Searched, dict_lookup-view}
use cagekeeper.Dict.Placed.{IsValid, IsUnique, view}
use cagekeeper.Dict.Reorder.{Searched}
use cagekeeper.Dict.Update.{Put, dict_init-IsValid, dict_put-Put, dict_put-IsUnique}
use mathlib.Core.List.{flatten}

abbrev empty_table : Dict ℕ ℕ
empty_table = dict_init 1

abbrev one_key : Dict ℕ ℕ
one_key = dict_put (ptr_type 4) empty_table 3 30

abbrev two_keys : Dict ℕ ℕ
two_keys = dict_put (ptr_type 4) one_key 5 50

empty_table-IsValid : IsValid (ptr_type 4) empty_table
empty_table-IsValid = dict_init-IsValid (ptr_type 4) (ptr_type-IsLawful 4) 1

one_key-IsValid : IsValid (ptr_type 4) one_key
one_key-IsValid =
    (dict_put-Put (ptr_type 4) (ptr_type-IsLawful 4) empty_table 3 30 empty_table-IsValid).valid

two_keys-IsValid : IsValid (ptr_type 4) two_keys
two_keys-IsValid =
    (dict_put-Put (ptr_type 4) (ptr_type-IsLawful 4) one_key 5 50 one_key-IsValid).valid

empty_table-IsUnique : IsUnique (ptr_type 4) empty_table
unfolding dict_init count weight flatten
empty_table-IsUnique q = omega arith

three_absent : count (ptr_type 4) 3 (flatten empty_table.slots) ≡ 0
unfolding dict_init count weight flatten
three_absent = refl

one_key-IsUnique : IsUnique (ptr_type 4) one_key
one_key-IsUnique =
    dict_put-IsUnique (ptr_type 4) (ptr_type-IsLawful 4) empty_table 3 30 empty_table-IsValid
      empty_table-IsUnique three_absent

five_absent : count (ptr_type 4) 5 (flatten one_key.slots) ≡ 0
unfolding dict_init dict_put push count weight flatten ptr_equals ptr_dup ptr_hash
five_absent = refl

two_keys-IsUnique : IsUnique (ptr_type 4) two_keys
two_keys-IsUnique =
    dict_put-IsUnique (ptr_type 4) (ptr_type-IsLawful 4) one_key 5 50 one_key-IsValid
      one_key-IsUnique five_absent

dict_put-Put_example :
    Put (ptr_type 4) (ptr_type-IsLawful 4) two_keys (dict_put (ptr_type 4) two_keys 3 31) 3 31
dict_put-Put_example =
    dict_put-Put (ptr_type 4) (ptr_type-IsLawful 4) two_keys 3 31 two_keys-IsValid

dict_expand-Grown_example : Grown (ptr_type 4) two_keys (dict_expand two_keys 15) 15
dict_expand-Grown_example =
    dict_expand-Grown (ptr_type 4) (ptr_type-IsLawful 4) two_keys 15 two_keys-IsValid (omega arith)

dict_do_lookup-Searched_example :
    Searched (ptr_type 4) (ptr_type-IsLawful 4) two_keys 3 (dict_do_lookup (ptr_type 4) two_keys 3)
dict_do_lookup-Searched_example =
    dict_do_lookup-Searched (ptr_type 4) (ptr_type-IsLawful 4) two_keys 3 two_keys-IsValid

dict_lookup-view_example :
    ((dict_lookup (ptr_type 4) 0 two_keys 3).0 ≡ get_or_null 0 (view (ptr_type 4) two_keys 3))
    × ((q : ℕ)
        → view (ptr_type 4) (dict_lookup (ptr_type 4) 0 two_keys 3).1 q
          ≡ view (ptr_type 4) two_keys q)
    × IsValid (ptr_type 4) (dict_lookup (ptr_type 4) 0 two_keys 3).1
    × IsUnique (ptr_type 4) (dict_lookup (ptr_type 4) 0 two_keys 3).1
dict_lookup-view_example =
    dict_lookup-view (ptr_type 4) (ptr_type-IsLawful 4) 0 two_keys 3 two_keys-IsValid
      two_keys-IsUnique

dict_del-Deleted_example :
    Deleted (ptr_type 4) (ptr_type-IsLawful 4) two_keys 3 (dict_del (ptr_type 4) two_keys 3)
dict_del-Deleted_example =
    dict_del-Deleted (ptr_type 4) (ptr_type-IsLawful 4) two_keys 3 two_keys-IsValid
      two_keys-IsUnique

dict_expand_shadowed_example :
    let twice = dict_put (ptr_type 4) (dict_put (ptr_type 4) one_key 5 50) 5 51 in
    (view (ptr_type 4) twice 5 ≡ some 51) × (view (ptr_type 4) (dict_expand twice 15) 5 ≡ some 50)
dict_expand_shadowed_example =
    dict_expand_shadowed (ptr_type 4) (ptr_type-IsLawful 4) one_key 5 50 51 15 one_key-IsValid
      five_absent (omega arith)

dict_clone-view_example :
    (hashsize (dict_clone (ptr_type 4) two_keys) ≡ hashsize two_keys)
    × ((q : ℕ)
        → view (ptr_type 4) (dict_clone (ptr_type 4) two_keys) q ≡ view (ptr_type 4) two_keys q)
dict_clone-view_example =
    dict_clone-view (ptr_type 4) (ptr_type-IsLawful 4) two_keys two_keys-IsValid two_keys-IsUnique

dict_free_all-Releases_example :
    Releases true false (flatten two_keys.slots) (dict_free_all true false two_keys).0
dict_free_all-Releases_example = dict_free_all-Releases true false two_keys
