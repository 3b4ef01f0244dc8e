-- ===== src/Dict.antt =====
-- dict.c, dict.h: the chained hash table. `Defs` is the code; the other children prove what it does.
mod Defs
mod Keys
pub mod Checksum
pub mod Chain
pub mod Placed
pub mod Expand
pub mod Sizes
pub mod Reorder
pub mod Lookup
pub mod Presence
pub mod Update
pub mod Delete
pub mod Copies
pub mod Freeing
pub use Defs.{HashType, IsLawful, Entry, Dict, hashsize}
unfoldable pub use Defs.{
  push, dict_init, dict_new, dict_expand, dict_put, dict_count, new_size, dict_do_lookup,
  dict_lookup, dict_contains, dict_del, dict_del2, dict_get_slot, dict_foreach_keyvalue, dict_clone,
}
unfoldable pub use Keys.*
