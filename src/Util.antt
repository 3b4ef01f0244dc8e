-- ===== src/Util.antt =====
-- util.c: the helpers on C strings and paths, and the loops around read(2).
mod Text
mod Reading
pub mod Escaping
pub mod Stream
pub mod Paths
unfoldable pub use Text.*
unfoldable pub use Reading.*
