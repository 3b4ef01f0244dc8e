-- ===== src/Binding.antt =====
-- What the four bindings of language_rb.c, language_js.c, language_py.c and language_lua.c share: the
-- loops that build an interpreter's array and read one.
mod Arrays
mod Shared
pub mod Built
unfoldable pub use Arrays.*
unfoldable pub use Shared.*
