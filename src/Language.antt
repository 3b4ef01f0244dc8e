-- ===== src/Language.antt =====
-- language.c: what every interpreter shares, in front of its binding.
mod Defs
mod Setup
pub mod Timeout
pub mod Extension
unfoldable pub use Defs.*
unfoldable pub use Setup.*
