-- ===== src/Lua.antt =====
-- language_lua.c: the binding of Lua.
mod Values
mod Methods
pub mod Lifetime
pub mod Contents
pub mod Pushing
pub mod RoundTrip
pub mod Leftover
unfoldable pub use Values.*
unfoldable pub use Methods.*
