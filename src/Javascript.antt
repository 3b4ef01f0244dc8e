-- ===== src/Javascript.antt =====
-- language_js.c: the binding of JavaScript.
mod Values
mod Methods
pub mod Lifetime
pub mod RoundTrip
pub mod Callbacks
unfoldable pub use Values.*
unfoldable pub use Methods.*
