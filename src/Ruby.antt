-- ===== src/Ruby.antt =====
-- language_rb.c: the binding of Ruby.
mod Values
mod Methods
pub mod Lifetime
pub mod RoundTrip
pub mod Constants
unfoldable pub use Values.*
unfoldable pub use Methods.*
