-- ===== src/Python.antt =====
-- language_py.c: the binding of Python.
mod Values
mod Methods
pub mod RoundTrip
pub mod Lifetime
unfoldable pub use Values.*
unfoldable pub use Methods.*
