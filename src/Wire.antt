-- ===== src/Wire.antt =====
-- language_proxy.c, lines 39 to 176: values on the pipes between the program and the sandbox.
mod Stream
mod Write
mod Read
pub mod Measure
pub mod RoundTrip
pub mod Limits
pub mod Leaving
pub mod Counter
unfoldable pub use Stream.*
unfoldable pub use Write.{write_byte, write_string, write_value}
unfoldable pub use Read.{
  read_word, refuses_length, c_string, read_string, read_value_from, read_value, read_value_nolimit,
  max_string_size, max_array_size,
}
