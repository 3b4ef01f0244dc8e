-- ===== src/Function.antt =====
-- function.c: C functions as values, with their signatures as text, and calls of them through libffi.
pub mod Values
pub mod Memory
pub mod Printing
pub mod Freeing
pub mod Ownership
pub mod Cloning
pub mod Signature
pub mod Call
pub mod Arguments
pub mod Passing
pub mod Overrun
pub mod Typing
