-- ===== src/Seccomp.antt =====
-- seccomp.c: how the sandbox gives up its rights.
mod Filter
mod Lockdown
pub mod Verdict
unfoldable pub use Filter.*
unfoldable pub use Lockdown.*
