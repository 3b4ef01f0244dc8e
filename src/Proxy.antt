-- ===== src/Proxy.antt =====
-- language_proxy.c: the program's end of the sandbox (`Parent`), and the sandbox's (`Child`).
pub mod Parent
pub mod Child
pub mod Callbacks
pub mod Serving
pub mod Session
pub mod Turns
pub mod Places
pub mod Moves
pub mod Schedules
pub mod Rounds
pub mod Loop
pub mod Commands
pub mod Operations
pub mod Issuing
pub mod Faithful
pub mod Definitions
pub mod Guard
pub mod Ending
pub mod Exposure
pub mod Whole
pub mod Spawn
pub mod Confined
