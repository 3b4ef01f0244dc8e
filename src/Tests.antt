-- ===== src/Tests.antt =====
-- The properties at concrete inputs.
mod Tables
mod Values
mod Calls
mod Shared
mod Commands
mod Sessions
mod Kernel
mod Objects
mod RubyObjects
mod JavascriptObjects
mod PythonObjects
mod Definitions
mod LuaObjects
mod Hostile
