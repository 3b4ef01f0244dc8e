-- ===== src/Lib.antt =====
-- cagekeeper runs scripts in Lua, Python, Ruby or JavaScript inside a child process under a system
-- call filter. The program talks to the child over two pipes, and the script may call functions of
-- the program back.
--
-- The parts, and the modules that model them:
--   Value          function.h: type_t and value_t, the values that cross the border.
--   Word           32-bit integers as bytes and with their wrap-around.
--   Wire           language_proxy.c, lines 39 to 176: values on the pipes. A reader takes the bytes
--                  still to come and gives a result and the rest, or says whether bytes were missing
--                  or refused. write_value is Wire/Write, _read_value is read_value_from in
--                  Wire/Read.
--   Dict           dict.c: the hash table, with its checksum and key types in Dict/Keys. A chain is
--                  a list of entries, and the slots are a list of chains. Dict/Freeing is the end
--                  of a table, as the list of the calls of free.
--   Function       function.c: signatures, cfunction_call, and the operations on values. The array
--                  of unions that the C function's arguments point into is a list of slots; Typing is
--                  about its types. Memory is value_new_*, array_append and value_destroy on a heap
--                  of addresses, Freeing what value_destroy frees, and Ownership what they allocate.
--                  Printing has the names of types and the texts for debugging.
--   Proxy          language_proxy.c: Parent is the program's end (define_*_proxy,
--                  compile_script_proxy, is_function_proxy, call_function_proxy and
--                  process_callbacks), Child the sandbox's (child_loop, proxy_function_call,
--                  sandbox_log). Callbacks, Serving, Session, Rounds and Whole put the two
--                  together for one call; Turns lets them take turns in any order, Places and Moves
--                  are where they can stand then, and Schedules is about every such order.
--                  Commands describes a session of any commands and the interpreter as it is
--                  without a sandbox, Loop is child_loop, Operations and Issuing are the program's
--                  end of a session, and Faithful says that the two do what the interpreter does.
--                  Definitions is about the table of callbacks, Guard about the flag in_call,
--                  Ending about the end of the program's loop, and Exposure about what a sandbox can
--                  reach. Spawn is the making and the end of the sandbox (spawn_child,
--                  close_all_fds, proxy_new, destroy_proxy), and Confined the child's life as a step
--                  relation. An operation of the interpreter is a Run, in which it may log and call
--                  back, and which ends with a result, a crash, or a stop for ever. A log line is the
--                  format of vsnprintf in the program: one with a conversion is undefined there, and
--                  counts as a crash.
--   Seccomp        seccomp.c: the filter program (Filter), the steps of seccomp_lockdown
--                  (Lockdown), and what the filter answers (Verdict).
--   Binding        what the bindings share: the loops over an interpreter's arrays, with what is
--                  documented of such arrays in Built.
--   Ruby           language_rb.c: Values are the conversions, Methods the operations, Lifetime the
--                  start and the end. The table of definitions holds pointers, and Constants is about
--                  what lies there when Ruby reads them.
--   Javascript     language_js.c, in the same way.
--   Python         language_py.c, in the same way; Lifetime is about initialize_py and destroy_py.
--   Lua            language_lua.c, in the same way; Contents says what the slots of Lua's stack
--                  show, Pushing what push_value leaves there, and Leftover is about its height;
--                  Lifetime is the start and the end.
--   Language       language.c: the calls with a time limit, the choice of an interpreter, and Setup
--                  for sandboxes around interpreters and constants.
--   Util           util.c: strings, paths (Paths), and the loops around read(2) and select(2) (Stream).
--   Prelude        the names and lemmas that the other modules share.
--   Tests          the theorems at concrete inputs.
--
-- The proxy is built on the wire format and keeps its callback functions in a table of Dict; the
-- functions that it calls are those of Function.
--
-- Parameters stand for what is not in this repository: the interpreters (Interpreter and Run in
-- Proxy/Child, Language in Language/Defs), their libraries (Ruby and RubyVm, Js and JsVm, Python
-- and PyVm, Lua and LuaVm), the program's own functions (host, call), libffi and the printing of
-- numbers (Libc in Function/Call), read(2) and select(2) (Util/Reading), the numbers of the
-- kernel's headers (Numbers in Seccomp/Filter) and the machine that runs the filter (run in
-- Seccomp/Verdict).
--
-- Fuel: read_value_from takes one unit for each level of nesting and gets one more than there are
-- bytes, which is enough as every level takes a byte. process_callbacks and child_loop take one for
-- each round, and every round takes a byte. new_size gets twice the number of entries and one
-- more. The loops around read(2) get one for each byte and each interruption. The conversions of the
-- bindings take one unit for each level of nesting, in Lua one for each table and each entry; an
-- array of an interpreter can hold itself, so that they need not end.
--
-- Not modelled: the code of seccomp.c under HIJACK_SYSCALLS (assembly, which is not compiled), the
-- loading of the interpreters' libraries, memory other than that of values and tables, the output
-- of dump_stack and dict_dump, the timer of the program where Turns lets the two take turns, and
-- memdup, allocprintf and read_file of util.c. malloc does not fail.
mod Prelude
mod Tests
pub mod Value
pub mod Word
pub mod Wire
pub mod Dict
pub mod Function
pub mod Proxy
pub mod Util
pub mod Language
pub mod Seccomp
pub mod Binding
pub mod Ruby
pub mod Javascript
pub mod Python
pub mod Lua
