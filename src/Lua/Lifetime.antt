-- ===== src/Lua/Lifetime.antt =====
-- language_lua.c, lines 18 to 37, 88 to 101 and 294 to 302: the start and the end of an interpreter,
-- as the calls of the Lua library that they make.
use cagekeeper.Prelude.{ℕ, zero, suc, Option, none, some, List, [], ◌∷◌, ◌++◌, ◌≡◌, refl}

-- The functions luaopen_* that the table names.
pub data LuaLib : Type 0 where
  base table math string : LuaLib

-- `open_state` is lua_open, `open_lib` the call of a luaopen_*, `clear_stack` lua_settop to 0.
pub data LuaCall : Type 0 where
  open_state clear_stack close_state : LuaCall
  open_lib : LuaLib → LuaCall

-- The table, whose last entry has no function.
abbrev pub lualibs : List (Option LuaLib)
lualibs = some base ∷ some table ∷ some math ∷ some string ∷ none ∷ []

-- `openlualibs`, over a table
unfoldable pub openlualibs : List (Option LuaLib) → List LuaCall
openlualibs [] = []
openlualibs (none ∷ libs) = []
openlualibs (some lib ∷ libs) = open_lib lib ∷ clear_stack ∷ openlualibs libs

-- Whether `li->internal` is set, and the calls so far.
pub data Internal : Type 0 where
  absent present : Internal

pub record Started : Type 0 where
  pub internal : Internal
  pub calls : List LuaCall

unfoldable pub initialize_lua : Started → Started
unfolding openlualibs
initialize_lua s = elim s.internal [
  | present ↦ s
  | absent ↦ record { internal = present; calls = s.calls ++ open_state ∷ openlualibs lualibs }
]

unfoldable pub destroy_lua : Started → List LuaCall
destroy_lua s = elim s.internal [ absent ↦ s.calls | present ↦ s.calls ++ close_state ∷ [] ]

-- Initializing again and again.
unfoldable pub initialize_times : ℕ → Started → Started
initialize_times zero s = s
initialize_times (suc n) s = initialize_times n (initialize_lua s)

initialize_times-present :
    (n : ℕ) (calls : List LuaCall)
    → initialize_times n (record { internal = present; calls = calls })
      ≡ record { internal = present; calls = calls }
unfolding initialize_times initialize_lua
initialize_times-present zero calls = refl
initialize_times-present (suc n) calls = initialize_times-present n calls

abbrev pub new_interpreter : Started
new_interpreter = record { internal = absent; calls = [] }

-- However often an interpreter is initialized, its state is opened once and closed once, and a script
-- has the four libraries of the table and no other.
pub destroy_lua-initialize_times :
    (n : ℕ)
    → destroy_lua (initialize_times (suc n) new_interpreter)
      ≡ open_state
        ∷ open_lib base
        ∷ clear_stack
        ∷ open_lib table
        ∷ clear_stack
        ∷ open_lib math
        ∷ clear_stack
        ∷ open_lib string
        ∷ clear_stack
        ∷ close_state
        ∷ []
unfolding initialize_times initialize_lua openlualibs destroy_lua
destroy_lua-initialize_times n = rw (initialize_times-present n _) refl
