-- ===== src/Tests/LuaObjects.antt =====
-- language_lua.c at a concrete interpreter, whose state is its stack.
use cagekeeper.Prelude.{
  ℕ, zero, suc, ◌-◌, ◌≡◌, ◌<◌, refl, true, false, Bool, List, [], ◌∷◌, length, arith, ltb, leb,
  ◌&&◌,
}
use cagekeeper.Binding.{converted, pointer_to, IsShared}
use cagekeeper.Lua.{Lua, LuaVm, LuaState, lua_to_value, push_value}
use cagekeeper.Lua.Contents.{
  Content, no_value, number, truth, text, table, empty, content_and, join, entry, is_no_value,
  is_truth, is_table, is_number, is_string, Numerals, IsLua,
}
use cagekeeper.Lua.Pushing.{content, lua_form, rounds, Any}
use cagekeeper.Lua.RoundTrip.{lua_to_value-push_value}
use cagekeeper.Value.{Value, void, int32, boolean, string, array, nil, cons}

-- the top of the stack
slot : List Content → Content
slot [] = no_value
slot (c ∷ l) = c

truth_of : Content → Bool
truth_of (truth b) = b
truth_of c = true

text_of : Content → List ℕ
text_of (text s) = s
text_of c = []

-- one digit is a number
is_digit : List ℕ → Bool
is_digit (c ∷ []) = leb 48 c && ltb c 58
is_digit s = false

digit : List ℕ → ℕ
digit (c ∷ s) = c - 48
digit [] = 0

number_of : Content → ℕ
number_of (number d) = d
number_of (text s) = digit s
number_of c = 0

-- the key is the number of entries that are stored already
store_in : Content → List Content → List Content
store_in c [] = []
store_in c (table es ∷ l) = table (join es (content_and c empty)) ∷ l
store_in c (d ∷ l) = d ∷ l

set_entry : List Content → List Content
set_entry [] = []
set_entry (c ∷ []) = []
set_entry (c ∷ key ∷ l) = store_in c l

get_entry : List Content → List Content
get_entry (number i ∷ table es ∷ l) = entry es i ∷ table es ∷ l
get_entry l = l

drop_slots : ℕ → List Content → List Content
drop_slots zero l = l
drop_slots (suc n) [] = []
drop_slots (suc n) (c ∷ l) = drop_slots n l

abbrev numerals : Numerals
numerals = record {
  of_int = λ i. i;
  of_float = λ f. f;
  to_float = λ d. d;
  numeric = is_digit;
  parsed = digit;
  to_float-of_float = λ f. refl;
}

abbrev lua : Lua (List Content)
lua = record {
  gettop = λ l. length l;
  isnoneornil = λ idx l. is_no_value (slot l);
  isnil = λ idx l. is_no_value (slot l);
  isboolean = λ idx l. is_truth (slot l);
  isnumber = λ idx l. is_number is_digit (slot l);
  isstring = λ idx l. is_string (slot l);
  istable = λ idx l. is_table (slot l);
  toboolean = λ idx l. truth_of (slot l);
  tonumber = λ idx l. number_of (slot l);
  tointeger = λ idx l. number_of (slot l);
  tostring = λ idx l. text_of (slot l);
  pushnil = λ l. no_value ∷ l;
  pushnumber = λ f l. number f ∷ l;
  pushinteger = λ i l. number i ∷ l;
  pushboolean = λ b l. truth b ∷ l;
  pushstring = λ s l. text s ∷ l;
  newtable = λ l. table empty ∷ l;
  settable = λ idx l. set_entry l;
  gettable = λ idx l. get_entry l;
  pop = λ n l. drop_slots n l;
}

lua_laws : IsLua lua numerals
unfolding slot truth_of text_of number_of set_entry store_in get_entry drop_slots
lua_laws = record {
  Shows = λ l cs. l ≡ cs;
  top = λ l c cs h. rw h (ground arith);
  isnoneornil_lem = λ l c cs h. rw h refl;
  isnil_lem = λ l c cs h. rw h refl;
  isboolean_lem = λ l c cs h. rw h refl;
  isnumber_lem = λ l c cs h. rw h refl;
  isstring_lem = λ l c cs h. rw h refl;
  istable_lem = λ l c cs h. rw h refl;
  toboolean_lem = λ l b cs h. rw h refl;
  tonumber_lem = λ l d cs h. rw h refl;
  tonumber-text = λ l s cs h e. rw h refl;
  tostring_lem = λ l s cs h. rw h refl;
  pushnil_lem = λ l cs h. rw h refl;
  pushnumber_lem = λ l f cs h. rw h refl;
  pushinteger_lem = λ l i cs h. rw h refl;
  pushboolean_lem = λ l b cs h. rw h refl;
  pushstring_lem = λ l s cs all h. rw h refl;
  newtable_lem = λ l cs h. rw h refl;
  settable_lem = λ l c es cs h. rw h refl;
  gettable_lem = λ l i es cs h. rw h refl;
  pop_lem = λ l c cs h. rw h refl;
}

-- [7, "7", [true], void, 1]
abbrev with_hole : Value
with_hole = array (
    cons (int32 7) (
      cons (string (55 ∷ []))
        (cons (array (cons (boolean true) nil)) (cons void (cons (int32 1) nil)))))

with_hole-IsShared : IsShared Any with_hole
unfolding IsShared
with_hole-IsShared = (tt, ((omega arith, tt), ((tt, tt), (tt, (tt, tt)))))

rounds-with_hole : rounds with_hole < 20
unfolding rounds
rounds-with_hole = omega arith

lua_to_value-push_value_example :
    (l' : List Content) × (lua_to_value lua 20 1 (push_value lua with_hole [])
      ≡ converted (pointer_to (lua_form numerals with_hole), l'))
    × (l' ≡ content numerals with_hole ∷ [])
unfolding lua_laws
lua_to_value-push_value_example =
    lua_to_value-push_value lua numerals lua_laws with_hole 20 [] [] rounds-with_hole
      with_hole-IsShared refl

-- every global is a function that fails
abbrev failing_vm : LuaVm (List Content)
failing_vm = record {
  loadbuffer = λ script l. (0, l);
  pcall_multret = λ l. (0, l);
  pcall = λ nargs l. (2, text (101 ∷ []) ∷ drop_slots (suc nargs) l);
  getglobal = λ name l. table empty ∷ l;
  setglobal = λ name l. drop_slots 1 l;
  isfunction = λ idx l. true;
  pushclosure = λ name f l. table empty ∷ l;
}

abbrev new_lua : LuaState (List Content)
new_lua = record { vm = []; errors = [] }
