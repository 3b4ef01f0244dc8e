-- ===== src/Lua/Values.antt =====
-- language_lua.c, lines 120 to 191: values to and from Lua's stack. The Lua library is a parameter
-- and acts on its state `L`. Every index that the code uses is negative, and is given by its distance
-- from the top: 1 for -1. What goes to `language_error` on the way is left out.
use cagekeeper.Prelude.{ℕ, zero, suc, Bool, List, [], ◌∷◌, ltb, if◌then◌else◌}
use cagekeeper.Binding.{Converted, converted, refused, out_of_fuel, ◌>>=◌, copies_of_list}
use cagekeeper.Function.Values.{Copy, null, scalar, copied_array}
use cagekeeper.Value.{
  Value, Items, void, float32, int32, boolean, string, array, function, nil, cons,
}

-- What the code uses of the library on values.
pub record Lua (L : Type 0) : Type 0 where
  pub gettop : L → ℕ
  pub isnoneornil : ℕ → L → Bool
  pub isnil : ℕ → L → Bool
  pub isboolean : ℕ → L → Bool
  pub isnumber : ℕ → L → Bool
  pub isstring : ℕ → L → Bool
  pub istable : ℕ → L → Bool
  pub toboolean : ℕ → L → Bool
  pub tonumber : ℕ → L → ℕ
  pub tointeger : ℕ → L → ℕ
  pub tostring : ℕ → L → List ℕ
  pub pushnil : L → L
  pub pushnumber : ℕ → L → L
  pub pushinteger : ℕ → L → L
  pub pushboolean : Bool → L → L
  pub pushstring : List ℕ → L → L
  pub newtable : L → L
  pub settable : ℕ → L → L
  pub gettable : ℕ → L → L
  pub pop : ℕ → L → L

module _ {L : Type 0} (lua : Lua L) where
  -- `push_value`; the entries of an array have the keys from 0 on
  unfoldable mutual
    pub push_value : Value → L → L
    push_value void l = lua.pushnil l
    push_value (float32 f) l = lua.pushnumber f l
    push_value (int32 i) l = lua.pushinteger i l
    push_value (boolean b) l = lua.pushboolean b l
    push_value (string s) l = lua.pushstring s l
    push_value (array vs) l = push_entries 0 vs (lua.newtable l)
    push_value (function p n) l = lua.pushnil l

    pub push_entries : ℕ → Items → L → L
    push_entries i nil l = l
    push_entries i (cons v vs) l =
        push_entries (suc i) vs (lua.settable 3 (push_value v (lua.pushinteger i l)))

  unfoldable pub to_array : Converted (List Copy × L) → Converted (Copy × L)
  to_array (converted (cs, l)) = converted (copied_array (copies_of_list cs), l)
  to_array refused = refused
  to_array out_of_fuel = out_of_fuel

  -- the tests of `lua_to_value`, in order; `entries` is the loop over a table
  unfoldable pub lua_tests : (L → Converted (List Copy × L)) → ℕ → L → Converted (Copy × L)
  unfolding to_array
  lua_tests entries idx l =
      if ltb (lua.gettop l) idx
      then converted (null, l)
      else if lua.isnoneornil idx l
      then converted (scalar void, l)
      else if lua.isboolean idx l
      then converted (scalar (boolean (lua.toboolean idx l)), l)
      else if lua.isnumber idx l
      then converted (scalar (float32 (lua.tonumber idx l)), l)
      else if lua.isnumber idx l
      then converted (scalar (int32 (lua.tointeger idx l)), l)
      else if lua.isstring idx l
      then converted (scalar (string (lua.tostring idx l)), l)
      else if lua.istable idx l
      then to_array (entries l)
      else converted (null, l)

  -- one round of the loop, with the entry on the top
  unfoldable pub at_entry :
      (L → Converted (Copy × L)) → (L → Converted (List Copy × L)) → L → Converted (List Copy × L)
  at_entry convert rest l =
      if lua.isnil 1 l
      then converted ([], lua.pop 1 l)
      else (convert l >>= λ r. rest (lua.pop 1 r.1) >>= λ rs. converted (r.0 ∷ rs.0, rs.1))

  -- `lua_to_value`, and its loop from the key `i` on
  unfoldable mutual
    unfolding lua_tests at_entry

    pub lua_to_value : ℕ → ℕ → L → Converted (Copy × L)
    lua_to_value zero idx l = out_of_fuel
    lua_to_value (suc f) idx l = lua_tests (table_from f idx 0) idx l

    pub table_from : ℕ → ℕ → ℕ → L → Converted (List Copy × L)
    table_from zero idx i l = out_of_fuel
    table_from (suc f) idx i l =
        at_entry (lua_to_value f 1) (table_from f idx (suc i))
          (lua.gettable (suc idx) (lua.pushinteger i l))
