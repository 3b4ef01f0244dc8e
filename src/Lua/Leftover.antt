-- ===== src/Lua/Leftover.antt =====
-- language_lua.c: the height of the stack, and what a failing call leaves on it.
use cagekeeper.Prelude.{ℕ, suc, ◌-◌, ◌≡◌, refl, ◌∙◌, Bool, List, arith}
use cagekeeper.Lua.Methods.{LuaVm}
use cagekeeper.Lua.Values.{Lua, push_value, push_entries}
use cagekeeper.Value.{
  Value, Items, void, float32, int32, boolean, string, array, function, nil, cons,
}

-- What is documented of the height: every push adds a slot, a store in a table takes two, and a call
-- with an error takes the function and its arguments and adds a message.
pub record HasHeight {L : Type 0} (lua : Lua L) (vm : LuaVm L) : Type 0 where
  pub pushnil_lem : (l : L) → lua.gettop (lua.pushnil l) ≡ suc (lua.gettop l)
  pub pushnumber_lem : (f : ℕ) (l : L) → lua.gettop (lua.pushnumber f l) ≡ suc (lua.gettop l)
  pub pushinteger_lem : (i : ℕ) (l : L) → lua.gettop (lua.pushinteger i l) ≡ suc (lua.gettop l)
  pub pushboolean_lem : (b : Bool) (l : L) → lua.gettop (lua.pushboolean b l) ≡ suc (lua.gettop l)
  pub pushstring_lem : (s : List ℕ) (l : L) → lua.gettop (lua.pushstring s l) ≡ suc (lua.gettop l)
  pub newtable_lem : (l : L) → lua.gettop (lua.newtable l) ≡ suc (lua.gettop l)
  pub settable_lem : (idx : ℕ) (l : L) → lua.gettop (lua.settable idx l) ≡ lua.gettop l - 2
  pub getglobal_lem :
      (name : List ℕ) (l : L) → lua.gettop (vm.getglobal name l) ≡ suc (lua.gettop l)
  pub pcall_fails :
      (nargs e : ℕ) (l : L)
      → (vm.pcall nargs l).0 ≡ suc e
      → lua.gettop (vm.pcall nargs l).1 ≡ suc (lua.gettop l - suc nargs)

module _ {L : Type 0} (lua : Lua L) (vm : LuaVm L) (laws : HasHeight lua vm) where
  mutual
    unfolding push_value

    gettop-push_value : (v : Value) (l : L) → lua.gettop (push_value lua v l) ≡ suc (lua.gettop l)
    gettop-push_value void l = laws.pushnil_lem l
    gettop-push_value (float32 f) l = laws.pushnumber_lem f l
    gettop-push_value (int32 i) l = laws.pushinteger_lem i l
    gettop-push_value (boolean b) l = laws.pushboolean_lem b l
    gettop-push_value (string s) l = laws.pushstring_lem s l
    gettop-push_value (array vs) l = gettop-push_entries vs 0 (lua.newtable l) ∙ laws.newtable_lem l
    gettop-push_value (function p n) l = laws.pushnil_lem l

    gettop-push_entries :
        (vs : Items) (i : ℕ) (l : L) → lua.gettop (push_entries lua i vs l) ≡ lua.gettop l
    gettop-push_entries nil i l = refl
    gettop-push_entries (cons v vs) i l =
        let key = lua.pushinteger i l in
        let h₁ = laws.pushinteger_lem i l in
        let h₂ = gettop-push_value v key in
        let h₃ = laws.settable_lem 3 (push_value lua v key) in
        gettop-push_entries vs (suc i) (lua.settable 3 (push_value lua v key))
        ∙ omega (arith, h₁, h₂, h₃)
