-- ===== src/Lua/Contents.antt =====
-- What a slot of Lua's stack shows, and what is documented of the operations on the stack.
use cagekeeper.Prelude.{ℕ, zero, suc, ◌≡◌, ◌≢◌, refl, ap, Bool, true, false, List, ◌∷◌, All, ltb}
use cagekeeper.Lua.Values.{Lua}

-- A value of Lua, with tables as the list of their entries from the key 0 on.
mutual
  pub data Content : Type 0 where
    no_value : Content
    number : ℕ → Content
    truth : Bool → Content
    text : List ℕ → Content
    table : Contents → Content

  pub data Contents : Type 0 where
    empty : Contents
    content_and : Content → Contents → Contents

unfoldable pub join : Contents → Contents → Contents
join empty ds = ds
join (content_and c cs) ds = content_and c (join cs ds)

unfoldable pub entries : Contents → ℕ
entries empty = 0
entries (content_and c cs) = suc (entries cs)

-- a key that a table does not have is read as nil
unfoldable pub entry : Contents → ℕ → Content
entry empty i = no_value
entry (content_and c cs) zero = c
entry (content_and c cs) (suc i) = entry cs i

pub join-empty : (cs : Contents) → join cs empty ≡ cs
unfolding join
join-empty empty = refl
join-empty (content_and c cs) = ap (content_and c) (join-empty cs)

pub join_assoc : (bs cs ds : Contents) → join (join bs cs) ds ≡ join bs (join cs ds)
unfolding join
join_assoc empty cs ds = refl
join_assoc (content_and b bs) cs ds = ap (content_and b) (join_assoc bs cs ds)

pub entries-join :
    (cs : Contents) (c : Content) → entries (join cs (content_and c empty)) ≡ suc (entries cs)
unfolding join entries
entries-join empty c = refl
entries-join (content_and d cs) c = ap suc (entries-join cs c)

pub entry-join :
    (cs ds : Contents) (c : Content) → entry (join cs (content_and c ds)) (entries cs) ≡ c
unfolding join entries entry
entry-join empty ds c = refl
entry-join (content_and d cs) ds c = entry-join cs ds c

pub entry-behind : (cs : Contents) → entry cs (entries cs) ≡ no_value
unfolding entries entry
entry-behind empty = refl
entry-behind (content_and d cs) = entry-behind cs

unfoldable pub is_no_value : Content → Bool
is_no_value no_value = true
is_no_value _ = false

unfoldable pub is_truth : Content → Bool
is_truth (truth b) = true
is_truth _ = false

unfoldable pub is_table : Content → Bool
is_table (table cs) = true
is_table _ = false

-- A text that Lua reads as a number counts as one.
unfoldable pub is_number : (List ℕ → Bool) → Content → Bool
is_number numeric (number d) = true
is_number numeric (text s) = numeric s
is_number numeric _ = false

unfoldable pub is_string : Content → Bool
is_string (number d) = true
is_string (text s) = true
is_string _ = false

-- How numbers change: from an integer, from and to a `float`, and from a text.
pub record Numerals : Type 0 where
  pub of_int : ℕ → ℕ
  pub of_float : ℕ → ℕ
  pub to_float : ℕ → ℕ
  pub numeric : List ℕ → Bool
  pub parsed : List ℕ → ℕ
  pub to_float-of_float : (f : ℕ) → to_float (of_float f) ≡ f

-- What is documented of the library. `Shows l cs` says what the slots of the stack show, from the top
-- on, where no table stands in two places.
pub record IsLua {L : Type 0} (lua : Lua L) (n : Numerals) : Type 1 where
  pub Shows : L → List Content → Type 0
  pub top :
      (l : L) (c : Content) (cs : List Content) → Shows l (c ∷ cs) → ltb (lua.gettop l) 1 ≡ false
  pub isnoneornil_lem :
      (l : L) (c : Content) (cs : List Content)
      → Shows l (c ∷ cs)
      → lua.isnoneornil 1 l ≡ is_no_value c
  pub isnil_lem :
      (l : L) (c : Content) (cs : List Content) → Shows l (c ∷ cs) → lua.isnil 1 l ≡ is_no_value c
  pub isboolean_lem :
      (l : L) (c : Content) (cs : List Content) → Shows l (c ∷ cs) → lua.isboolean 1 l ≡ is_truth c
  pub isnumber_lem :
      (l : L) (c : Content) (cs : List Content)
      → Shows l (c ∷ cs)
      → lua.isnumber 1 l ≡ is_number n.numeric c
  pub isstring_lem :
      (l : L) (c : Content) (cs : List Content) → Shows l (c ∷ cs) → lua.isstring 1 l ≡ is_string c
  pub istable_lem :
      (l : L) (c : Content) (cs : List Content) → Shows l (c ∷ cs) → lua.istable 1 l ≡ is_table c
  pub toboolean_lem :
      (l : L) (b : Bool) (cs : List Content) → Shows l (truth b ∷ cs) → lua.toboolean 1 l ≡ b
  pub tonumber_lem :
      (l : L) (d : ℕ) (cs : List Content)
      → Shows l (number d ∷ cs)
      → lua.tonumber 1 l ≡ n.to_float d
  pub tonumber-text :
      (l : L) (s : List ℕ) (cs : List Content)
      → Shows l (text s ∷ cs)
      → n.numeric s ≡ true
      → lua.tonumber 1 l ≡ n.to_float (n.parsed s)
  pub tostring_lem :
      (l : L) (s : List ℕ) (cs : List Content) → Shows l (text s ∷ cs) → lua.tostring 1 l ≡ s
  pub pushnil_lem : (l : L) (cs : List Content) → Shows l cs → Shows (lua.pushnil l) (no_value ∷ cs)
  pub pushnumber_lem :
      (l : L) (f : ℕ) (cs : List Content)
      → Shows l cs
      → Shows (lua.pushnumber f l) (number (n.of_float f) ∷ cs)
  pub pushinteger_lem :
      (l : L) (i : ℕ) (cs : List Content)
      → Shows l cs
      → Shows (lua.pushinteger i l) (number (n.of_int i) ∷ cs)
  pub pushboolean_lem :
      (l : L) (b : Bool) (cs : List Content)
      → Shows l cs
      → Shows (lua.pushboolean b l) (truth b ∷ cs)
  pub pushstring_lem :
      (l : L) (s : List ℕ) (cs : List Content)
      → All (λ b. b ≢ 0) s
      → Shows l cs
      → Shows (lua.pushstring s l) (text s ∷ cs)
  pub newtable_lem :
      (l : L) (cs : List Content) → Shows l cs → Shows (lua.newtable l) (table empty ∷ cs)
  pub settable_lem :
      (l : L) (c : Content) (es : Contents) (cs : List Content)
      → Shows l (c ∷ number (n.of_int (entries es)) ∷ table es ∷ cs)
      → Shows (lua.settable 3 l) (table (join es (content_and c empty)) ∷ cs)
  pub gettable_lem :
      (l : L) (i : ℕ) (es : Contents) (cs : List Content)
      → Shows l (number (n.of_int i) ∷ table es ∷ cs)
      → Shows (lua.gettable 2 l) (entry es i ∷ table es ∷ cs)
  pub pop_lem :
      (l : L) (c : Content) (cs : List Content) → Shows l (c ∷ cs) → Shows (lua.pop 1 l) cs
