-- ===== src/Proxy/Definitions.antt =====
-- The functions that a program defines in a sandbox, by `define_function_proxy`, and the table that
-- their callbacks are looked up in.
use cagekeeper.Prelude.{
  ℕ, ◌≡◌, refl, sym, ap, ◌∙◌, Bool, true, false, Bool-cases, inl, inr, Option, none, some, List, [],
  ◌∷◌, arith, if◌then◌else◌,
}
use cagekeeper.Dict.{HashType, IsLawful, Dict, dict_contains}
use cagekeeper.Dict.Placed.{IsValid, IsUnique, view}
use cagekeeper.Dict.Presence.{is_some, view_congr, dict_contains-view, dict_put-absent}
use cagekeeper.Proxy.Callbacks.{answer_by}
use cagekeeper.Proxy.Parent.{FunctionRef, Proxy, send, report, define_function_proxy}
use cagekeeper.Proxy.Serving.{Answers}
use cagekeeper.Value.{Value}

-- A name and the function that is defined under it.
abbrev pub Definition : Type 0
Definition = List ℕ × FunctionRef

module _ (key_type : HashType (List ℕ)) where
  -- `define_function` for each of them, in order
  unfoldable pub define_all : List Definition → Proxy → Proxy
  define_all [] p = p
  define_all ((name, f) ∷ ds) p = define_all ds (define_function_proxy key_type name f p)

  -- The first function that is defined under a name.
  unfoldable pub first_defined : List Definition → List ℕ → Option FunctionRef
  first_defined [] q = none
  first_defined ((name, f) ∷ ds) q = if key_type.equals name q then some f else first_defined ds q

-- A name that has a function keeps it.
abbrev pub or_first : Option (Option FunctionRef) → Option FunctionRef → Option (Option FunctionRef)
or_first (some f) g = some f
or_first none none = none
or_first none (some g) = some (some g)

or_first-there :
    (b : Bool) (f : FunctionRef) (here v : Option (Option FunctionRef))
    → is_some here ≡ true
    → (b ≡ true → here ≡ v)
    → v ≡ or_first v (if b then some f else none)
or_first-there b f here (some g) h same = refl
or_first-there true f here none h same = ground (arith, same refl)
or_first-there false f here none h same = refl

or_first-absent :
    (b : Bool) (f : FunctionRef) (here v : Option (Option FunctionRef))
    → is_some here ≡ false
    → (b ≡ true → here ≡ v)
    → (if b then some (some f) else v) ≡ or_first v (if b then some f else none)
or_first-absent true f here none h same = refl
or_first-absent false f here none h same = refl
or_first-absent true f here (some g) h same = ground (arith, same refl)
or_first-absent false f here (some g) h same = refl

or_first_twice :
    (b : Bool) (f : FunctionRef) (v : Option (Option FunctionRef)) (g : Option FunctionRef)
    → or_first (or_first v (if b then some f else none)) g ≡ or_first v (if b then some f else g)
or_first_twice true f none g = refl
or_first_twice false f none g = refl
or_first_twice true f (some h) g = refl
or_first_twice false f (some h) g = refl

module _ (key_type : HashType (List ℕ)) (lawful : IsLawful key_type) where
  -- A table of callbacks in which each name stands once.
  pub record IsTable (t : Dict (List ℕ) (Option FunctionRef)) : Type 0 where
    pub valid : IsValid key_type t
    pub unique : IsUnique key_type t

  -- One definition: the name that has no function yet gets this one, and all else stays.
  pub define_function_proxy-IsTable :
      (name : List ℕ) (f : FunctionRef) (p : Proxy)
      → IsTable p.callback_functions
      → IsTable (define_function_proxy key_type name f p).callback_functions
        × ((q : List ℕ)
            → view key_type (define_function_proxy key_type name f p).callback_functions q
              ≡ or_first
                  (view key_type p.callback_functions q)
                  (if key_type.equals name q then some f else none))
  unfolding define_function_proxy send report
  define_function_proxy-IsTable name f p table =
      let t = p.callback_functions in
      let c = dict_contains-view key_type lawful t name table.valid table.unique in
      elim (Bool-cases (dict_contains key_type t name).0) [
        | inl there ↦ rw there (
          record { valid = c.1.valid; unique = c.1.unique },
          λ q.
              c.1.same q
              ∙ or_first-there (key_type.equals name q) f (view key_type t name) (view key_type t q)
                  (sym c.0 ∙ there) (view_congr key_type lawful t name q),
        )
        | inr absent ↦
            let p' =
              dict_put-absent key_type lawful t name (some f) table.valid table.unique absent in
            rw absent (
              record { valid = p'.0; unique = p'.1 },
              λ q.
                  p'.2 q
                  ∙ or_first-absent (key_type.equals name q) f (view key_type t name)
                      (view key_type t q) (sym c.0 ∙ absent) (view_congr key_type lawful t name q),
            )
      ]

  -- After any definitions each name has the function that it had before, or else the first that is
  -- defined under it.
  pub define_all-IsTable :
      (ds : List Definition) (p : Proxy)
      → IsTable p.callback_functions
      → IsTable (define_all key_type ds p).callback_functions
        × ((q : List ℕ)
            → view key_type (define_all key_type ds p).callback_functions q
              ≡ or_first (view key_type p.callback_functions q) (first_defined key_type ds q))
  unfolding define_all first_defined
  define_all-IsTable [] p table = (table, λ q. or_first_none (view key_type p.callback_functions q))
    where
      or_first_none : (v : Option (Option FunctionRef)) → v ≡ or_first v none
      or_first_none none = refl
      or_first_none (some f) = refl
  define_all-IsTable ((name, f) ∷ ds) p table =
      let one = define_function_proxy-IsTable name f p table in
      let rest = define_all-IsTable ds (define_function_proxy key_type name f p) one.0 in
      (
        rest.0,
        λ q.
            rest.1 q
            ∙ ap (λ v. or_first v (first_defined key_type ds q)) (one.1 q)
            ∙ or_first_twice (key_type.equals name q) f (view key_type p.callback_functions q)
                (first_defined key_type ds q),
      )

  abbrev pub answer_first :
      (FunctionRef → Value → Option Value) → Value → Option FunctionRef → Option Value
  answer_first run args none = none
  answer_first run args (some f) = run f args

  answer_by-or_first :
      (run : FunctionRef → Value → Option Value) (args : Value) (g : Option FunctionRef)
      → answer_first run args g ≡ answer_by run args (or_first none g)
  unfolding answer_by
  answer_by-or_first run args none = refl
  answer_by-or_first run args (some g) = refl

  -- In a proxy whose table is empty and valid, whatever functions are defined and in whatever order:
  -- the table stays valid with each name once, and a callback is answered by the first function that
  -- was defined under its name, and by none where there is none. A later definition of a name changes
  -- nothing.
  pub define_all-Answers :
      (host : FunctionRef → Value → Proxy → Option Value × Proxy)
      (run : FunctionRef → Value → Option Value)
      (quiet : (f : FunctionRef) (args : Value) (p : Proxy) → host f args p ≡ (run f args, p))
      (ds : List Definition) (p : Proxy)
      → IsTable p.callback_functions
      → ((q : List ℕ) → view key_type p.callback_functions q ≡ none)
      → Answers key_type lawful host run quiet
          (λ name args. answer_first run args (first_defined key_type ds name))
          (define_all key_type ds p).callback_functions
  define_all-Answers host run quiet ds p table blank =
      let d = define_all-IsTable ds p table in
      record {
        valid = d.0.valid;
        unique = d.0.unique;
        agrees = λ name args.
            answer_by-or_first run args (first_defined key_type ds name)
            ∙ ap (answer_by run args) (
                ap (λ v. or_first v (first_defined key_type ds name)) (sym (blank name))
                ∙ sym (d.1 name));
      }
