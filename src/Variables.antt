-- ===== src/Variables.antt =====
-- The variables of a workspace: `Workspace::set`, `find`, `get` and `has` of src/workspace.cpp.
pub mod Scopes
use experimaestro.Prelude.{
  ℕ, zero, suc, Bool, true, false, Option, none, some, List, [], ◌∷◌, ◌++◌, Text, lookup, insert,
  take, drop,
}
use experimaestro.Errors.{Result, ok, err, out_of_fuel, ◌>>=◌}
use experimaestro.Path.Search.{rfind}
use experimaestro.Path.{dot}

abbrev pub Variables : Type 0
Variables = List (Text × Text)

-- `set(key, value)` and `set(ns, key, value)`
unfoldable pub set : Text → Text → Variables → Variables
set key value vars = insert key value vars

unfoldable pub set_in : Text → Text → Text → Variables → Variables
set_in ns key value vars = insert (ns ++ (dot ∷ key)) value vars

-- `key.rfind('.', last_dot - 1)`: from position 0 the subtraction wraps, and the whole key is searched.
unfoldable pub next_dot : Text → ℕ → Option ℕ
next_dot key zero = rfind dot key
next_dot key (suc p) = rfind dot (take (suc p) key)

-- The loop of `find`, on fuel.
unfoldable pub find_from : ℕ → Text → Text → Option ℕ → Variables → Result (Option Text)
unfolding next_dot
find_from fuel key name none vars = ok (lookup name vars)
find_from zero key name (some last_dot) vars = err out_of_fuel
find_from (suc fuel) key name (some last_dot) vars =
    let rest = find_from fuel key name (next_dot key last_dot) vars in
    elim (lookup (take last_dot key ++ (dot ∷ name)) vars) [
      | some value ↦ ok (some value)
      | none ↦ rest
    ]

-- `key.substr(last_dot == npos ? 0 : last_dot + 1)`
unfoldable pub local_name : Text → Option ℕ → Text
local_name key none = key
local_name key (some last_dot) = drop (suc last_dot) key

-- The iterator of `find`: the value, or `none` at the end.
unfoldable pub find : ℕ → Text → Variables → Result (Option Text)
unfolding find_from local_name
find fuel key vars = find_from fuel key (local_name key (rfind dot key)) (rfind dot key) vars

unfoldable pub get : ℕ → Text → Variables → Result Text
unfolding find
get fuel key vars = find fuel key vars >>= λ r. ok (elim r [ none ↦ [] | some value ↦ value ])

unfoldable pub has : ℕ → Text → Variables → Result Bool
unfolding find
has fuel key vars = find fuel key vars >>= λ r. ok (elim r [ none ↦ false | some _ ↦ true ])
