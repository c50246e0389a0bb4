-- ===== src/Register.antt =====
-- The table of types of `Register` of src/register.cpp: `addType` and `getType` by name. A type is its
-- number in the store; `array_of` is the `ArrayType` that is made for a type.
pub mod Naming
pub mod Store
pub mod Creation
pub mod Loading
pub mod Whole
use experimaestro.Prelude.{
  ℕ, zero, suc, ◌-◌, Bool, true, false, ◌&&◌, Option, none, some, List, [], Text, codes, text_eq,
  lookup, insert, length, take, drop, ltb, if◌then◌else◌,
}
use experimaestro.Errors.{Result, ok, err, out_of_fuel, ◌>>=◌}
use experimaestro.Types.{Types}

abbrev pub Register : Type 0
Register = List (Text × ℕ)

-- `addType`
unfoldable pub add_type : Types → ℕ → Register → Register
unfolding insert
add_type types t r = insert (types t).name t r

-- `_name.size() > 2 && _name.substr(_name.size()-2) == "[]"`
unfoldable pub is_array_name : Text → Bool
is_array_name name = ltb 2 (length name) && text_eq (drop (length name - 2) name) (codes "[]")

unfoldable pub array_type : (ℕ → ℕ) → Option ℕ → Option ℕ
array_type array_of none = none
array_type array_of (some t) = some (array_of t)

-- `getType(Typename)`, on fuel: one unit for the name, and one for each pair of brackets.
unfoldable pub get_type : ℕ → (ℕ → ℕ) → Text → Register → Result (Option ℕ)
unfolding is_array_name array_type lookup
get_type zero array_of name r = err out_of_fuel
get_type (suc fuel) array_of name r =
    let inner = get_type fuel array_of (take (length name - 2) name) r in
    if is_array_name name then (inner >>= λ o. ok (array_type array_of o)) else ok (lookup name r)
