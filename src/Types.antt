-- ===== src/Types.antt =====
-- The types of src/type.cpp and include/public/xpm/type.hpp: the parents, arguments, `accepts` and
-- `lca`. A type is its number in the store, the predefined types have the
-- numbers from 0 on, and a shared pointer to a parent is
-- an optional number. The loops over the parents are on fuel, since `parentType` may set any parent.
pub mod Hierarchy
pub mod Shared
pub mod Ranked
use experimaestro.Prelude.{
  ℕ, zero, suc, Bool, true, false, ◌&&◌, ◌||◌, Option, none, some, List, [], ◌∷◌, ◌++◌, Text, codes,
  text_eq, lookup, insert, any, if◌then◌else◌,
}
use experimaestro.Errors.{Result, ok, err, out_of_fuel, ◌>>=◌}

pub record TypeInfo : Type 0 where
  pub name : Text
  pub parent : Option ℕ
  pub arguments : List (Text × ℕ)
  pub can_ignore : Bool

abbrev pub Types : Type 0
Types = ℕ → TypeInfo

-- The predefined types.
abbrev pub any_type : ℕ
any_type = 0

abbrev pub boolean_type : ℕ
boolean_type = 1

abbrev pub integer_type : ℕ
integer_type = 2

abbrev pub real_type : ℕ
real_type = 3

abbrev pub string_type : ℕ
string_type = 4

abbrev pub path_type : ℕ
path_type = 5

-- The names of the predefined types.
abbrev pub any_name : Text
any_name = codes "any"

abbrev pub integer_name : Text
integer_name = codes "integer"

abbrev pub real_name : Text
real_name = codes "real"

-- `Typename::array`
unfoldable pub array_name : Text → Text
array_name name = name ++ codes "[]"

-- `addArgument`
unfoldable pub add_argument : Text → ℕ → TypeInfo → TypeInfo
add_argument name argument t = record t { arguments = insert name argument t.arguments }

-- `parentType(type)`
unfoldable pub parent_type : ℕ → TypeInfo → TypeInfo
parent_type p t = record t { parent = some p }

unfoldable pub same : Types → ℕ → ℕ → Bool
same types a b = text_eq (types a).name (types b).name

-- `argument(name)`: the type's own, or that of its parents.
unfoldable pub argument_of : ℕ → Types → Text → ℕ → Result (Option ℕ)
argument_of zero types name t = err out_of_fuel
argument_of (suc fuel) types name t =
    let inherited : Result (Option ℕ) = elim (types t).parent [
      | none ↦ ok none
      | some p ↦ argument_of fuel types name p
    ] in
    elim (lookup name (types t).arguments) [ some a ↦ ok (some a) | none ↦ inherited ]

-- `for (current = t; current; current = current->parentType())`, up to the first type that passes.
unfoldable pub first_above : ℕ → Types → (ℕ → Bool) → Option ℕ → Result (Option ℕ)
first_above fuel types test none = ok none
first_above zero types test (some t) = err out_of_fuel
first_above (suc fuel) types test (some t) =
    let rest = first_above fuel types test (types t).parent in if test t then ok (some t) else rest

-- The names that the first loop of `lca` collects.
unfoldable pub names_above : ℕ → Types → Option ℕ → Result (List Text)
names_above fuel types none = ok []
names_above zero types (some t) = err out_of_fuel
names_above (suc fuel) types (some t) =
    names_above fuel types (types t).parent >>= λ rest. ok ((types t).name ∷ rest)

-- The only pair of `castable_types`.
unfoldable pub is_castable : Text → Text → Bool
is_castable to from = text_eq to real_name && text_eq from integer_name

unfoldable pub accepts : ℕ → Types → ℕ → ℕ → Result Bool
unfolding is_castable
accepts fuel types t other = if text_eq (types t).name any_name then ok true else (do
  found ← first_above fuel types (λ u. same types u t) (some other)
  ok (elim found [ some _ ↦ true | none ↦ is_castable (types t).name (types other).name ]))

-- `lca`. When the first loop meets the name of `b`, it returns `a`.
unfoldable pub lca : ℕ → Types → ℕ → ℕ → Result ℕ
lca fuel types a b = first_above fuel types (λ u. same types u b) (some a) >>= λ found. elim found [
  | some _ ↦ ok a
  | none ↦ (do
    names ← names_above fuel types (some a)
    shared ← first_above fuel types (λ u. any (text_eq (types u).name) names) (some b)
    ok (elim shared [ some r ↦ r | none ↦ any_type ]))
]
