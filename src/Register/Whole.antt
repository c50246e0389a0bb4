-- ===== src/Register/Whole.antt =====
-- `Register::load` of src/register.cpp with `Value::create` of src/xpm.cpp, which it calls for properties,
-- default values and constants.
use experimaestro.Prelude.{ℕ, ◌≡◌, false, Option, none, Text, codes}
use experimaestro.Errors.{Result, ok, err, runtime_error}
use experimaestro.Scalar.{Numbers}
use experimaestro.Scalar.Json.{Json, object, Members, member}
use experimaestro.Register.{is_array_name}
use experimaestro.Register.Store.{Store, at_member}
use experimaestro.Register.Creation.{create}
use experimaestro.Register.Creation.Keeping.{json-Good}
use experimaestro.Register.Loading.{load_register}
use experimaestro.Register.Loading.Objects.{IsConsistent, Extends}
use experimaestro.Register.Loading.Again.{load_register-Good, load_register_again}

module _ (m : Numbers) (fuel : ℕ) (array_of : ℕ → ℕ) (component_of : ℕ → Option ℕ)
    (dummy_job : Json m.Double → Result ℕ) where
  -- `load` with the values that `create` makes.
  unfoldable pub load_json : Json m.Double → Store m.Double → Result (Store m.Double)
  unfolding load_register create
  load_json j s = load_register fuel array_of (create m fuel array_of component_of dummy_job) j s

  -- When `load` returns on a register in which every type stands under its own name and has a number
  -- that is taken, this is so afterwards; the types that were there keep their numbers and names, but for
  -- names with brackets at their ends; those that were defined stay so, with the same parent and the same
  -- arguments, and no argument that was there has changed.
  pub load_json-Extends :
      (j : Json m.Double) (s s' : Store m.Double)
      → IsConsistent s
      → load_json j s ≡ ok s'
      → IsConsistent s' × Extends none s s'
  unfolding load_json
  load_json-Extends j s s' c h =
      load_register-Good fuel array_of (create m fuel array_of component_of dummy_job)
        (json-Good m fuel array_of component_of dummy_job) j s s' h c

  -- After a register with at least one type has been loaded into a consistent one, when the first type
  -- has no brackets at the end of its name, to load it again throws a runtime error.
  pub load_json_again :
      (j : Json m.Double) (name : Text) (e : Json m.Double) (rest : Members m.Double)
      (s s' : Store m.Double)
      → IsConsistent s
      → is_array_name name ≡ false
      → at_member (codes "types") j ≡ ok (object (member name e rest))
      → load_json j s ≡ ok s'
      → load_json j s' ≡ err runtime_error
  unfolding load_json
  load_json_again =
      load_register_again fuel array_of (create m fuel array_of component_of dummy_job)
        (json-Good m fuel array_of component_of dummy_job)
