-- ===== src/Register/Store.antt =====
-- The state that `Register::load` of src/register.cpp fills, with the members of its JSON: new types,
-- placeholders and parents.
use experimaestro.Prelude.{
  ℕ, suc, Bool, true, false, Option, none, some, List, [], Text, codes, text_eq, lookup, insert,
  if◌then◌else◌,
}
use experimaestro.Errors.{
  Result, ok, err, invalid_argument, runtime_error, json_error, undefined_behaviour, ◌>>=◌,
}
use experimaestro.Scalar.Json.{
  Json, null, json_boolean, object, array, Members, no_member, no_element,
}
use experimaestro.Command.{CommandLine, get_member, count_member, get_text}
use experimaestro.Scheduler.{update}
use experimaestro.Types.{Types, TypeInfo, parent_type}
use experimaestro.Value.Arguments.{Argument}
use experimaestro.Register.{Register}

-- A `Task`: its type and its command line.
pub record TaskInfo : Type 0 where
  pub type : ℕ
  pub command : CommandLine

-- `Task::Task`, which wants a type, and `commandline`.
unfoldable pub new_task : Option ℕ → CommandLine → Result TaskInfo
new_task none command = err invalid_argument
new_task (some type) command = ok (record { type = type; command = command })

-- The register: its types by name, what stands under their numbers, which are placeholders, and the
-- number of the next; the arguments in the same way, and the tasks.
pub record Store (D : Type 0) : Type 0 where
  pub names : Register
  pub types : Types
  pub placeholder : ℕ → Bool
  pub count : ℕ
  pub arguments : ℕ → Argument D
  pub argument_count : ℕ
  pub tasks : List (Text × TaskInfo)

module _ {D : Type 0} where
  -- `e[key]` of a constant value.
  unfoldable pub at_member : Text → Json D → Result (Json D)
  unfolding get_member
  at_member key (object members) = elim (get_member key members) [
    | none ↦ err undefined_behaviour
    | some value ↦ ok value
  ]
  at_member key _ = err json_error

  unfoldable pub get_bool : Json D → Result Bool
  get_bool (json_boolean value) = ok value
  get_bool _ = err json_error

  -- `value(key, default)`, which wants an object.
  unfoldable pub bool_or : Text → Bool → Json D → Result Bool
  unfolding get_member get_bool
  bool_or key default (object members) = elim (get_member key members) [
    | none ↦ ok default
    | some value ↦ get_bool value
  ]
  bool_or key default _ = err json_error

  unfoldable pub text_or : Text → Text → Json D → Result Text
  unfolding get_member get_text
  text_or key default (object members) = elim (get_member key members) [
    | none ↦ ok default
    | some value ↦ get_text value
  ]
  text_or key default _ = err json_error

  -- The members that a loop with `key()` goes through.
  unfoldable pub members_of : Json D → Result (Members D)
  members_of (object members) = ok members
  members_of null = ok no_member
  members_of (array no_element) = ok no_member
  members_of _ = err json_error

  -- `e.value(key, json::object())`
  unfoldable pub members_or : Text → Json D → Result (Members D)
  unfolding get_member members_of
  members_or key (object members) = elim (get_member key members) [
    | none ↦ ok no_member
    | some value ↦ members_of value
  ]
  members_or key _ = err json_error

  -- A new type, under its name.
  unfoldable pub new_type : Text → Bool → Store D → ℕ × Store D
  unfolding insert
  new_type name placeholder s = (
    s.count,
    record s {
      names = insert name s.count s.names;
      types =
          update s.types s.count
            (record { name = name; parent = none; arguments = []; can_ignore = false });
      placeholder = update s.placeholder s.count placeholder;
      count = suc s.count;
    },
  )

  -- The type of an entry of "types": a placeholder that is there, or a new type.
  unfoldable pub claim_type : Text → Store D → Result (ℕ × Store D)
  unfolding new_type lookup
  claim_type name s = elim (lookup name s.names) [
    | some t ↦
        if s.placeholder t
        then ok (t, record s { placeholder = update s.placeholder t false })
        else err runtime_error
    | none ↦ ok (new_type name false s)
  ]

  -- A type by its name, or a new placeholder.
  unfoldable pub type_or_placeholder : Option ℕ → Text → Store D → ℕ × Store D
  unfolding new_type
  type_or_placeholder none name s = new_type name true s
  type_or_placeholder (some t) name s = (t, s)

  unfoldable pub change_type : ℕ → (TypeInfo → TypeInfo) → Store D → Store D
  change_type t f s = record s { types = update s.types t (f (s.types t)) }

  -- `if (e.count("parent"))`
  unfoldable pub load_parent : ℕ → Json D → Store D → Result (Store D)
  unfolding count_member at_member get_text type_or_placeholder change_type parent_type lookup
  load_parent t e s =
      if count_member (codes "parent") e
      then (do
        value ← at_member (codes "parent") e
        name ← get_text value
        let (p, s') = type_or_placeholder (lookup name s.names) name s
        ok (change_type t (parent_type p) s'))
      else ok s

  -- `Generator::createFromJSON`: the name of a path generator.
  unfoldable pub load_generator : Json D → Result Text
  unfolding at_member get_text
  load_generator g = do
    kind ← at_member (codes "type") g
    type ← get_text kind
    if text_eq type (codes "path")
        then (at_member (codes "name") g >>= get_text)
        else err invalid_argument
