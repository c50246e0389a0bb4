-- ===== src/Register/Loading.antt =====
-- `Register::load` of src/register.cpp: the types and tasks of a register from its JSON, whose members come
-- in the order of their keys. `Value::create` is a parameter; help texts, descriptions and properties are
-- read and left out of the state.
pub mod Objects
pub mod Claims
pub mod Parts
pub mod Again
use experimaestro.Prelude.{
  ℕ, suc, Bool, true, false, Option, none, some, List, [], ◌∷◌, Text, codes, text_eq, lookup,
  insert, if◌then◌else◌,
}
use experimaestro.Errors.{
  Result, ok, err, argument_error, invalid_argument, runtime_error, json_error, undefined_behaviour,
  failed_assert, ◌>>=◌,
}
use experimaestro.Scalar.Json.{
  Json, null, json_string, json_boolean, object, array, Members, no_member, member, no_element,
}
use experimaestro.Command.{CommandLine, get_member, count_member, get_text, load, empty_line}
use experimaestro.Scheduler.{update}
use experimaestro.Types.{Types, TypeInfo, parent_type, add_argument}
use experimaestro.Value.{Value}
use experimaestro.Value.Arguments.{
  create as new_argument, Argument, set_required, set_constant, set_default_value, set_generator,
  set_type,
}
use experimaestro.Register.{Register, get_type}
use experimaestro.Register.Store.{
  TaskInfo, Store, at_member, get_bool, bool_or, text_or, members_of, members_or, new_type,
  claim_type, type_or_placeholder, change_type, load_parent, load_generator, new_task,
}

module _ {D : Type 0} (fuel : ℕ) (array_of : ℕ → ℕ)
    (create : Json D → Store D → Result (Value D × Store D)) where
  -- `if (value.count("default"))` and the like, with the member that is read: for "constant" that is
  -- "default" in turn.
  unfoldable pub load_value :
      Text
      → Text
      → (Option (Value D) → Argument D → Argument D)
      → Json D
      → Argument D × Store D
      → Result (Argument D × Store D)
  unfolding count_member at_member
  load_value tested read put value (a, s) =
      if count_member tested value
      then (do e ← at_member read value; (v, s') ← create e s; ok (put (some v) a, s'))
      else ok (a, s)

  unfoldable pub put_generator : Json D → Argument D → Result (Argument D)
  unfolding count_member at_member load_generator set_generator
  put_generator value a =
      if count_member (codes "generator") value
      then (do
        g ← at_member (codes "generator") value
        name ← load_generator g
        ok (set_generator (some name) a))
      else ok a

  -- The default value, the constant and the generator of an argument.
  unfoldable pub load_contents : Json D → Argument D → Store D → Result (Argument D × Store D)
  unfolding load_value set_default_value set_constant put_generator
  load_contents value a s = do
    (a1, s1) ← load_value (codes "default") (codes "default") set_default_value value (a, s)
    (a2, s2) ← load_value (codes "constant") (codes "default") set_constant value (a1, s1)
    a3 ← put_generator value a2
    ok (a3, s2)

  -- The definition of an argument that is more than the name of its type: that name, and the argument.
  unfoldable pub load_definition :
      Json D → Argument D → Store D → Result (Text × Argument D × Store D)
  unfolding count_member at_member get_text text_or bool_or set_required load_contents
  load_definition value a s =
      if count_member (codes "type") value
      then (do
        kind ← at_member (codes "type") value
        type ← get_text kind
        help ← text_or (codes "help") [] value
        required ← bool_or (codes "required") true value
        (b, s') ← load_contents value (set_required required a) s
        ok (type, b, s'))
      else err argument_error

  unfoldable pub load_description :
      Json D → Argument D → Store D → Result (Text × Argument D × Store D)
  unfolding load_definition
  load_description (json_string type) a s = ok (type, a, s)
  load_description value a s = load_definition value a s

  -- The argument gets its type and its number, and the type the argument.
  unfoldable pub put_argument : ℕ → Text → ℕ → Argument D → Store D → Store D
  unfolding set_type change_type add_argument
  put_argument t name type a s =
      let k = s.argument_count in
      change_type t (add_argument name k) (record s {
        arguments = update s.arguments k (set_type (some type) a);
        argument_count = suc k;
      })

  -- The body of the loop over the arguments of a type.
  unfoldable pub load_argument : ℕ → Text → Json D → Store D → Result (Store D)
  unfolding new_argument load_description get_type type_or_placeholder put_argument
  load_argument t name value s = do
    (type_name, a, s1) ← load_description value (new_argument name) s
    found ← get_type fuel array_of type_name s1.names
    let (type, s2) = type_or_placeholder found type_name s1
    ok (put_argument t name type a s2)

  unfoldable pub load_arguments : ℕ → Members D → Store D → Result (Store D)
  unfolding load_argument
  load_arguments t no_member s = ok s
  load_arguments t (member name value rest) s =
      load_argument t name value s >>= load_arguments t rest

  -- The values of the properties, which are left out.
  unfoldable pub load_properties : Members D → Store D → Result (Store D)
  load_properties no_member s = ok s
  load_properties (member name value rest) s = do (v, s') ← create value s; load_properties rest s'

  unfoldable pub load_description_text : Json D → Result Text
  unfolding text_or
  load_description_text e = text_or (codes "description") [] e

  -- The body of the loop over the types.
  unfoldable pub load_type : Text → Json D → Store D → Result (Store D)
  unfolding claim_type load_description_text load_parent members_or load_properties load_arguments
      insert
  load_type name (object members) s = do
    (t, s1) ← claim_type name s
    description ← load_description_text (object members)
    s2 ← load_parent t (object members) s1
    properties ← members_or (codes "properties") (object members)
    s3 ← load_properties properties s2
    arguments ← members_or (codes "arguments") (object members)
    s4 ← load_arguments t arguments s3
    ok (record s4 { names = insert (s4.types t).name t s4.names })
  load_type name _ s = err failed_assert

  unfoldable pub load_types : Members D → Store D → Result (Store D)
  unfolding load_type
  load_types no_member s = ok s
  load_types (member name e rest) s = load_type name e s >>= load_types rest

  -- The task with its command line, and `addTask`.
  unfoldable pub load_command_of : Text → Option ℕ → Json D → Store D → Result (Store D)
  unfolding count_member at_member load empty_line new_task insert
  load_command_of name type e s =
      if count_member (codes "command") e
      then (do
        c ← at_member (codes "command") e
        command ← load c empty_line
        task ← new_task type command
        ok (record s { tasks = insert name task s.tasks }))
      else err argument_error

  -- The body of the loop over the tasks.
  unfoldable pub load_task : Text → Json D → Store D → Result (Store D)
  unfolding count_member at_member get_text get_type load_command_of
  load_task name e s =
      if count_member (codes "type") e
      then (do
        kind ← at_member (codes "type") e
        type_name ← get_text kind
        type ← get_type fuel array_of type_name s.names
        load_command_of name type e s)
      else err argument_error

  unfoldable pub load_tasks : Members D → Store D → Result (Store D)
  unfolding load_task
  load_tasks no_member s = ok s
  load_tasks (member name e rest) s = load_task name e s >>= load_tasks rest

  -- `assert(j.is_object())`
  unfoldable pub asserted : Json D → Result (Members D)
  asserted (object members) = ok members
  asserted _ = err failed_assert

  -- `Register::load`
  unfoldable pub load_register : Json D → Store D → Result (Store D)
  unfolding at_member asserted load_types load_tasks
  load_register j s = do
    types ← at_member (codes "types") j
    entries ← asserted types
    s' ← load_types entries s
    tasks ← at_member (codes "tasks") j
    task_entries ← asserted tasks
    load_tasks task_entries s'
