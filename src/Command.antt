-- ===== src/Command.antt =====
-- The command lines of src/commandline.cpp and include/public/xpm/commandline.hpp as data, with the
-- JSON that they are written to and loaded from.
pub mod Loading
pub mod Context
pub mod Transform
pub mod Output
use experimaestro.Prelude.{
  ℕ, Bool, true, false, not, ◌&&◌, ◌||◌, Option, none, some, List, [], ◌∷◌, ◌++◌, Text, codes,
  text_eq, if◌then◌else◌,
}
use experimaestro.Errors.{
  Result, ok, err, invalid_argument, json_error, undefined_behaviour, failed_assert, ◌>>=◌,
}
use experimaestro.Path.{FilePath, local, to_string}
use experimaestro.Launcher.Redirections.{Redirect, inherit, of_type}
use experimaestro.Scalar.Json.{
  Json, null, json_string, object, array, Members, no_member, member, Elements, no_element, element,
}

-- The parts of a command: the subclasses of `AbstractCommandComponent` but `Command` itself.
pub data Component : Type 0 where
  text : (value : Text) → Component
  content : (key content : Text) → Component
  parameters : Component
  path : (p : FilePath) → Component
  path_reference : (key : Text) → Component

-- A command, with the redirections of `AbstractCommand`.
pub record Command : Type 0 where
  pub components : List Component
  pub input : Redirect
  pub output : Redirect
  pub error : Redirect

-- A command line: an `AbstractCommand` too.
pub record CommandLine : Type 0 where
  pub commands : List Command
  pub input : Redirect
  pub output : Redirect
  pub error : Redirect

-- A command and a command line as their constructors make them: `Redirect()` inherits.
unfoldable pub empty_command : Command
unfolding of_type
empty_command = record {
  components = [];
  input = of_type inherit;
  output = of_type inherit;
  error = of_type inherit;
}

unfoldable pub empty_line : CommandLine
unfolding of_type
empty_line = record {
  commands = [];
  input = of_type inherit;
  output = of_type inherit;
  error = of_type inherit;
}

-- `Command::add`
unfoldable pub add_component : Component → Command → Command
add_component x c = record c { components = c.components ++ x ∷ [] }

-- `CommandLine::add`
unfoldable pub add_command : Command → CommandLine → CommandLine
add_command c line = record line { commands = line.commands ++ c ∷ [] }

module _ {D : Type 0} where
  -- `find` in the members of an object.
  unfoldable pub get_member : Text → Members D → Option (Json D)
  get_member key no_member = none
  get_member key (member k value rest) =
      let found = get_member key rest in if text_eq k key then some value else found

  unfoldable pub count_member : Text → Json D → Bool
  unfolding get_member
  count_member key (object members) = elim (get_member key members) [ none ↦ false | some _ ↦ true ]
  count_member key _ = false

  -- `get<std::string>()`
  unfoldable pub get_text : Json D → Result Text
  get_text (json_string value) = ok value
  get_text _ = err json_error

  -- `e[key]` of a constant value, read as a text.
  unfoldable pub at_text : Text → Json D → Result Text
  unfolding get_member get_text
  at_text key (object members) = elim (get_member key members) [
    | none ↦ err undefined_behaviour
    | some value ↦ get_text value
  ]
  at_text key _ = err json_error

  -- `e.value("type", "")`
  unfoldable pub type_value : Json D → Result Text
  unfolding get_member get_text
  type_value (object members) = elim (get_member (codes "type") members) [
    | none ↦ ok []
    | some value ↦ get_text value
  ]
  type_value _ = err json_error

  -- `CommandContent::toJson`
  unfoldable pub content_to_json : Text → Text → Json D
  content_to_json key value = object (
      member (codes "content") (json_string value) (
        member (codes "key") (json_string key)
          (member (codes "type") (json_string (codes "content")) no_member)))

  -- `CommandParameters::toJson`
  unfoldable pub parameters_to_json : Json D
  parameters_to_json = object (member (codes "type") (json_string (codes "parameters")) no_member)

  -- `CommandPath::toJson`
  unfoldable pub path_to_json : FilePath → Json D
  unfolding to_string
  path_to_json p = object (member (codes "path") (json_string (to_string p)) no_member)

  -- `CommandPathReference::toJson`
  unfoldable pub path_reference_to_json : Text → Json D
  path_reference_to_json key = object (member (codes "pathref") (json_string key) no_member)

  -- The virtual `toJson` of a component; that of `CommandString` is its text.
  unfoldable pub component_to_json : Component → Json D
  unfolding content_to_json parameters_to_json path_to_json path_reference_to_json
  component_to_json (text value) = json_string value
  component_to_json (content key value) = content_to_json key value
  component_to_json parameters = parameters_to_json
  component_to_json (path p) = path_to_json p
  component_to_json (path_reference key) = path_reference_to_json key

  -- The body of the loop of `Command::load` on an element with a type.
  unfoldable pub load_typed : Text → Json D → Result Component
  unfolding at_text local count_member
  load_typed type e =
      if text_eq type (codes "content")
      then (do
        key ← at_text (codes "key") e
        value ← at_text (codes "content") e
        ok (content key value))
      else if text_eq type (codes "parameters")
      then ok parameters
      else if text_eq type (codes "path") || (text_eq type [] && count_member (codes "path") e)
      then (at_text (codes "path") e >>= λ p. ok (path (local p)))
      else if text_eq type (codes "pathref")
          || (text_eq type [] && count_member (codes "pathref") e)
      then (at_text (codes "pathref") e >>= λ key. ok (path_reference key))
      else err invalid_argument

  unfoldable pub load_component : Json D → Result Component
  unfolding load_typed type_value
  load_component (json_string value) = ok (text value)
  load_component e = type_value e >>= λ type. load_typed type e

  unfoldable pub elements_of_command : List Component → Elements D
  unfolding component_to_json
  elements_of_command [] = no_element
  elements_of_command (c ∷ cs) = element (component_to_json c) (elements_of_command cs)

  -- `Command::toJson`
  unfoldable pub command_to_json : Command → Json D
  unfolding elements_of_command
  command_to_json c = array (elements_of_command c.components)

  unfoldable pub load_components : Elements D → Command → Result Command
  unfolding load_component add_component
  load_components no_element c = ok c
  load_components (element e es) c =
      load_component e >>= λ x. load_components es (add_component x c)

  -- `Command::load`, which adds to the components that are there.
  unfoldable pub load_command : Json D → Command → Result Command
  unfolding load_components
  load_command (array elements) c = load_components elements c
  load_command _ c = err failed_assert

  unfoldable pub elements_of_commands : List Command → Elements D
  unfolding command_to_json
  elements_of_commands [] = no_element
  elements_of_commands (c ∷ cs) = element (command_to_json c) (elements_of_commands cs)

  unfoldable pub commands_to_json : List Command → Json D
  unfolding command_to_json elements_of_commands
  commands_to_json (c ∷ []) = command_to_json c
  commands_to_json cs = array (elements_of_commands cs)

  -- `CommandLine::toJson`
  unfoldable pub to_json : CommandLine → Json D
  unfolding commands_to_json
  to_json line = commands_to_json line.commands

  unfoldable pub load_commands : Elements D → CommandLine → Result CommandLine
  unfolding load_command add_command empty_command
  load_commands no_element line = ok line
  load_commands (element e es) line =
      load_command e empty_command >>= λ c. load_commands es (add_command c line)

  unfoldable pub is_array : Json D → Bool
  is_array (array _) = true
  is_array _ = false

  -- `CommandLine::load`, which adds to the commands that are there.
  unfoldable pub load : Json D → CommandLine → Result CommandLine
  unfolding load_commands load_command is_array add_command empty_command
  load (array no_element) line = ok line
  load (array (element e es)) line =
      if is_array e
      then load_commands (element e es) line
      else (load_command (array (element e es)) empty_command >>= λ c. ok (add_command c line))
  load _ line = err failed_assert
