-- ===== src/Command/Loading.antt =====
-- A command line against its JSON.
use experimaestro.Prelude.{
  ◌≡◌, ◌≢◌, refl, false, List, [], ◌∷◌, ◌++◌, append_assoc, append-nil, map, text_eq, All,
}
use experimaestro.Errors.{ok}
use experimaestro.Path.{local, to_string}
use experimaestro.Launcher.Redirections.{inherit, of_type}
use experimaestro.Command.{
  Component, text, content, parameters, path, path_reference, Command, CommandLine,
  component_to_json, load_component, load_typed, elements_of_command, command_to_json,
  load_components, load_command, elements_of_commands, commands_to_json, to_json, load_commands,
  load, is_array, empty_command, empty_line, add_component, add_command,
}

-- No path of the command is on a share.
abbrev pub IsLocal : Component → Type 0
IsLocal (path p) = p.share ≡ []
IsLocal _ = Unit {0}

abbrev pub IsLocalCommand : Command → Type 0
IsLocalCommand c = All IsLocal c.components

-- The same components with every redirection inherited.
abbrev pub inherits : Command → Command
unfolding of_type
inherits c = record c { input = of_type inherit; output = of_type inherit; error = of_type inherit }

-- The same components of every command, with every redirection, the line's own too, inherited.
abbrev pub inherits_all : CommandLine → CommandLine
unfolding of_type
inherits_all line = record {
  commands = map inherits line.commands;
  input = of_type inherit;
  output = of_type inherit;
  error = of_type inherit;
}

module _ (D : Type 0) where
  load_component-component_to_json :
      (c : Component) → IsLocal c → load_component (component_to_json {D = D} c) ≡ ok c
  unfolding load_component component_to_json load_typed to_string text_eq local
  load_component-component_to_json (text value) h = refl
  load_component-component_to_json (content key value) h = refl
  load_component-component_to_json parameters h = refl
  load_component-component_to_json (path p) h = rw h
  load_component-component_to_json (path_reference key) h = refl

  load_components-elements_of_command :
      (xs : List Component) (before : Command)
      → All IsLocal xs
      → load_components (elements_of_command {D = D} xs) before
        ≡ ok (record before { components = before.components ++ xs })
  unfolding load_components elements_of_command add_component
  load_components-elements_of_command [] before h = rw append-nil
  load_components-elements_of_command (x ∷ xs) before h =
      rw (load_component-component_to_json x h.0)
        (rw (load_components-elements_of_command xs (add_component x before) h.1, append_assoc))

  load_command-command_to_json :
      (c : Command)
      → IsLocalCommand c
      → load_command (command_to_json {D = D} c) empty_command ≡ ok (inherits c)
  unfolding load_command command_to_json empty_command
  load_command-command_to_json c h =
      load_components-elements_of_command c.components empty_command h

  load_commands-elements_of_commands :
      (cs : List Command) (before : CommandLine)
      → All IsLocalCommand cs
      → load_commands (elements_of_commands {D = D} cs) before
        ≡ ok (record before { commands = before.commands ++ map inherits cs })
  unfolding load_commands elements_of_commands add_command
  load_commands-elements_of_commands [] before h = rw append-nil
  load_commands-elements_of_commands (c ∷ cs) before h = rw (load_command-command_to_json c h.0) (
      rw
        (load_commands-elements_of_commands cs (add_command (inherits c) before) h.1, append_assoc))

  no_array : (x : Component) → is_array (component_to_json {D = D} x) ≡ false
  unfolding is_array component_to_json
  no_array (text value) = refl
  no_array (content key value) = refl
  no_array parameters = refl
  no_array (path p) = refl
  no_array (path_reference key) = refl

  -- The clauses of `load`, by the commands that were written.
  load-commands_to_json :
      (cs : List Command)
      → All IsLocalCommand cs
      → ((c : Command) → cs ≡ c ∷ [] → c.components ≢ [])
      → load (commands_to_json {D = D} cs) empty_line
        ≡ ok (record empty_line { commands = map inherits cs })
  unfolding load commands_to_json command_to_json elements_of_command elements_of_commands
      empty_line add_command
  load-commands_to_json [] h n = refl
  load-commands_to_json (c ∷ []) h n = one c.components refl
    where
      one :
          (xs : List Component)
          → c.components ≡ xs
          → load (commands_to_json {D = D} (c ∷ [])) empty_line
            ≡ ok (record empty_line { commands = inherits c ∷ [] })
      one [] e = absurd (n c refl e)
      one (x ∷ xs) e =
          let loaded = load_command-command_to_json c h.0 in
          rw e (rw (no_array x) (rw (rw e at loaded)))
  load-commands_to_json (c ∷ d ∷ cs) h n =
      load_commands-elements_of_commands (c ∷ d ∷ cs) empty_line h

-- What is loaded from the JSON of a command line whose paths are on no share, whether it has one
-- command or several, unless it is one command without components, has the commands of the line with
-- their components in order; the redirections of the line and of its commands are lost: all inherit.
pub load-to_json :
    (D : Type 0) (line : CommandLine)
    → All IsLocalCommand line.commands
    → ((c : Command) → line.commands ≡ c ∷ [] → c.components ≢ [])
    → load (to_json {D = D} line) empty_line ≡ ok (inherits_all line)
unfolding to_json empty_line
load-to_json D line = load-commands_to_json D line.commands
