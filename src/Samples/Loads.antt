-- ===== src/Samples/Loads.antt =====
-- A register that is loaded twice, and the output of a command line.
use mathlib.Core.Option.{none-ne-some}
use experimaestro.Prelude.{
  ℕ, suc, ◌≡◌, refl, false, Option, none, some, [], ◌∷◌, ◌++◌, codes, map, lookup, text_eq, arith,
}
use experimaestro.Errors.{Result, ok, err, runtime_error, ◌>>=◌}
use experimaestro.Scalar.Json.{
  array, element, no_element, number_integer, from_json, Json, json_string, object, no_member,
  member, Members,
}
use experimaestro.Variables.{Variables, get}
use experimaestro.Launcher.Redirections.{of_type, inherit}
use experimaestro.Command.{content, parameters, text}
use experimaestro.Command.Context.{AreDistinct}
use experimaestro.Command.Transform.{is_dot, braced, transform, transform-variable}
use experimaestro.Command.Output.{Setting, Output, Part, output_line}
use experimaestro.Path.Search.{rfind}
use experimaestro.Path.{FilePath, local}
use experimaestro.Script.Writing.{Line, Builder, JobFiles, write_script}
use experimaestro.Script.Writing.Files.{write_script-AreDistinct}
use experimaestro.Register.{is_array_name}
use experimaestro.Register.Store.{Store, at_member}
use experimaestro.Register.Loading.Objects.{IsConsistent, Extends}
use experimaestro.Register.Whole.{load_json, load_json-Extends, load_json_again}
use experimaestro.Samples.Values.{halves}
use experimaestro.Samples.Models.{schema}
use experimaestro.Samples.Tools.{strokes, strokes-IsFormat, script}

abbrev empty_store : Store ℕ
empty_store = record {
  names = [];
  types = schema.types;
  placeholder = λ _. false;
  count = 10;
  arguments = schema.arguments;
  argument_count = 1;
  tasks = [];
}

-- No type is one of arrays, and no job is named.
abbrev no_component : ℕ → Option ℕ
no_component _ = none

abbrev no_job : Json ℕ → Result ℕ
no_job _ = err runtime_error

-- The definition of an argument of the type "size", with a default value.
abbrev size_definition : Json ℕ
size_definition = object (
    member (codes "default") (number_integer 3)
      (member (codes "type") (json_string (codes "size")) no_member))

-- A type "model" below "base" with an argument of the type "size".
abbrev model_entry : Members ℕ
model_entry =
    member (codes "arguments") (object (member (codes "n") size_definition no_member))
      (member (codes "parent") (json_string (codes "base")) no_member)

-- A task of this type, with one command.
abbrev task_entry : Json ℕ
task_entry = object (
    member (codes "command") (array (element (json_string (codes "run")) no_element))
      (member (codes "type") (json_string (codes "model")) no_member))

abbrev register_json : Json ℕ
register_json = object (
    member (codes "tasks") (object (member (codes "learn") task_entry no_member)) (
      member (codes "types") (object (member (codes "model") (object model_entry) no_member))
        no_member))

abbrev store_or : Result (Store ℕ) → Store ℕ
store_or (ok s) = s
store_or (err _) = empty_store

abbrev loaded : Store ℕ
loaded = store_or (load_json halves 3 suc no_component no_job register_json empty_store)

empty_store-IsConsistent : IsConsistent empty_store
unfolding lookup
empty_store-IsConsistent = record {
  named = λ name t e. absurd (none-ne-some t e);
  taken = λ name t e. absurd (none-ne-some t e);
}

-- A second register, with a type below the first one's.
abbrev second_json : Json ℕ
second_json = object (
    member (codes "tasks") (object no_member) (
      member (codes "types")
        (object (
          member (codes "wide")
            (object (
              member (codes "arguments") (object (member (codes "n") size_definition no_member))
                (member (codes "parent") (json_string (codes "model")) no_member)))
            no_member))
        no_member))

abbrev twice : Store ℕ
twice = store_or (load_json halves 3 suc no_component no_job second_json loaded)

load_json-Extends_example : IsConsistent twice × Extends none loaded twice
unfolding load_json text_eq is_array_name from_json
load_json-Extends_example =
    load_json-Extends halves 3 suc no_component no_job second_json loaded twice
      (load_json-Extends halves 3 suc no_component no_job register_json empty_store loaded
        empty_store-IsConsistent refl).0
      refl

load_json_again_example :
    load_json halves 3 suc no_component no_job register_json loaded ≡ err runtime_error
unfolding load_json text_eq is_array_name at_member from_json
load_json_again_example =
    load_json_again halves 3 suc no_component no_job register_json (codes "model")
      (object model_entry) no_member empty_store loaded empty_store-IsConsistent refl refl refl

abbrev variables : Variables
variables = (codes "home", codes "/root") ∷ []

transform-variable_example :
    transform 4 variables (codes "cd " ++ braced (codes "home") (codes "/x")) ≡ (
      get 4 (codes "home") variables >>= λ value.
      transform 4 variables (codes "/x") >>= λ rest. ok (codes "cd " ++ (value ++ rest)))
unfolding is_dot
transform-variable_example =
    transform-variable 4 variables (codes "cd ") 104 (codes "ome") (codes "/x")
      (omega arith, (omega arith, (omega arith, tt)))
      (omega arith, (omega arith, (omega arith, (omega arith, tt))))
      (refl, (refl, (refl, (refl, tt))))

abbrev setting : Setting
setting = record {
  fuel = 4;
  variables = variables;
  mounts = [];
  digits = strokes;
  parameters_text = codes "{}";
}

-- A command with two contents of one key and the parameters.
abbrev part : Part
part = record {
  command = record {
    components =
        text (codes "run")
        ∷ content (codes "a") (codes "x")
        ∷ content (codes "a") (codes "y")
        ∷ parameters
        ∷ [];
    input = of_type inherit;
    output = of_type inherit;
    error = of_type inherit;
  };
  named = record { outputs = []; errors = [] };
}

abbrev line : Line
line = record { own = of_type inherit; parts = part ∷ [] }

abbrev builder : Builder
builder = record {
  sh_path = codes "/bin/bash";
  lock_files = local (codes "/tmp/run.lock") ∷ [];
  environment = (codes "HOME", codes "/root") ∷ [];
  notification_url = [];
  preprocess_commands = some line;
  command = line;
}

abbrev job_files : JobFiles
job_files = record {
  start_lock = local (codes "/tmp/run.start");
  pid = local (codes "/tmp/run.pid");
  exit_code = local (codes "/tmp/run.code");
  done = local (codes "/tmp/run.done");
  job_id = codes "1";
  tags_text = codes "{}";
}

abbrev output_or : Result (FilePath × Output) → FilePath × Output
output_or (ok p) = p
output_or (err _) = (local [], record { out = []; files = []; context = script })

abbrev written : FilePath × Output
written = output_or (write_script setting builder job_files (local (codes "/tmp/run")))

write_script-AreDistinct_example : AreDistinct (written.0 ∷ map (λ f. f.0) written.1.files)
unfolding write_script output_line transform of_type rfind text_eq
write_script-AreDistinct_example =
    write_script-AreDistinct setting strokes-IsFormat builder job_files (local (codes "/tmp/run"))
      written refl
