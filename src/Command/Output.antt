-- ===== src/Command/Output.antt =====
-- The output of a command line of src/commandline.cpp: what its components write, the files that they
-- leave, and the redirections. The text of the parameters (`outputJson`) is a parameter, and so is the
-- formatting of a count.
pub mod Files
pub mod Inputs
use experimaestro.Prelude.{
  ℕ, suc, ◌+◌, Bool, true, false, Option, none, some, List, [], ◌∷◌, ◌++◌, Text, codes,
  if◌then◌else◌,
}
use experimaestro.Errors.{Result, ok, err, exception, invalid_argument, ◌>>=◌}
use experimaestro.Path.{FilePath, local, to_string}
use experimaestro.Path.Relative.{relative_to}
use experimaestro.Connector.{Mapping, resolve}
use experimaestro.Script.{protect_quoted, double_quote}
use experimaestro.Launcher.Redirections.{Redirect, inherit, file, to_file}
use experimaestro.Variables.{Variables, get, has}
use experimaestro.Command.{Component, text, content, parameters, path, path_reference, Command}
use experimaestro.Command.Context.{CommandContext, auxiliary_file}
use experimaestro.Command.Transform.{transform}

-- What a context refers to: the variables of its workspace, with the fuel of their search, the mounts
-- of its connector, and the text of its parameters.
pub record Setting : Type 0 where
  pub fuel : ℕ
  pub variables : Variables
  pub mounts : List (Text × List Mapping)
  pub digits : ℕ → Text
  pub parameters_text : Text

-- The output so far, the files written with their contents, and the context.
pub record Output : Type 0 where
  pub out : Text
  pub files : List (FilePath × Text)
  pub context : CommandContext

-- `NamedPipeRedirections`
pub record NamedPipes : Type 0 where
  pub outputs : List FilePath
  pub errors : List FilePath

-- A command of a line, and what `getNamedRedirections` finds for it.
pub record Part : Type 0 where
  pub command : Command
  pub named : NamedPipes

-- `Connector::resolve(path, base)`
unfoldable pub resolve_in : List (Text × List Mapping) → FilePath → FilePath → Result Text
unfolding resolve local relative_to to_string
resolve_in mounts target base = do
  p ← resolve mounts target
  b ← resolve mounts base
  r ← relative_to (local p) (local b)
  ok (to_string r)

-- `out << text`
unfoldable pub write : Text → Output → Output
write s o = record o { out = o.out ++ s }

module _ (s : Setting) where
  -- The `output` of a component that leaves a file: the file is written before its path is resolved.
  unfoldable pub output_file : Text → Text → Text → Output → Result Output
  unfolding auxiliary_file resolve write
  output_file prefix suffix contents o =
      let (p, c) = auxiliary_file s.digits prefix suffix o.context in
      resolve s.mounts p >>= λ t.
      ok (write t (record o { files = o.files ++ (p, contents) ∷ []; context = c }))

  -- `CommandPathReference::output`
  unfoldable pub output_reference : Text → Output → Result Output
  unfolding has get write
  output_reference key o = do
    known ← has s.fuel key s.variables
    if known
        then (get s.fuel key s.variables >>= λ value. ok (write value o))
        else err invalid_argument

  -- The virtual `output` of a component.
  unfoldable pub output_component : Component → Output → Result Output
  unfolding transform output_file output_reference resolve write
  output_component (text value) o = transform s.fuel s.variables value >>= λ t. ok (write t o)
  output_component (content key contents) o = output_file key (codes ".input") contents o
  output_component parameters o = output_file (codes "params") (codes ".json") s.parameters_text o
  output_component (path p) o = resolve s.mounts p >>= λ t. ok (write t o)
  output_component (path_reference key) o = output_reference key o

  -- `Command::output`: a space before each component but the first.
  unfoldable pub output_rest : List Component → Output → Result Output
  unfolding output_component write
  output_rest [] o = ok o
  output_rest (c ∷ cs) o = output_component c (write (codes " ") o) >>= output_rest cs

  unfoldable pub output_command : List Component → Output → Result Output
  unfolding output_component output_rest
  output_command [] o = ok o
  output_command (c ∷ cs) o = output_component c o >>= output_rest cs

  -- `writeRedirection`; a stream is 1 or 2.
  unfoldable pub write_redirection : FilePath → Redirect → ℕ → Result Text
  unfolding resolve_in protect_quoted local
  write_redirection folder r stream = elim r.type [
    | inherit ↦ ok []
    | file ↦ (do
      t ← resolve_in s.mounts (local r.path) folder
      ok (codes " " ++ ((b'0' + stream) ∷ codes "> " ++ protect_quoted t)))
    | _ ↦ err exception
  ]

  -- A path of the machine between double quotes.
  unfoldable pub quoted : FilePath → FilePath → Result Text
  unfolding resolve_in protect_quoted
  quoted folder p =
      resolve_in s.mounts p folder >>= λ t. ok (double_quote ∷ (protect_quoted t ++ codes "\""))

  -- The files behind `tee`.
  unfoldable pub tee_files : FilePath → List FilePath → Result Text
  unfolding quoted
  tee_files folder [] = ok []
  tee_files folder (f ∷ fs) = do
    t ← quoted folder f
    rest ← tee_files folder fs
    ok (codes " " ++ (t ++ rest))

  -- `printRedirections`
  unfoldable pub print_redirections : FilePath → ℕ → Redirect → List FilePath → Result Text
  unfolding write_redirection tee_files to_file to_string
  print_redirections folder stream r [] = write_redirection folder r stream
  print_redirections folder stream r (f ∷ fs) =
      let through_tee : Result Text = (do
        t ← tee_files folder (f ∷ fs)
        last ← write_redirection folder r stream
        ok (codes " : " ++ (((b'0' + stream) ∷ codes "> >(tee") ++ (t ++ (last ++ codes ")"))))) in
      elim fs [
        | [] ↦ elim r.type [
          | inherit ↦ write_redirection folder (to_file (to_string f)) stream
          | _ ↦ through_tee
        ]
        | _ ↦ through_tee
      ]

  -- One `mkfifo` for each named pipe.
  unfoldable pub make_pipes : FilePath → List FilePath → Result Text
  unfolding quoted
  make_pipes folder [] = ok []
  make_pipes folder (f ∷ fs) = do
    t ← quoted folder f
    rest ← make_pipes folder fs
    ok (codes " mkfifo " ++ (t ++ (codes "\n" ++ rest)))

  -- The input of a command: the test is on the command's, the path that of the whole line.
  unfoldable pub output_input : Redirect → Part → FilePath → Result Text
  unfolding quoted local
  output_input own part folder = elim part.command.input.type [
    | file ↦ (do t ← quoted folder (local own.path); ok (codes " cat " ++ (t ++ codes " | ")))
    | _ ↦ ok []
  ]

  -- The body of the loop of `AbstractCommand::output`.
  unfoldable pub output_part : Redirect → Part → Output → Result Output
  unfolding make_pipes output_input output_command print_redirections write
  output_part own part o = do
    pipes ← make_pipes o.context.folder part.named.outputs
    error_pipes ← make_pipes o.context.folder part.named.errors
    input ← output_input own part o.context.folder
    o' ← output_command part.command.components (write (pipes ++ (error_pipes ++ input)) o)
    outputs ← print_redirections o'.context.folder 1 part.command.output part.named.outputs
    errors ← print_redirections o'.context.folder 2 part.command.error part.named.errors
    ok (write (outputs ++ (errors ++ codes " || checkerror \"${PIPESTATUS[@]}\"  || exit $?\n")) o')

  unfoldable pub output_parts : Redirect → List Part → Output → Result Output
  unfolding output_part
  output_parts own [] o = ok o
  output_parts own (p ∷ ps) o = output_part own p o >>= output_parts own ps

  -- `AbstractCommand::output` of a command line, which is put in parentheses when it has several
  -- commands; no command is ever detached.
  unfoldable pub output_line : Redirect → List Part → Output → Result Output
  unfolding output_parts write
  output_line own (p ∷ q ∷ ps) o = do
    o' ← output_parts own (p ∷ q ∷ ps) (write (codes "(\n") o)
    ok (write (codes ")\n") o')
  output_line own parts o = output_parts own parts o
