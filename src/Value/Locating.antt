-- ===== src/Value/Locating.antt =====
-- `PathGenerator::generate` and `Typename::localName` of src/xpm.cpp: where the outputs of a value go.
pub mod Places
use experimaestro.Prelude.{ℕ, suc, Option, none, some, [], ◌∷◌, Text, drop}
use experimaestro.Errors.{Result, ok, err, undefined_behaviour}
use experimaestro.Path.{FilePath, resolve, dot}
use experimaestro.Path.Search.{rfind}
use experimaestro.Value.{Value, scalar, array, map}
use experimaestro.Value.Arguments.{Schema}
use experimaestro.Value.Digest.{Hash, unique_identifier}

-- `localName`
unfoldable pub local_name : Text → Text
unfolding rfind
local_name name = elim (rfind dot name) [ none ↦ name | some i ↦ drop (suc i) name ]

-- The directory of a task in that of the jobs.
unfoldable pub task_folder : FilePath → Option Text → FilePath
unfolding resolve
task_folder jobsdir none = jobsdir
task_folder jobsdir (some task) = resolve jobsdir (task ∷ [])

-- The last steps of `generate`, with the name of the generator.
unfoldable pub named_place : Text → Text → FilePath → FilePath
unfolding resolve
named_place [] uuid folder = resolve folder (uuid ∷ [])
named_place (c ∷ name) uuid folder = resolve (resolve folder (uuid ∷ [])) ((c ∷ name) ∷ [])

-- `PathGenerator::generate`, for the value at the bottom of the stack. A value that is no map has no
-- task: `asMap` gives a null pointer.
unfoldable pub generate_path :
    {D : Type 0} → Schema D → Hash D → FilePath → Text → Value D → Result FilePath
unfolding task_folder named_place unique_identifier
generate_path schema h jobsdir name (map flags x i entries) = ok (
    named_place name (unique_identifier schema h (map flags x i entries))
      (task_folder jobsdir i.task))
generate_path schema h jobsdir name _ = err undefined_behaviour
