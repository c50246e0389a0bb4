-- ===== src/Task.antt =====
-- `Task::submit` of src/task.cpp: from a value to a job of the workspace.
pub mod Submission
use experimaestro.Prelude.{ℕ, Option, none, some, List, [], ◌∷◌, Text}
use experimaestro.Errors.{Result, ok, err, argument_error, ◌>>=◌}
use experimaestro.Path.{FilePath}
use experimaestro.Scalar.{Numbers, of_path}
use experimaestro.Scalar.Conversions.{as_path}
use experimaestro.Scheduler.{JobState, Origin, Workspace}
use experimaestro.Scheduler.Checks.{Check}
use experimaestro.Scheduler.Jobs
use experimaestro.Scheduler.Jobs.{create, add_dependency}
use experimaestro.Value.{Value, scalar, array, map}
use experimaestro.Value.Arguments.{Schema}
use experimaestro.Value.Configuration.{configure}
use experimaestro.Value.Dependencies.{add_dependencies}
use experimaestro.Value.Digest.{Hash, unique_identifier}
use experimaestro.Value.Locating.{local_name, generate_path}

-- `sv->task(…)` and `sv->job(…)`
unfoldable pub set_task : {D : Type 0} → Text → Value D → Result (Value D)
set_task identifier (map flags x i entries) =
    ok (map flags x (record i { task = some identifier }) entries)
set_task identifier _ = err argument_error

unfoldable pub set_job_of : {D : Type 0} → ℕ → Value D → Value D
set_job_of j (map flags x i entries) = map flags x (record i { job = some j }) entries
set_job_of j v = v

-- The loop over the manual dependencies.
unfoldable pub add_manual : ℕ → List Origin → Workspace → Workspace
unfolding add_dependency
add_manual j [] s = s
add_manual j (o ∷ origins) s = add_manual j origins (add_dependency j o s)

-- The job `j`, made for an identifier, and its dependencies.
unfoldable pub make_job :
    {D : Type 0} → Schema D → ℕ → JobState → Text → Value D → List Origin → Workspace → Workspace
unfolding create add_dependencies add_manual
make_job schema j state job_id v origins s =
    add_manual j origins (add_dependencies schema j v (create j job_id state s))

-- What `submit` is called with, but the value.
pub record Context (m : Numbers) : Type 0 where
  pub schema : Schema m.Double
  pub hash : Hash m.Double
  pub produce : Text → Result (Value m.Double)
  pub levels : ℕ
  pub fuel : ℕ
  pub jobsdir : FilePath
  pub dependency_check : Check

-- `submit`, of the task with an identifier: the new job is `j`, with the state that its memory has. It
-- gives the path of the job, which goes through a scalar, the value and the workspace.
unfoldable pub submit :
    (m : Numbers)
    → Context m
    → Text
    → ℕ
    → JobState
    → ℕ
    → Value m.Double
    → List Origin
    → Workspace
    → Result (FilePath × (Value m.Double × Workspace))
unfolding set_task set_job_of make_job configure unique_identifier local_name generate_path of_path
    as_path
submit m c identifier j state now v origins s = do
  v₁ ← set_task identifier v
  let job_id = unique_identifier c.schema c.hash v₁
  place ← generate_path c.schema c.hash c.jobsdir (local_name identifier) v₁
  v₂ ← configure m c.schema c.produce c.levels c.fuel v₁
  locator ← as_path m (of_path place)
  s' ← Jobs.submit c.dependency_check j now (make_job c.schema j state job_id v₂ origins s)
  ok (locator, (set_job_of j v₂, s'))
