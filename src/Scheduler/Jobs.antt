-- ===== src/Scheduler/Jobs.antt =====
-- The jobs before they run: `Job::Job`, `addDependency`, `Resource::addDependent` and
-- `removeDependent`, `Workspace::submit`, `kill` and `getJob`.
use experimaestro.Prelude.{
  ℕ, suc, ◌+◌, ◌%◌, Bool, true, false, ◌&&◌, Option, none, some, List, [], ◌∷◌, ◌++◌, Text, insert,
  lookup, ◌==◌, if◌then◌else◌,
}
use experimaestro.Errors.{Result, err, argument_error, ◌>>=◌}
use experimaestro.Scheduler.{
  wait, JobState, Origin, job, token, Dependency, Dependent, Workspace, set_job, set_token, u64_mod,
}
use experimaestro.Scheduler.Checks.{Check, start}

-- `Job::Job`. The constructor does not set `_state`: the new job has whatever is there.
unfoldable pub create : ℕ → Text → JobState → Workspace → Workspace
create j job_id state = set_job j (record {
  job_id = job_id;
  state = state;
  unsatisfied = 0;
  dependencies = [];
  dependents = [];
  submission_time = 0;
})

-- `Job::addDependency`, of a dependency made by `createDependency` of the origin.
unfoldable pub add_dependency : ℕ → Origin → Workspace → Workspace
add_dependency j origin s =
    set_job j
      (record (s.jobs j) {
        dependencies =
            (s.jobs j).dependencies
            ++ record { origin = origin; owners = 0; old_status = wait } ∷ [];
        unsatisfied = ((s.jobs j).unsatisfied + 1) % u64_mod;
      })
      s

unfoldable pub same_dependent : Dependent → Dependent → Bool
same_dependent (j, i) (k, l) = j == k && i == l

-- `_dependents[dependency.get()] = dependency`. The map orders its entries by the address of the
-- dependency, which no code fixes; the model keeps the order of insertion, one of the orders that can be.
unfoldable pub put_dependent : Dependent → List Dependent → List Dependent
unfolding same_dependent
put_dependent e [] = e ∷ []
put_dependent e (d ∷ ds) = if same_dependent d e then e ∷ ds else d ∷ put_dependent e ds

-- `Resource::addDependent`
unfoldable pub add_dependent : Origin → Dependent → Workspace → Workspace
unfolding put_dependent
add_dependent (job o) e s =
    set_job o (record (s.jobs o) { dependents = put_dependent e (s.jobs o).dependents }) s
add_dependent (token t _) e s =
    set_token t (record (s.tokens t) { dependents = put_dependent e (s.tokens t).dependents }) s

-- The loop of `submit` that registers each dependency with its origin and checks it.
unfoldable pub register_all : Check → ℕ → List Dependency → ℕ → Workspace → Result Workspace
unfolding add_dependent
register_all check j [] i s = Result.ok s
register_all check j (d ∷ ds) i s =
    check j i (add_dependent d.origin (j, i) s) >>= register_all check j ds (suc i)

-- `std::unordered_set::insert`
unfoldable pub put : ℕ → List ℕ → List ℕ
put j [] = j ∷ []
put j (k ∷ ks) = if k == j then k ∷ ks else k ∷ put j ks

-- The last test of `submit`, behind the locked block: `_dependencies.empty() && ready()`.
unfoldable pub is_free : Workspace → ℕ → Bool
is_free s j = elim (s.jobs j).dependencies [ [] ↦ true | _ ↦ false ] && (s.jobs j).unsatisfied == 0

-- The entries that `submit` makes, with the mutex held.
unfoldable pub enter : ℕ → ℕ → Workspace → Workspace
unfolding put
enter j now s = record (set_job j (record (s.jobs j) { submission_time = now }) s) {
  waiting_jobs = put j s.waiting_jobs;
  registered = insert (s.jobs j).job_id j s.registered;
  mutex = true;
}

-- `Workspace::submit`, at a time. In exit mode the code only warns, and goes on.
unfoldable pub submit : Check → ℕ → ℕ → Workspace → Result Workspace
unfolding register_all enter is_free start
submit check j now s = elim (lookup (s.jobs j).job_id s.registered) [
  | some _ ↦ Result.ok s
  | none ↦ (do
    s' ← register_all check j (s.jobs j).dependencies 0 (enter j now s)
    let s'' = record s' { mutex = false }
    if is_free s'' j then start j s'' else Result.ok s'')
]

-- `Workspace::getJob`
unfoldable pub get_job : Text → Workspace → Option ℕ
get_job job_id s = lookup job_id s.registered

-- `Workspace::kill`, up to the virtual call: the job whose process is to be killed.
unfoldable pub kill : Text → Workspace → Result ℕ
unfolding get_job
kill job_id s = elim (lookup job_id s.registered) [
  | none ↦ err argument_error
  | some j ↦ Result.ok j
]
