-- ===== src/Scheduler/Checks.antt =====
-- `Dependency::check` and what it sets off: `Job::dependencyChanged`, `Job::jobCompleted`,
-- `Workspace::jobFinished` and `Job::start`. The chain is recursive over the dependents of failed jobs;
-- `fuel` bounds its depth.
use experimaestro.Prelude.{
  ℕ, zero, suc, ◌+◌, ◌-◌, ◌%◌, Option, List, [], ◌∷◌, ◌++◌, get_elem?, ltb, leb, ◌==◌,
  if◌then◌else◌,
}
use experimaestro.Errors.{Result, err, deadlock, out_of_fuel, ◌>>=◌}
use experimaestro.Scheduler.{
  DependencyStatus, wait, fail, JobState, error, done, ExitMode, Origin, job, token, Dependency,
  Dependent, Token, Workspace, set_job, set_dependency, set_state, same_status, u32_mod, u64_mod,
}

-- `JobDependency::status`
unfoldable pub job_status : JobState → DependencyStatus
job_status error = fail
job_status done = DependencyStatus.ok
job_status _ = wait

-- `CounterDependency::status`, in 32-bit arithmetic.
unfoldable pub token_status : Token → ℕ → DependencyStatus
token_status t value =
    if leb ((t.used_tokens + value) % u32_mod) t.limit then DependencyStatus.ok else wait

unfoldable pub status : Workspace → Origin → DependencyStatus
unfolding job_status token_status
status s (job j) = job_status (s.jobs j).state
status s (token t value) = token_status (s.tokens t) value

-- The function `value` of `Job::dependencyChanged`.
unfoldable pub value : DependencyStatus → ℕ
value DependencyStatus.ok = 1
value _ = 0

-- `_unsatisfied -= value(to) - value(from)`, modulo 2^64.
unfoldable pub count_change : ℕ → DependencyStatus → DependencyStatus → Workspace → Workspace
unfolding value
count_change j from to s =
    set_job j
      (record (s.jobs j) {
        unsatisfied = ((s.jobs j).unsatisfied + u64_mod + value from - value to) % u64_mod;
      })
      s

-- `Job::start`, up to the thread that it spawns. In exit mode it locks WORKSPACE_MUTEX itself.
unfoldable pub start : ℕ → Workspace → Result Workspace
start j s = elim s.exit_mode [
  | ExitMode.none ↦ Result.ok (record s { spawned = s.spawned ++ j ∷ [] })
  | _ ↦ if s.mutex then err deadlock else Result.ok (set_state j error s)
]

unfoldable pub erase : ℕ → List ℕ → List ℕ
erase j [] = []
erase j (k ∷ ks) = if k == j then erase j ks else k ∷ erase j ks

-- `Workspace::jobFinished`
unfoldable pub job_finished : ℕ → Workspace → Workspace
unfolding erase
job_finished j s = record s { waiting_jobs = erase j s.waiting_jobs }

abbrev pub Check : Type 0
Check = ℕ → ℕ → Workspace → Result Workspace

-- `for (auto &entry : _dependents) entry.second.lock()->check();`
unfoldable pub check_all : Check → List Dependent → Workspace → Result Workspace
check_all check [] s = Result.ok s
check_all check ((j, i) ∷ rest) s = check j i s >>= check_all check rest

-- `Job::jobCompleted`
unfoldable pub job_completed : Check → ℕ → Workspace → Result Workspace
unfolding check_all job_finished
job_completed check j s = check_all check (s.jobs j).dependents (job_finished j s)

-- `Job::dependencyChanged`
unfoldable pub dependency_changed :
    Check → ℕ → DependencyStatus → DependencyStatus → Workspace → Result Workspace
unfolding job_completed count_change start
dependency_changed check j from fail s = job_completed check j (count_change j from fail s)
dependency_changed check j from to s =
    let s' = count_change j from to s in
    if (s'.jobs j).unsatisfied == 0 then start j s' else Result.ok s'

-- `Dependency::check`, of a dependency that was found.
unfoldable pub check_dependency : Check → ℕ → ℕ → Dependency → Workspace → Result Workspace
unfolding status same_status dependency_changed
check_dependency check j i d s =
    let new = status s d.origin in
    if ltb 0 d.owners
    then Result.ok s
    else if same_status new d.old_status
    then Result.ok s
    else (do
      s' ← dependency_changed check j d.old_status new s
      Result.ok (set_dependency j i (record d { old_status = new }) s'))

unfoldable pub check : ℕ → Check
unfolding check_dependency
check zero j i s = err out_of_fuel
check (suc fuel) j i s = elim (get_elem? (s.jobs j).dependencies i) [
  | Option.none ↦ Result.ok s
  | Option.some d ↦ check_dependency (check fuel) j i d s
]
