-- ===== src/Scheduler/Failure.antt =====
-- What a failed job does to the jobs that depend on it, and what exit mode does to a job whose
-- dependencies are met.
use experimaestro.Prelude.{
  ℕ, suc, ◌+◌, ◌-◌, ◌%◌, ◌≡◌, ◌≢◌, refl, ap, ◌∙◌, true, some, List, [], ◌∷◌, All, get_elem?, ◌==◌,
  arith,
}
use experimaestro.Errors.{Result, err, deadlock}
use experimaestro.Scheduler.{
  DependencyStatus, wait, fail, waiting, ExitMode, job, Dependency, Dependent, Workspace,
  set_dependency, same_status, update_elim, update_self, u64_mod,
}
use experimaestro.Scheduler.Checks.{
  status, job_status, value, count_change, start, job_finished, Check, check_all, job_completed,
  dependency_changed, check_dependency, check,
}

-- A dependent of `j` that saw it waiting, and holds no lock.
pub record IsWatching (s : Workspace) (j : ℕ) (e : Dependent) : Type 0 where
  pub watcher : Dependency
  pub found : get_elem? (s.jobs e.0).dependencies e.1 ≡ some watcher
  pub unlocked : watcher.owners ≡ 0
  pub watches : watcher.origin ≡ job j
  pub seen : watcher.old_status ≡ wait

check_watching :
    (fuel j : ℕ) (e : Dependent) (s : Workspace)
    → IsWatching s j e
    → (s.jobs j).state ≡ waiting
    → check (suc fuel) e.0 e.1 s ≡ Result.ok s
unfolding check check_dependency status job_status same_status
check_watching fuel j e s w q =
    rw (w.found, check) (rw (w.unlocked, w.watches, w.seen, q, check_dependency) (ground arith))

check_all_watching :
    (fuel j : ℕ) (ds : List Dependent) (s : Workspace)
    → All (IsWatching s j) ds
    → (s.jobs j).state ≡ waiting
    → check_all (check (suc fuel)) ds s ≡ Result.ok s
unfolding check_all
check_all_watching fuel j [] s a q = refl
check_all_watching fuel j (e ∷ ds) s a q =
    rw (check_watching fuel j e s a.0 q) (check_all_watching fuel j ds s a.1 q)

-- Only the counter of `j` changes, and the list of waiting jobs.
IsWatching-changed :
    (j : ℕ) (from to : DependencyStatus) (s : Workspace) (ds : List Dependent)
    → All (IsWatching s j) ds
    → All (IsWatching (job_finished j (count_change j from to s)) j) ds
unfolding job_finished count_change
IsWatching-changed j from to s [] a = tt
IsWatching-changed j from to s (e ∷ ds) a = (
  record {
    watcher = a.0.watcher;
    found =
        update_elim s.jobs j _ (λ b. get_elem? b.dependencies e.1 ≡ some a.0.watcher) e.0
          (λ q. ap (λ k. get_elem? (s.jobs k).dependencies e.1) q ∙ a.0.found) (λ _. a.0.found);
    unlocked = a.0.unlocked;
    watches = a.0.watches;
    seen = a.0.seen;
  },
  IsWatching-changed j from to s ds a.1,
)

-- With two units of fuel or more, where a dependency of a waiting job is found failed, was last seen
-- waiting and holds no lock, and every dependent of the job has last seen it waiting and holds no
-- lock, `check` marks the dependency as failed, adjusts the counter and takes the job out of the set
-- of waiting jobs, and does nothing else: the state of the job stays WAITING, and no dependent
-- learns of the failure.
pub failure_stops :
    (fuel j i : ℕ) (d : Dependency) (s : Workspace)
    → get_elem? (s.jobs j).dependencies i ≡ some d
    → d.owners ≡ 0
    → status s d.origin ≡ fail
    → d.old_status ≡ wait
    → (s.jobs j).state ≡ waiting
    → All (IsWatching s j) (s.jobs j).dependents
    → check (suc (suc fuel)) j i s
      ≡ Result.ok (
          set_dependency j i
            (record d { old_status = fail })
            (job_finished j (count_change j wait fail s)))
unfolding check check_dependency dependency_changed job_completed same_status
failure_stops fuel j i d s found free failed old state watched =
    rw (found, check) (rw (free, failed, old, check_dependency) (rw (calm, dependency_changed)))
  where
    same :
        (count_change j wait fail s).jobs j
        ≡ record (s.jobs j) { unsatisfied = ((s.jobs j).unsatisfied + u64_mod + 0 - 0) % u64_mod }
    same = update_self s.jobs j _

    calm :
        check_all
          (check (suc fuel))
          ((count_change j wait fail s).jobs j).dependents
          (job_finished j (count_change j wait fail s))
        ≡ Result.ok (job_finished j (count_change j wait fail s))
    calm =
        check_all_watching fuel j _ _
          (IsWatching-changed j wait fail s _ (rw (ap (λ b. b.dependents) same) watched))
          (rw (ap (λ b. b.state) same) state)

last_met :
    (c : Check) (j : ℕ) (s : Workspace)
    → (s.jobs j).unsatisfied ≡ 1
    → dependency_changed c j wait DependencyStatus.ok s
      ≡ start j (count_change j wait DependencyStatus.ok s)
unfolding dependency_changed value
last_met c j s last = rw (met, dependency_changed)
  where
    met : (((count_change j wait DependencyStatus.ok s).jobs j).unsatisfied == 0) ≡ true
    met =
        rw
          (ap (λ b. b.unsatisfied)
            (update_self s.jobs j (record (s.jobs j) {
              unsatisfied = ((s.jobs j).unsatisfied + u64_mod + 0 - 1) % u64_mod;
            })))
          (rw last)

start_deadlocks :
    (j : ℕ) (s : Workspace)
    → s.exit_mode ≢ ExitMode.none
    → s.mutex ≡ true
    → start j s ≡ err deadlock
unfolding start
start_deadlocks j s mode held = ground arith

-- In exit mode and with WORKSPACE_MUTEX held, the check of a dependency that holds no lock, was last
-- seen waiting and is now OK, the last that its job counts, ends in a deadlock.
pub exit_deadlocks :
    (fuel j i : ℕ) (d : Dependency) (s : Workspace)
    → get_elem? (s.jobs j).dependencies i ≡ some d
    → d.owners ≡ 0
    → status s d.origin ≡ DependencyStatus.ok
    → d.old_status ≡ wait
    → (s.jobs j).unsatisfied ≡ 1
    → s.exit_mode ≢ ExitMode.none
    → s.mutex ≡ true
    → check (suc fuel) j i s ≡ err deadlock
unfolding check check_dependency same_status count_change
exit_deadlocks fuel j i d s found free satisfied old last mode held =
    rw (found, check)
      (rw (free, satisfied, old, check_dependency)
        (rw (
          last_met (check fuel) j s last,
          start_deadlocks j (count_change j wait DependencyStatus.ok s) mode held,
        )))
