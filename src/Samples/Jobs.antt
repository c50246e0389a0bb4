-- ===== src/Samples/Jobs.antt =====
-- Two jobs, the second of which needs the first; a counter token; an interrupt; a set of variables.
use experimaestro.Prelude.{
  Option, All, ◌⊎◌, ℕ, zero, suc, lookup, insert, text_eq, ◌<◌, ◌≡◌, ◌≢◌, refl, [], ◌∷◌, true,
  false, codes, arith,
}
use experimaestro.Errors.{Result, err, deadlock, out_of_fuel, ◌>>=◌}
use experimaestro.Scheduler.{
  wait, fail, Job, JobState, waiting, error, done, ExitMode, stopping, job, Dependency, Token,
  Workspace, set_dependency,
}
use experimaestro.Scheduler.Checks.{value, status, job_status, count_change, job_finished, check}
use experimaestro.Scheduler.Locks.{l_acquire}
use experimaestro.Scheduler.Jobs.{create, add_dependency, submit}
use experimaestro.Scheduler.Counted.{unmet, IsCounted}
use experimaestro.Scheduler.Sound.{IsSound}
use experimaestro.Scheduler.Starts.{IsMet, check-IsMet}
use experimaestro.Scheduler.Reach.{
  here, next, creates, depends, submits, begins, take_spawned, Reach-IsSound,
}
use experimaestro.Scheduler.Threads.{Surroundings, begin}
use experimaestro.Scheduler.Ends.{IsWithin, check_ends}
use experimaestro.Scheduler.Failure.{failure_stops, exit_deadlocks}
use experimaestro.Scheduler.Tokens.{
  sum, acquires, ends, play_all, IsBalanced, play_all-IsBalanced, l_acquire_wraps,
}
use experimaestro.Variables.{find}
use experimaestro.Variables.Scopes.{scope, key, first_scope, find-first_scope, find_diverges}

abbrev pub idle : Workspace
idle = record {
  jobs = λ _. record {
    job_id = [];
    state = waiting;
    unsatisfied = 0;
    dependencies = [];
    dependents = [];
    submission_time = 0;
  };
  tokens = λ _. record { limit = 0; used_tokens = 0; dependents = [] };
  registered = [];
  waiting_jobs = [];
  spawned = [];
  active = [];
  exit_mode = ExitMode.none;
  mutex = false;
}

pub idle-IsSound : IsSound idle
unfolding unmet
idle-IsSound = record { counted = λ _. refl; ordered = λ _. tt }

abbrev two_jobs : Workspace
two_jobs =
    add_dependency 1 (job 0) (create 1 (codes "b") waiting (create 0 (codes "a") waiting idle))

abbrev settled : Result Workspace → Workspace
settled (Result.ok s) = s
settled (err _) = idle

abbrev first_submitted : Workspace
first_submitted = settled (submit (check 2) 0 5 two_jobs)

abbrev both_submitted : Workspace
both_submitted = settled (submit (check 2) 1 6 first_submitted)

-- The thread of the first job: no done file, no process, and both lock files can be had.
abbrev surroundings : Surroundings
surroundings = record {
  done_file = false;
  process = Option.none;
  locked = true;
  done_file_again = false;
  process_again = Option.none;
  start_locked = true;
}

abbrev first_started : Workspace
first_started =
    settled (begin (check 2) surroundings 0 (take_spawned 0 both_submitted) >>= λ p. Result.ok p.0)

Reach-IsSound_example : IsSound first_started
unfolding submit add_dependency create check lookup insert text_eq begin take_spawned
Reach-IsSound_example =
    Reach-IsSound {fuel = 2} {s = idle} {t = first_started}
      (next
        (next
          (next
            (next (next (next here (creates 0 (codes "a") waiting)) (creates 1 (codes "b") waiting))
              (depends 1 (job 0)))
            (submits 0 5 {t = first_submitted} tt refl))
          (submits 1 6 {t = both_submitted} (omega arith, tt) refl))
        (begins surroundings 0 0 [] {t = first_started} refl refl))
      idle-IsSound

-- The same two jobs, with what became of the first and the counter of the second.
abbrev pub chain : JobState → ℕ → Job
chain state zero = record (idle.jobs 0) { state = state; dependents = (1, 0) ∷ [] }
chain state (suc zero) = record (idle.jobs 1) {
  unsatisfied = 1;
  dependencies = record { origin = job 0; owners = 0; old_status = wait } ∷ [];
}
chain state _ = idle.jobs 2

abbrev pub chained : JobState → Workspace
chained state = record idle { jobs = chain state }

chained-IsWithin : (state : JobState) → IsWithin 2 (chained state)
chained-IsWithin state zero = ((omega arith, omega arith), tt)
chained-IsWithin state (suc zero) = tt
chained-IsWithin state (suc (suc n)) = tt

check_ends_example : check 2 1 0 (chained error) ≢ err out_of_fuel
check_ends_example =
    check_ends 2 2 1 0 (chained error) (chained-IsWithin error) (omega arith) (omega arith)

abbrev pub watching : Dependency
watching = record { origin = job 0; owners = 0; old_status = wait }

failure_stops_example :
    check 2 1 0 (chained error)
    ≡ Result.ok (
        set_dependency 1 0
          (record watching { old_status = fail })
          (job_finished 1 (count_change 1 wait fail (chained error))))
unfolding status job_status
failure_stops_example = failure_stops 0 1 0 watching (chained error) refl refl refl refl refl tt

-- The first job has ended well, after the first interrupt.
abbrev interrupted : Workspace
interrupted = record (chained done) { exit_mode = stopping; mutex = true }

exit_deadlocks_example : check 1 1 0 interrupted ≡ err deadlock
unfolding status job_status
exit_deadlocks_example =
    exit_deadlocks 0 1 0 watching interrupted refl refl refl refl refl (λ e. cc) refl

abbrev four : Token
four = record { limit = 4; used_tokens = 0; dependents = [] }

play_all-IsBalanced_example :
    IsBalanced 4 (play_all (acquires 3 ∷ acquires 2 ∷ ends 0 ∷ []) (four, []))
unfolding sum
play_all-IsBalanced_example =
    play_all-IsBalanced 4 (acquires 3 ∷ acquires 2 ∷ ends 0 ∷ []) (four, []) (omega arith)
      (omega arith, (omega arith, (tt, tt)))
      (record { fixed = refl; counted = refl; bounded = omega arith })

abbrev three_used : Token
three_used = record four { used_tokens = 3 }

l_acquire_wraps_example :
    (l_acquire three_used 0xfffffffe ≡ Result.ok (record three_used { used_tokens = 1 })) × (1 < 3)
l_acquire_wraps_example =
    l_acquire_wraps three_used 0xfffffffe (omega arith) (omega arith) (omega arith) (omega arith)

find-first_scope_example :
    find 3 (codes "a.b.c") ((codes "a.c", codes "1") ∷ (codes "c", codes "2") ∷ [])
    ≡ Result.ok (
        first_scope
          (codes "b" ∷ codes "a" ∷ [])
          (codes "c")
          ((codes "a.c", codes "1") ∷ (codes "c", codes "2") ∷ []))
unfolding key scope
find-first_scope_example =
    find-first_scope 3 (codes "b" ∷ codes "a" ∷ []) (codes "c")
      ((codes "a.c", codes "1") ∷ (codes "c", codes "2") ∷ []) (omega arith)
      (((λ e. cc), (omega arith, tt)), (((λ e. cc), (omega arith, tt)), tt)) (omega arith, tt)

find_diverges_example : find 7 (codes ".a") [] ≡ err out_of_fuel
unfolding lookup
find_diverges_example = find_diverges 7 (codes "a") [] (omega arith, tt) refl

chained-IsSound : IsSound (chained done)
unfolding unmet value
chained-IsSound = record { counted = counted; ordered = ordered }
  where
    counted : (j : ℕ) → IsCounted (chain done j)
    counted zero = refl
    counted (suc zero) = refl
    counted (suc (suc n)) = refl

    ordered : (j : ℕ) → All (λ e. j < e.0) (chain done j).dependents
    ordered zero = (omega arith, tt)
    ordered (suc zero) = tt
    ordered (suc (suc n)) = tt

abbrev second_spawned : Workspace
second_spawned = settled (check 1 1 0 (chained done))

check-IsMet_example :
    (second_spawned.spawned ≡ [])
    ⊎ ((second_spawned.spawned ≡ 1 ∷ []) × All IsMet (second_spawned.jobs 1).dependencies)
unfolding check status job_status
check-IsMet_example =
    check-IsMet 0 1 0 watching (chained done) second_spawned chained-IsSound refl (λ e. cc)
      (omega arith) refl
