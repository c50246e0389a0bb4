-- ===== src/Scheduler/Threads.antt =====
-- The thread of `Job::start` and `CommandLineJob::run`. What the machine does (the done file, an
-- earlier process, the two lock files) is an argument; a thread takes WORKSPACE_MUTEX only when it is
-- free, and each function here is a stretch between taking it and giving it back.
use experimaestro.Prelude.{
  ℕ, Bool, true, false, not, ◌||◌, Option, none, some, List, [], ◌∷◌, ◌++◌, length, ◌==◌,
  if◌then◌else◌,
}
use experimaestro.Errors.{Result, ◌>>=◌}
use experimaestro.Scheduler.{JobState, error, done, running, Thread, Workspace, set_state}
use experimaestro.Scheduler.Checks.{Check, job_completed}
use experimaestro.Scheduler.Locks.{lock_all, drop_all}

-- How `_process->exitCode()` ends: with a code, with `exited_error` and then the code in the file, or
-- with another exception. A code is the 32-bit pattern of an `int`.
pub data Exit : Type 0 where
  code : (n : ℕ) → Exit
  exited : (in_file : ℕ) → Exit
  unhandled : Exit

-- The lambda `waitUntilFinished`: the exit code, -1 at the start, and the state for it.
unfoldable pub exit_code : Exit → ℕ
exit_code (code n) = n
exit_code (exited in_file) = in_file
exit_code unhandled = 0xffffffff

unfoldable pub exit_state : Exit → JobState
unfolding exit_code
exit_state e = if exit_code e == 0 then done else error

-- What `run` meets: the done file, the process that `Launcher::check` finds, the two lock files.
pub record Surroundings : Type 0 where
  pub done_file : Bool
  pub process : Option Exit
  pub locked : Bool
  pub done_file_again : Bool
  pub process_again : Option Exit
  pub start_locked : Bool

-- The lambda `check` of `run`: the new state, and whether the job needs no run.
unfoldable pub already_done : Check → ℕ → Bool → Option Exit → Workspace → Result (Workspace × Bool)
unfolding job_completed exit_state
already_done check j true process s =
    job_completed check j (set_state j done s) >>= λ s'. Result.ok (s', true)
already_done check j false (some e) s = Result.ok (set_state j (exit_state e) s, true)
already_done check j false none s = Result.ok (s, false)

-- `CommandLineJob::run` from the lock file on.
unfoldable pub run_locked : Check → Surroundings → ℕ → Workspace → Result (Workspace × Bool)
unfolding already_done
run_locked check m j s = do
  (s', finished) ← already_done check j m.done_file_again m.process_again s
  if finished || not m.start_locked
      then Result.ok (s', false)
      else Result.ok (set_state j running s', true)

-- `CommandLineJob::run` up to `jobLock.unlock()`; the Boolean says whether a process was started.
unfoldable pub run : Check → Surroundings → ℕ → Workspace → Result (Workspace × Bool)
unfolding run_locked
run check m j s = do
  (s', finished) ← already_done check j m.done_file m.process s
  if finished || not m.locked then Result.ok (s', false) else run_locked check m j s'

-- Parts (1) and (2) of the thread, up to where it gives the mutex back. A thread that gives its start up
-- goes out of scope of `jobLock` first and of `locks` then: the result has the places of the locks that
-- it still holds when the mutex is free.
unfoldable pub begin : Check → Surroundings → ℕ → Workspace → Result (Workspace × List ℕ)
unfolding lock_all run
begin check m j s = do
  (s₁, held, all_locked) ←
      lock_all check j (length (s.jobs j).dependencies) 0 [] (record s { mutex = true })
  if all_locked
      then (do
        (s₂, waits) ← run check m j s₁
        Result.ok (
          record s₂ {
            active = s₂.active ++ record { job = j; locks = held; waits = waits } ∷ [];
            mutex = false;
          },
          [],
        ))
      else Result.ok (record s₁ { mutex = false }, held)

-- The process of a thread ends: `waitUntilFinished`, without the mutex.
unfoldable pub process_exited : Exit → Thread → Workspace → Workspace
unfolding exit_state
process_exited e thread s = set_state thread.job (exit_state e) s

-- Part (3) of the thread.
unfoldable pub finish : Check → Thread → Workspace → Result Workspace
unfolding job_completed drop_all
finish check thread s = do
  s₁ ← job_completed check thread.job (record s { mutex = true })
  s₂ ← drop_all check thread.job thread.locks s₁
  Result.ok (record s₂ { mutex = false })

-- `Workspace::waitUntilTaskCompleted` goes on waiting, for one workspace.
unfoldable pub waits_on : Workspace → Bool
waits_on s = elim s.waiting_jobs [ [] ↦ false | _ ↦ true ]
