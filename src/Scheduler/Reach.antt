-- ===== src/Scheduler/Reach.antt =====
-- The workspace as a step relation: the program, its threads and the machine choose the steps.
use experimaestro.Prelude.{
  ℕ, suc, ◌≡◌, refl, true, false, some, List, ◌++◌, Text, take, drop, set, All, get_elem?,
}
use experimaestro.Errors.{Result}
use experimaestro.Scheduler.{JobState, ExitMode, Origin, Thread, Workspace, set_token}
use experimaestro.Scheduler.Checks.{check}
use experimaestro.Scheduler.Jobs.{create, add_dependency, submit}
use experimaestro.Scheduler.Threads.{Exit, exit_state, Surroundings, begin, process_exited, finish}
use experimaestro.Scheduler.Sound.{
  IsSound, IsOlder, check-IsSound, jobs-IsSound, set_state-IsSound, create-IsSound,
  add_dependency-IsSound, submit-IsSound,
}
use experimaestro.Scheduler.Sound.Running.{begin-IsSound, finish-IsSound}

-- The threads spawned or active are taken off the lists by the step that runs them.
unfoldable pub take_spawned : ℕ → Workspace → Workspace
take_spawned n s = record s { spawned = take n s.spawned ++ drop (suc n) s.spawned }

unfoldable pub take_active : ℕ → Workspace → Workspace
take_active n s = record s { active = take n s.active ++ drop (suc n) s.active }

-- The stretches of the program between two points where another thread may come in: the calls and the
-- threads while they hold WORKSPACE_MUTEX, and the single writes without it. A thread that gives its
-- start up keeps its locks (`kept`): it releases them without the mutex, where another thread may come
-- in at any point, and this release is no step.
pub data Step (fuel : ℕ) (s : Workspace) : Workspace → Type 0 where
  creates : (j : ℕ) (id : Text) (state : JobState) → Step fuel s (create j id state s)
  depends : (j : ℕ) (o : Origin) → Step fuel s (add_dependency j o s)
  submits :
      (j now : ℕ) {t : Workspace}
      → All (λ d. IsOlder j d.origin) (s.jobs j).dependencies
      → submit (check fuel) j now s ≡ Result.ok t
      → Step fuel s t
  begins :
      (m : Surroundings) (n j : ℕ) (kept : List ℕ) {t : Workspace}
      → get_elem? s.spawned n ≡ some j
      → begin (check fuel) m j (take_spawned n s) ≡ Result.ok (t, kept)
      → Step fuel s t
  exits :
      (x : Exit) (n : ℕ) (thread : Thread)
      → get_elem? s.active n ≡ some thread
      → thread.waits ≡ true
      → Step fuel s (
          process_exited x thread
            (record s { active = set s.active n (record thread { waits = false }) }))
  finishes :
      (n : ℕ) (thread : Thread) {t : Workspace}
      → get_elem? s.active n ≡ some thread
      → thread.waits ≡ false
      → finish (check fuel) thread (take_active n s) ≡ Result.ok t
      → Step fuel s t
  limits : (t limit : ℕ) → Step fuel s (set_token t (record (s.tokens t) { limit = limit }) s)
  signals : (mode : ExitMode) → Step fuel s (record s { exit_mode = mode })

pub data Reach (fuel : ℕ) (s : Workspace) : Workspace → Type 0 where
  here : Reach fuel s s
  next : {t u : Workspace} → Reach fuel s t → Step fuel t u → Reach fuel s u

Step-IsSound : {fuel : ℕ} {s t : Workspace} → Step fuel s t → IsSound s → IsSound t
unfolding take_spawned take_active process_exited
Step-IsSound {s = s} (creates j id state) v = create-IsSound j id state s v
Step-IsSound {s = s} (depends j o) v = add_dependency-IsSound j o s v
Step-IsSound {fuel} {s} {t} (submits j now older e) v =
    submit-IsSound (check fuel) (check-IsSound fuel) j now s t older v e
Step-IsSound {fuel} {s} {t} (begins m n j kept _ e) v =
    begin-IsSound (check fuel) (check-IsSound fuel) m j _ t kept (jobs-IsSound s _ refl v) e
Step-IsSound {s = s} (exits x n thread _ _) v =
    set_state-IsSound thread.job (exit_state x) _ (jobs-IsSound s _ refl v)
Step-IsSound {fuel} {s} {t} (finishes n thread _ _ e) v =
    finish-IsSound (check fuel) (check-IsSound fuel) thread _ t (jobs-IsSound s _ refl v) e
Step-IsSound {s = s} (limits t limit) v = jobs-IsSound s _ refl v
Step-IsSound {s = s} (signals mode) v = jobs-IsSound s _ refl v

-- In every workspace that the steps reach from a sound one, which is as long as no thread that has given
-- its start up releases a lock without the mutex, the counter of each job is the number of its
-- dependencies that were not last seen OK, modulo 2^64, and each dependent comes behind the job it is
-- on.
pub Reach-IsSound : {fuel : ℕ} {s t : Workspace} → Reach fuel s t → IsSound s → IsSound t
Reach-IsSound here v = v
Reach-IsSound (next r st) v = Step-IsSound st (Reach-IsSound r v)
