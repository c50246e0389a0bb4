-- ===== src/Scheduler.antt =====
-- The state of the scheduler: the dependencies, resources, tokens, jobs and the workspace of
-- include/public/xpm/workspace.hpp and src/workspace.cpp. Objects are numbers: a job and a token are
-- indices of the store, and a dependency is its job with its place in `_dependencies`, since it is
-- made for one job. A shared or weak pointer to an object is its number.
pub mod Checks
pub mod Locks
pub mod Jobs
pub mod Threads
pub mod Counted
pub mod Sound
pub mod Reach
pub mod Starts
pub mod Ends
pub mod Failure
pub mod Progress
pub mod Tokens
use native.Mathlib.Decide.{ℕ_discrete}
use experimaestro.Prelude.{
  arith, ◌≡◌, ◌≢◌, refl, ℕ, ◌^◌, Bool, true, false, List, Text, set, ◌==◌, if◌then◌else◌,
}

-- The size of `uint32_t` (tokens) and of `size_t` (the counter of a job).
abbrev pub u32_mod : ℕ
u32_mod = 2 ^ 32

abbrev pub u64_mod : ℕ
u64_mod = 2 ^ 64

pub data DependencyStatus : Type 0 where
  wait ok fail : DependencyStatus

pub data JobState : Type 0 where
  waiting ready running error done : JobState

pub data ExitMode : Type 0 where
  none waiting stopping : ExitMode

-- The resource that a dependency is on: a job, or a token with the count that is asked for.
pub data Origin : Type 0 where
  job : (j : ℕ) → Origin
  token : (t value : ℕ) → Origin

-- `owners` is the number of pointers that keep `_currentLock` alive.
pub record Dependency : Type 0 where
  pub origin : Origin
  pub owners : ℕ
  pub old_status : DependencyStatus

-- A dependent: the job, and the place of the dependency in its list.
abbrev pub Dependent : Type 0
Dependent = ℕ × ℕ

pub record Job : Type 0 where
  pub job_id : Text
  pub state : JobState
  pub unsatisfied : ℕ
  pub dependencies : List Dependency
  pub dependents : List Dependent
  pub submission_time : ℕ

pub record Token : Type 0 where
  pub limit : ℕ
  pub used_tokens : ℕ
  pub dependents : List Dependent

-- A thread of `Job::start` behind its first critical section: its job, the places of the locks that
-- it holds, and whether it still waits for a process.
pub record Thread : Type 0 where
  pub job : ℕ
  pub locks : List ℕ
  pub waits : Bool

-- `mutex` tells whether the running thread holds WORKSPACE_MUTEX; `spawned` has the jobs whose thread
-- has not entered its first critical section.
pub record Workspace : Type 0 where
  pub jobs : ℕ → Job
  pub tokens : ℕ → Token
  pub registered : List (Text × ℕ)
  pub waiting_jobs : List ℕ
  pub spawned : List ℕ
  pub active : List Thread
  pub exit_mode : ExitMode
  pub mutex : Bool

abbrev pub update {ℓ} : {A : Type ℓ} → (ℕ → A) → ℕ → A → ℕ → A
update f k v n = if k == n then v else f n

module _ {ℓ} {A : Type ℓ} (f : ℕ → A) (k : ℕ) (v : A) where
  -- A property of an updated store: of the new entry, and of the others.
  pub update_elim {κ} :
      (P : A → Type κ) (n : ℕ) → (k ≡ n → P v) → (k ≢ n → P (f n)) → P (update f k v n)
  update_elim P n new old = elim (ℕ_discrete k n) [
    | yes e ↦ rw (equal e, update) (new e)
    | no ne ↦ rw (different ne, update) (old ne)
  ]
    where
      equal : k ≡ n → (k == n) ≡ true
      equal e = ground arith

      different : k ≢ n → (k == n) ≡ false
      different ne = ground arith

  pub update_self : update f k v k ≡ v
  update_self = update_elim (λ x. x ≡ v) k (λ _. refl) (λ ne. absurd (ne refl))

  pub update_ne : (n : ℕ) → k ≢ n → update f k v n ≡ f n
  update_ne n ne = update_elim (λ x. x ≡ f n) n (λ e. absurd (ne e)) (λ _. refl)

abbrev pub set_job : ℕ → Job → Workspace → Workspace
set_job j b s = record s { jobs = update s.jobs j b }

abbrev pub set_token : ℕ → Token → Workspace → Workspace
set_token t b s = record s { tokens = update s.tokens t b }

abbrev pub set_dependency : ℕ → ℕ → Dependency → Workspace → Workspace
set_dependency j i d s =
    set_job j (record (s.jobs j) { dependencies = set (s.jobs j).dependencies i d }) s

-- `Job::state(JobState newState)`
abbrev pub set_state : ℕ → JobState → Workspace → Workspace
set_state j state s = set_job j (record (s.jobs j) { state = state }) s

-- The comparison `s != _oldStatus`.
unfoldable pub same_status : DependencyStatus → DependencyStatus → Bool
same_status wait wait = true
same_status ok ok = true
same_status fail fail = true
same_status _ _ = false
