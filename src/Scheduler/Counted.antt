-- ===== src/Scheduler/Counted.antt =====
-- The counter `_unsatisfied` against the statuses that it counts.
pub mod Changes
pub mod Checking
use experimaestro.Prelude.{
  ℕ, zero, suc, ◌+◌, ◌-◌, ◌%◌, ◌≤◌, ◌<◌, ◌≡◌, ◌≢◌, refl, sym, ap, ◌∙◌, subst, Bool, true, false,
  Option, none, some, List, [], ◌∷◌, ◌++◌, All, get_elem?, set, ltb, ◌==◌, if◌then◌else◌, arith,
  Bool-cases, Option-cases, ◌⊎◌, inl, inr,
}
use native.Mathlib.Decide.{dec_lt}
use experimaestro.Errors.{Result, err, ◌>>=◌, >>=-eq-ok, ok-injective}
use experimaestro.Scheduler.{
  DependencyStatus, wait, ok, fail, ExitMode, JobState, error, Origin, job, token, Dependency,
  Dependent, Job, Workspace, set_job, set_dependency, set_state, same_status, u64_mod, update,
  update_elim, update_ne, update_self,
}
use experimaestro.Scheduler.Checks.{
  value, count_change, start, job_finished, Check, check_all, job_completed, dependency_changed,
  check_dependency, check, status,
}

-- The dependencies whose last seen status is not OK.
unfoldable pub unmet : List Dependency → ℕ
unfolding value
unmet [] = 0
unmet (d ∷ ds) = 1 - value d.old_status + unmet ds

pub value-le : (d : DependencyStatus) → value d ≤ 1
unfolding value
value-le d = ground arith

-- The counter of a job is the number of these, modulo the size of `size_t`.
abbrev pub IsCounted : Job → Type 0
IsCounted b = b.unsatisfied ≡ unmet b.dependencies % u64_mod

pub unmet-set :
    (ds : List Dependency) (i : ℕ) (d e : Dependency)
    → get_elem? ds i ≡ some d
    → unmet (set ds i e) + value e.old_status ≡ unmet ds + value d.old_status
unfolding unmet value
unmet-set [] i d e h = ground arith
unmet-set (x ∷ xs) zero d e h = ground arith
unmet-set (x ∷ xs) (suc i) d e h = ground (arith, unmet-set xs i d e h)

-- Jobs are numbered in the order of their creation: a dependent comes behind the job it is on.
abbrev pub IsOrdered : Workspace → Type 0
IsOrdered s = (j : ℕ) → All (λ e. j < e.0) (s.jobs j).dependents

abbrev pub IsCountedFrom : ℕ → Workspace → Type 0
IsCountedFrom b s = (j : ℕ) → b ≤ j → IsCounted (s.jobs j)

-- What a step at a job `k` keeps, of the jobs from `b` on.
pub record Keeps (b k : ℕ) (s t : Workspace) : Type 0 where
  pub counted : IsCountedFrom b t
  pub ordered : IsOrdered t
  pub below : (j : ℕ) → j < k → t.jobs j ≡ s.jobs j

abbrev pub CheckKeeps : Check → Type 0
CheckKeeps c =
    (b k i : ℕ) (s t : Workspace)
    → b ≤ k
    → IsCountedFrom b s
    → IsOrdered s
    → c k i s ≡ Result.ok t
    → Keeps b k s t

pub Keeps_refl : (b k : ℕ) (s : Workspace) → IsCountedFrom b s → IsOrdered s → Keeps b k s s
Keeps_refl b k s h o = record { counted = h; ordered = o; below = λ _ _. refl }
