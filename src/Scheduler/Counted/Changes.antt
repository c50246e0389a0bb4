-- ===== src/Scheduler/Counted/Changes.antt =====
-- The counters between `dependencyChanged` and the write of `_oldStatus`.
use experimaestro.Prelude.{
  ℕ, suc, ◌+◌, ◌-◌, ◌%◌, ◌<◌, ◌≡◌, refl, subst, All, ltb, arith, Bool-cases, ◌⊎◌, inl, inr,
}
use experimaestro.Errors.{Result, >>=-eq-ok, ok-injective}
use experimaestro.Scheduler.{
  DependencyStatus, ExitMode, JobState, error, Dependency, Workspace, set_dependency, set_state,
  same_status, u64_mod, update_elim, update_ne, update_self,
}
use experimaestro.Scheduler.Checks.{
  value, count_change, start, Check, dependency_changed, check_dependency, status,
}
use experimaestro.Scheduler.Counted.{IsCounted, IsOrdered, IsCountedFrom}

-- The state between `dependencyChanged` and the write of `_oldStatus`.
pub record Changes (j : ℕ) (from to : DependencyStatus) (s t : Workspace) : Type 0 where
  pub counted : IsCountedFrom (suc j) t
  pub ordered : IsOrdered t
  pub below : (k : ℕ) → k < j → t.jobs k ≡ s.jobs k
  pub self_unsatisfied :
      (t.jobs j).unsatisfied ≡ ((s.jobs j).unsatisfied + u64_mod + value from - value to) % u64_mod
  pub self_dependencies : (t.jobs j).dependencies ≡ (s.jobs j).dependencies

pub count_change-Changes :
    (j : ℕ) (from to : DependencyStatus) (s : Workspace)
    → IsCountedFrom (suc j) s
    → IsOrdered s
    → Changes j from to s (count_change j from to s)
unfolding count_change
count_change-Changes j from to s h o = record {
  counted = λ k le. update_elim s.jobs j _ IsCounted k (λ e. absurd (omega arith)) (λ _. h k le);
  ordered = λ k.
      update_elim s.jobs j _ (λ b. All (λ e. k < e.0) b.dependents) k
        (λ e. subst (λ l. All (λ e. l < e.0) (s.jobs j).dependents) e (o j)) (λ _. o k);
  below = λ k lt. ground arith;
  self_unsatisfied = ground arith;
  self_dependencies = ground arith;
}

-- `start` leaves the jobs alone, or sets the state of its own.
pub start_cases :
    (j : ℕ) (t u : Workspace) (mode : ExitMode)
    → t.exit_mode ≡ mode
    → start j t ≡ Result.ok u
    → (u.jobs ≡ t.jobs) ⊎ (u.jobs ≡ (set_state j error t).jobs)
unfolding start
start_cases j t u ExitMode.none q e = inl (ground arith)
start_cases j t u _ q e = inr (ground arith)

-- What a step keeps that leaves the jobs alone, or sets a state.
Changes-state :
    (j : ℕ) (from to : DependencyStatus) (s t u : Workspace) (state : JobState)
    → u.jobs ≡ (set_state j state t).jobs
    → Changes j from to s t
    → Changes j from to s u
Changes-state j from to s t u state e c = record {
  counted = λ k le.
      rw e (update_elim t.jobs j _ IsCounted k (λ q. absurd (omega arith)) (λ _. c.counted k le));
  ordered = λ k. rw e (
      update_elim t.jobs j _ (λ b. All (λ e. k < e.0) b.dependents) k
        (λ q. subst (λ l. All (λ e. l < e.0) (t.jobs j).dependents) q (c.ordered j))
        (λ _. c.ordered k));
  below = λ k lt. rw (e, update_ne t.jobs j _ k (omega arith)) (c.below k lt);
  self_unsatisfied =
      rw (e, update_self t.jobs j (record (t.jobs j) { state = state })) c.self_unsatisfied;
  self_dependencies =
      rw (e, update_self t.jobs j (record (t.jobs j) { state = state })) c.self_dependencies;
}

Changes-same :
    (j : ℕ) (from to : DependencyStatus) (s t u : Workspace)
    → u.jobs ≡ t.jobs
    → Changes j from to s t
    → Changes j from to s u
Changes-same j from to s t u e c = record {
  counted = λ k le. rw e (c.counted k le);
  ordered = λ k. rw e (c.ordered k);
  below = λ k lt. rw e (c.below k lt);
  self_unsatisfied = rw e c.self_unsatisfied;
  self_dependencies = rw e c.self_dependencies;
}

pub start-Changes :
    (j : ℕ) (from to : DependencyStatus) (s t u : Workspace)
    → Changes j from to s t
    → start j t ≡ Result.ok u
    → Changes j from to s u
start-Changes j from to s t u c e = elim (start_cases j t u t.exit_mode refl e) [
  | inl same ↦ Changes-same j from to s t u same c
  | inr failed ↦ Changes-state j from to s t u error failed c
]

-- `check` does nothing, or sets off a change and writes the new status.
module _ (c : Check) where
  pub check_dependency_cases :
      (j i : ℕ) (d : Dependency) (s t : Workspace)
      → check_dependency c j i d s ≡ Result.ok t
      → (s ≡ t)
        ⊎ ((u : Workspace) × (dependency_changed c j d.old_status (status s d.origin) s
              ≡ Result.ok u)
            × (set_dependency j i (record d { old_status = status s d.origin }) u ≡ t))
  unfolding check_dependency
  check_dependency_cases j i d s t e = elim (Bool-cases (ltb 0 d.owners)) [
    | inl held ↦ inl (ok-injective (rw (held, check_dependency) at e))
    | inr free ↦ elim (Bool-cases (same_status (status s d.origin) d.old_status)) [
      | inl same ↦ inl (ok-injective (rw (free, same, check_dependency) at e))
      | inr new ↦
          let (u, first, rest) = >>=-eq-ok _ _ (rw (free, new, check_dependency) at e) in
          inr (u, first, ok-injective rest)
    ]
  ]
