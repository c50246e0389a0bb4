-- ===== src/Scheduler/Counted/Checking.antt =====
-- `check` and what it sets off keep the counters right.
use experimaestro.Prelude.{
  ℕ, zero, suc, ◌%◌, ◌≤◌, ◌<◌, ◌≡◌, ◌≢◌, ◌∙◌, subst, some, List, [], ◌∷◌, All, get_elem?, set, ◌==◌,
  arith, Bool-cases, Option-cases, inl, inr,
}
use native.Mathlib.Decide.{dec_lt}
use experimaestro.Errors.{Result, >>=-eq-ok, ok-injective}
use experimaestro.Scheduler.{
  DependencyStatus, fail, Dependency, Dependent, Workspace, set_dependency, u64_mod, update_elim,
  update_ne,
}
use experimaestro.Scheduler.Checks.{
  count_change, job_finished, Check, check_all, job_completed, dependency_changed, check_dependency,
  check, status,
}
use experimaestro.Scheduler.Counted.{
  unmet, unmet-set, value-le, IsCounted, IsOrdered, IsCountedFrom, Keeps, Keeps_refl, CheckKeeps,
}
use experimaestro.Scheduler.Counted.Changes.{
  Changes, count_change-Changes, start-Changes, check_dependency_cases,
}

module _ (c : Check) (keeps : CheckKeeps c) where
  check_all-Keeps :
      (ds : List Dependent) (m : ℕ) (s t : Workspace)
      → All (λ e. m < e.0) ds
      → IsCountedFrom (suc m) s
      → IsOrdered s
      → check_all c ds s ≡ Result.ok t
      → Keeps (suc m) (suc m) s t
  unfolding check_all
  check_all-Keeps [] m s t a h o e =
      subst (Keeps (suc m) (suc m) s) (ok-injective e) (Keeps_refl _ _ s h o)
  check_all-Keeps ((j, i) ∷ ds) m s t a h o e =
      let (u, first, rest) = >>=-eq-ok (c j i s) (check_all c ds) e in
      let k = keeps (suc m) j i s u a.0 h o first in
      let r = check_all-Keeps ds m u t a.1 k.counted k.ordered rest in
      record {
        counted = r.counted;
        ordered = r.ordered;
        below = λ l lt. r.below l lt ∙ k.below l (omega arith);
      }

module _ (c : Check) (keeps : CheckKeeps c) where
  job_completed-Changes :
      (j : ℕ) (from to : DependencyStatus) (s t u : Workspace)
      → Changes j from to s t
      → job_completed c j t ≡ Result.ok u
      → Changes j from to s u
  unfolding job_completed job_finished
  job_completed-Changes j from to s t u h e =
      let k =
        check_all-Keeps c keeps (t.jobs j).dependents j (job_finished j t) u (h.ordered j) h.counted
          h.ordered e in
      record {
        counted = k.counted;
        ordered = k.ordered;
        below = λ l lt. k.below l (omega arith) ∙ h.below l lt;
        self_unsatisfied = rw (k.below j (omega arith)) h.self_unsatisfied;
        self_dependencies = rw (k.below j (omega arith)) h.self_dependencies;
      }

  dependency_changed-Changes :
      (j : ℕ) (from to : DependencyStatus) (s u : Workspace)
      → IsCountedFrom (suc j) s
      → IsOrdered s
      → dependency_changed c j from to s ≡ Result.ok u
      → Changes j from to s u
  unfolding dependency_changed
  dependency_changed-Changes j from fail s u h o e =
      job_completed-Changes j from fail s _ u (count_change-Changes j from fail s h o) e
  dependency_changed-Changes j from to s u h o e =
      elim (Bool-cases (((count_change j from to s).jobs j).unsatisfied == 0)) [
        | inl met ↦
            start-Changes j from to s _ u (count_change-Changes j from to s h o)
              (rw (met, dependency_changed) at e)
        | inr more ↦
            subst (Changes j from to s) (ok-injective (rw (more, dependency_changed) at e))
              (count_change-Changes j from to s h o)
      ]

  settled :
      (b j i : ℕ) (d : Dependency) (to : DependencyStatus) (s u : Workspace)
      → get_elem? (s.jobs j).dependencies i ≡ some d
      → b ≤ j
      → IsCountedFrom b s
      → Changes j d.old_status to s u
      → Keeps b j s (set_dependency j i (record d { old_status = to }) u)
  settled b j i d to s u g le h k = record {
    counted = λ l low. update_elim u.jobs j _ IsCounted l (λ _. self) (λ ne. others l low ne);
    ordered = λ l.
        update_elim u.jobs j _ (λ b. All (λ e. l < e.0) b.dependents) l
          (λ q. subst (λ l. All (λ e. l < e.0) (u.jobs j).dependents) q (k.ordered j))
          (λ _. k.ordered l);
    below = λ l lt. update_ne u.jobs j _ l (omega arith) ∙ k.below l lt;
  }
    where
      self :
          (u.jobs j).unsatisfied
          ≡ unmet (set (u.jobs j).dependencies i (record d { old_status = to })) % u64_mod
      self = rw k.self_dependencies (
          omega (
            arith,
            k.self_unsatisfied,
            h j le,
            unmet-set (s.jobs j).dependencies i d (record d { old_status = to }) g,
            value-le to,
          ))

      others : (l : ℕ) → b ≤ l → j ≢ l → IsCounted (u.jobs l)
      others l low ne = elim (dec_lt l j) [
        | yes under ↦ rw (k.below l under) (h l low)
        | no over ↦ k.counted l (omega arith)
      ]

  check_dependency-Keeps :
      (b j i : ℕ) (d : Dependency) (s t : Workspace)
      → get_elem? (s.jobs j).dependencies i ≡ some d
      → b ≤ j
      → IsCountedFrom b s
      → IsOrdered s
      → check_dependency c j i d s ≡ Result.ok t
      → Keeps b j s t
  check_dependency-Keeps b j i d s t g le h o e = elim (check_dependency_cases c j i d s t e) [
    | inl same ↦ subst (Keeps b j s) same (Keeps_refl b j s h o)
    | inr (u, first, last) ↦ subst (Keeps b j s) last (
        settled b j i d (status s d.origin) s u g le h (
          dependency_changed-Changes j d.old_status (status s d.origin) s u
            (λ l low. h l (omega arith)) o first))
  ]

-- When `check` returns, the counters of all jobs are as right as before.
pub check-Keeps : (fuel : ℕ) → CheckKeeps (check fuel)
unfolding check
check-Keeps zero b k i s t le h o e = ground arith
check-Keeps (suc fuel) b k i s t le h o e =
    elim (Option-cases (get_elem? (s.jobs k).dependencies i)) [
      | inl missing ↦
          subst (Keeps b k s) (ok-injective (rw (missing, check) at e)) (Keeps_refl b k s h o)
      | inr (d, found) ↦
          check_dependency-Keeps (check fuel) (check-Keeps fuel) b k i d s t found le h o
            (rw (found, check) at e)
    ]
