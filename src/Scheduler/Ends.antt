-- ===== src/Scheduler/Ends.antt =====
-- How deep the chain of checks goes.
use experimaestro.Prelude.{
  ℕ, zero, suc, ◌+◌, ◌≤◌, ◌<◌, ◌≡◌, ◌≢◌, refl, sym, ap, ◌∙◌, Bool, List, [], ◌∷◌, All, get_elem?,
  ltb, ◌==◌, if◌then◌else◌, arith, Bool-cases, Option-cases, inl, inr,
}
use experimaestro.Errors.{Result, Result-cases, err, out_of_fuel, >>=-eq-ok, ok-injective}
use experimaestro.Scheduler.{
  DependencyStatus, fail, error, Dependency, Dependent, Job, Workspace, set_job, same_status,
  update_elim,
}
use experimaestro.Scheduler.Checks.{
  status, count_change, start, job_finished, Check, check_all, job_completed, dependency_changed,
  check_dependency, check,
}
use experimaestro.Scheduler.Counted.Changes.{start_cases, check_dependency_cases}

-- No job's dependents change.
abbrev Same : Workspace → Workspace → Type 0
Same s t = (j : ℕ) → (t.jobs j).dependents ≡ (s.jobs j).dependents

set_job-Same :
    (j : ℕ) (b : Job) (s : Workspace)
    → b.dependents ≡ (s.jobs j).dependents
    → Same s (set_job j b s)
set_job-Same j b s e k =
    update_elim s.jobs j b (λ x. x.dependents ≡ (s.jobs k).dependents) k
      (λ q. e ∙ ap (λ l. (s.jobs l).dependents) q) (λ _. refl)

start-Same : (j : ℕ) (s t : Workspace) → start j s ≡ Result.ok t → Same s t
start-Same j s t e k = elim (start_cases j s t s.exit_mode refl e) [
  | inl same ↦ rw same
  | inr failed ↦ rw failed (set_job-Same j (record (s.jobs j) { state = error }) s refl k)
]

abbrev CheckSame : Check → Type 0
CheckSame c = (j i : ℕ) (s t : Workspace) → c j i s ≡ Result.ok t → Same s t

module _ (c : Check) (same : CheckSame c) where
  check_all-Same :
      (ds : List Dependent) (s t : Workspace) → check_all c ds s ≡ Result.ok t → Same s t
  unfolding check_all
  check_all-Same [] s t e k = ap (λ w. (w.jobs k).dependents) (sym (ok-injective e))
  check_all-Same ((j, i) ∷ ds) s t e k =
      let (u, first, rest) = >>=-eq-ok (c j i s) (check_all c ds) e in
      check_all-Same ds u t rest k ∙ same j i s u first k

  dependency_changed-Same :
      (j : ℕ) (from to : DependencyStatus) (s t : Workspace)
      → dependency_changed c j from to s ≡ Result.ok t
      → Same s t
  unfolding dependency_changed job_completed job_finished
  dependency_changed-Same j from fail s t e k =
      check_all-Same ((count_change j from fail s).jobs j).dependents _ t e k
      ∙ set_job-Same j _ s refl k
  dependency_changed-Same j from to s t e k =
      elim (Bool-cases (((count_change j from to s).jobs j).unsatisfied == 0)) [
        | inl met ↦
            start-Same j _ t (rw (met, dependency_changed) at e) k ∙ set_job-Same j _ s refl k
        | inr more ↦
            ap (λ w. (w.jobs k).dependents)
              (sym (ok-injective (rw (more, dependency_changed) at e)))
            ∙ set_job-Same j _ s refl k
      ]

  check_dependency-Same :
      (j i : ℕ) (d : Dependency) (s t : Workspace)
      → check_dependency c j i d s ≡ Result.ok t
      → Same s t
  check_dependency-Same j i d s t e k = elim (check_dependency_cases c j i d s t e) [
    | inl unchanged ↦ ap (λ w. (w.jobs k).dependents) (sym unchanged)
    | inr (u, first, last) ↦
        ap (λ w. (w.jobs k).dependents) (sym last)
        ∙ set_job-Same j _ u refl k
        ∙ dependency_changed-Same j d.old_status (status s d.origin) s u first k
  ]

check-Same : (fuel : ℕ) → CheckSame (check fuel)
unfolding check
check-Same zero j i s t e = ground arith
check-Same (suc fuel) j i s t e = elim (Option-cases (get_elem? (s.jobs j).dependencies i)) [
  | inl missing ↦
      λ k. ap (λ w. (w.jobs k).dependents) (sym (ok-injective (rw (missing, check) at e)))
  | inr (d, found) ↦
      check_dependency-Same (check fuel) (check-Same fuel) j i d s t (rw (found, check) at e)
]

-- Of the jobs below `n`, a dependent comes behind the job it is on.
abbrev pub IsWithin : ℕ → Workspace → Type 0
IsWithin n s = (j : ℕ) → All (λ e. (j < e.0) × (e.0 < n)) (s.jobs j).dependents

IsWithin-Same : (n : ℕ) (s t : Workspace) → Same s t → IsWithin n s → IsWithin n t
IsWithin-Same n s t e w j = rw (e j) (w j)

-- `check` at a job behind `m` does not run out of fuel.
abbrev CheckEnds : ℕ → ℕ → Check → Type 0
CheckEnds n m c =
    (k i : ℕ) (s : Workspace) → m < k → k < n → IsWithin n s → c k i s ≢ err out_of_fuel

start_if_ends :
    (b : Bool) (j : ℕ) (s : Workspace) → (if b then start j s else Result.ok s) ≢ err out_of_fuel
unfolding start
start_if_ends b j s = ground arith

module _ (c : Check) (same : CheckSame c) (n m : ℕ) (ends : CheckEnds n m c) where
  check_all_ends :
      (ds : List Dependent) (s : Workspace)
      → All (λ e. (m < e.0) × (e.0 < n)) ds
      → IsWithin n s
      → check_all c ds s ≢ err out_of_fuel
  unfolding check_all
  check_all_ends [] s a w = ground arith
  check_all_ends ((j, i) ∷ ds) s a w = elim (Result-cases (c j i s)) [
    | inl (t, first) ↦
        rw first (check_all_ends ds t a.1 (IsWithin-Same n s t (same j i s t first) w))
    | inr (x, failed) ↦ rw failed (rw failed at (ends j i s a.0.0 a.0.1 w))
  ]

  dependency_changed_ends :
      (from to : DependencyStatus) (s : Workspace)
      → IsWithin n s
      → dependency_changed c m from to s ≢ err out_of_fuel
  unfolding dependency_changed job_completed job_finished
  dependency_changed_ends from fail s w =
      let t : Workspace = count_change m from fail s in
      let w' = IsWithin-Same n s t (set_job-Same m _ s refl) w in
      check_all_ends (t.jobs m).dependents (job_finished m t) (w' m) w'
  dependency_changed_ends from to s w = start_if_ends (_ == 0) m (count_change m from to s)

  check_dependency_ends :
      (i : ℕ) (d : Dependency) (s : Workspace)
      → IsWithin n s
      → check_dependency c m i d s ≢ err out_of_fuel
  unfolding check_dependency
  check_dependency_ends i d s w = elim (Bool-cases (ltb 0 d.owners)) [
    | inl held ↦ rw (held, check_dependency) (ground arith)
    | inr free ↦ elim (Bool-cases (same_status (status s d.origin) d.old_status)) [
      | inl old ↦ rw (free, old, check_dependency) (ground arith)
      | inr new ↦
          rw (free, new, check_dependency)
            (elim (Result-cases (dependency_changed c m d.old_status (status s d.origin) s)) [
              | inl (t, first) ↦ rw first (ground arith)
              | inr (x, failed) ↦
                  rw failed
                    (rw failed at (dependency_changed_ends d.old_status (status s d.origin) s w))
            ])
    ]
  ]

-- With jobs numbered so that a dependent comes behind the job it is on, a check does not run out of
-- fuel when one unit is given for each job from its own on.
pub check_ends :
    (fuel n j i : ℕ) (s : Workspace)
    → IsWithin n s
    → j < n
    → n ≤ j + fuel
    → check fuel j i s ≢ err out_of_fuel
unfolding check
check_ends zero n j i s w lt le = absurd (omega arith)
check_ends (suc fuel) n j i s w lt le = elim (Option-cases (get_elem? (s.jobs j).dependencies i)) [
  | inl missing ↦ rw (missing, check) (ground arith)
  | inr (d, found) ↦
      rw (found, check)
        (check_dependency_ends (check fuel) (check-Same fuel) n j
          (λ k l t behind below within. check_ends fuel n k l t within below (omega arith)) i d s w)
]
