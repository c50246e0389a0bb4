-- ===== src/Scheduler/Starts.antt =====
-- When a job starts: what its counter says of its dependencies when `check` spawns its thread.
use experimaestro.Prelude.{
  ℕ, suc, ◌-◌, ◌≤◌, ◌<◌, ◌≡◌, ◌≢◌, ◌⊎◌, refl, sym, ap, ◌∙◌, some, List, [], ◌∷◌, ◌++◌, All, length,
  get_elem?, ◌==◌, ==_iff, arith, Bool-cases, inl, inr,
}
use experimaestro.Errors.{Result, ok-injective}
use experimaestro.Scheduler.{
  DependencyStatus, ok, fail, ExitMode, Dependency, Job, Workspace, update_self, u64_mod,
}
use experimaestro.Scheduler.Checks.{
  status, value, count_change, start, Check, dependency_changed, check,
}
use experimaestro.Scheduler.Counted.{unmet, IsCounted}
use experimaestro.Scheduler.Counted.Changes.{check_dependency_cases}
use experimaestro.Scheduler.Sound.{IsSound, check-IsSound}

abbrev pub IsMet : Dependency → Type 0
IsMet d = d.old_status ≡ ok

unmet-le-length : (ds : List Dependency) → unmet ds ≤ length ds
unfolding unmet
unmet-le-length [] = omega arith
unmet-le-length (d ∷ ds) = omega (arith, unmet-le-length ds)

value_one : (d : DependencyStatus) → 1 - value d ≡ 0 → d ≡ ok
unfolding value
value_one d h = ground arith

unmet_zero : (ds : List Dependency) → unmet ds ≡ 0 → All IsMet ds
unfolding unmet
unmet_zero [] h = tt
unmet_zero (d ∷ ds) h = (value_one d.old_status (omega arith), unmet_zero ds (omega arith))

counted_zero :
    (b : Job)
    → IsCounted b
    → length b.dependencies < u64_mod
    → b.unsatisfied ≡ 0
    → All IsMet b.dependencies
counted_zero b c lt z = unmet_zero b.dependencies (omega (arith, unmet-le-length b.dependencies))

started :
    (j : ℕ) (u t : Workspace) (mode : ExitMode)
    → u.exit_mode ≡ mode
    → start j u ≡ Result.ok t
    → (u.jobs j).unsatisfied ≡ 0
    → (t.spawned ≡ u.spawned) ⊎ ((t.spawned ≡ u.spawned ++ j ∷ []) × ((t.jobs j).unsatisfied ≡ 0))
unfolding start
started j u t ExitMode.none q e z =
    let spawns : record u { spawned = u.spawned ++ j ∷ [] } ≡ t =
      ok-injective (sym (normally q) ∙ e) in
    inr (ap (λ w. w.spawned) (sym spawns), ap (λ w. (w.jobs j).unsatisfied) (sym spawns) ∙ z)
  where
    normally :
        u.exit_mode ≡ ExitMode.none
        → start j u ≡ Result.ok (record u { spawned = u.spawned ++ j ∷ [] })
    normally q = ground arith
started j u t _ q e z = inl (ground arith)

-- A change to another status than FAIL spawns the thread of the job or none, the former with the
-- counter at zero.
changed_cases :
    (c : Check) (j : ℕ) (from to : DependencyStatus) (s t : Workspace)
    → to ≢ fail
    → dependency_changed c j from to s ≡ Result.ok t
    → (t.spawned ≡ s.spawned) ⊎ ((t.spawned ≡ s.spawned ++ j ∷ []) × ((t.jobs j).unsatisfied ≡ 0))
unfolding dependency_changed
changed_cases c j from fail s t ne e = absurd (ne refl)
changed_cases c j from to s t ne e =
    elim (Bool-cases (((count_change j from to s).jobs j).unsatisfied == 0)) [
      | inr more ↦ inl (ap (λ w. w.spawned) (sym (ok-injective (rw more at e))))
      | inl met ↦
          started j (count_change j from to s) t s.exit_mode refl (rw met at e) ((==_iff _ 0).0 met)
    ]

-- In a sound workspace, a check of a dependency that has not failed spawns the thread of the job only
-- with every dependency of the job last seen OK, and otherwise no thread, for a job of fewer than 2^64
-- dependencies.
pub check-IsMet :
    (fuel j i : ℕ) (d : Dependency) (s t : Workspace)
    → IsSound s
    → get_elem? (s.jobs j).dependencies i ≡ some d
    → status s d.origin ≢ fail
    → length (t.jobs j).dependencies < u64_mod
    → check (suc fuel) j i s ≡ Result.ok t
    → (t.spawned ≡ s.spawned)
      ⊎ ((t.spawned ≡ s.spawned ++ j ∷ []) × All IsMet (t.jobs j).dependencies)
unfolding check
check-IsMet fuel j i d s t sound found ne small e =
    elim (check_dependency_cases (check fuel) j i d s t (rw (found, check) at e)) [
      | inl same ↦ inl (ap (λ w. w.spawned) (sym same))
      | inr (u, first, last) ↦
          elim (changed_cases (check fuel) j d.old_status (status s d.origin) s u ne first) [
            | inl calm ↦ inl (ap (λ w. w.spawned) (sym last) ∙ calm)
            | inr (spawns, met) ↦ inr (
              ap (λ w. w.spawned) (sym last) ∙ spawns,
              counted_zero (t.jobs j) ((check-IsSound (suc fuel) j i s t sound e).counted j) small (
                  ap (λ w. (w.jobs j).unsatisfied) (sym last)
                  ∙ ap (λ b. b.unsatisfied) (update_self u.jobs j _)
                  ∙ met),
            )
          ]
    ]
