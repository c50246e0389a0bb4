-- ===== src/Scheduler/Progress.antt =====
-- A job that ends well lets its dependents go on.
use experimaestro.Prelude.{
  ℕ, suc, ◌+◌, ◌-◌, ◌%◌, ◌<◌, ◌≡◌, ◌≢◌, refl, sym, ap, ◌∙◌, List, [], ◌∷◌, ◌++◌, append_assoc,
  append-nil, All, All-map, ◌==◌, if◌then◌else◌, arith, Bool-cases, inl, inr,
}
use experimaestro.Errors.{Result}
use experimaestro.Scheduler.{
  wait, ok, done, ExitMode, Dependent, Workspace, set_dependency, same_status, update_self,
  update_ne, u64_mod,
}
use experimaestro.Scheduler.Checks.{
  status, job_status, value, count_change, start, job_finished, erase, Check, check_all,
  job_completed, dependency_changed, check_dependency, check,
}
use experimaestro.Scheduler.Failure.{IsWatching}

-- The jobs, of a list of dependents, that count one dependency that is not met.
unfoldable pub next_jobs : Workspace → List Dependent → List ℕ
next_jobs s [] = []
next_jobs s (e ∷ ds) = (if (s.jobs e.0).unsatisfied == 1 then e.0 ∷ [] else []) ++ next_jobs s ds

-- A dependent that waits for job `j`, and counts it.
pub record IsPending (s : Workspace) (j : ℕ) (e : Dependent) : Type 0 where
  pub watching : IsWatching s j e
  pub other : j ≢ e.0
  pub counts : 0 < (s.jobs e.0).unsatisfied
  pub bounded : (s.jobs e.0).unsatisfied < u64_mod

-- The jobs of the dependents are different.
abbrev pub AreApart : List Dependent → Type 0
AreApart [] = Unit
AreApart (e ∷ ds) = All (λ f. e.0 ≢ f.0) ds × AreApart ds

-- What one check does to a workspace: only its job changes, and starts when the counter was 1.
record Woken (k : ℕ) (s t : Workspace) : Type 0 where
  others : (n : ℕ) → k ≢ n → t.jobs n ≡ s.jobs n
  spawns : t.spawned ≡ s.spawned ++ (if (s.jobs k).unsatisfied == 1 then k ∷ [] else [])
  mode : t.exit_mode ≡ s.exit_mode
  waits : t.waiting_jobs ≡ s.waiting_jobs

count_zero : (n : ℕ) → 0 < n → n < u64_mod → ((n + u64_mod + 0 - 1) % u64_mod == 0) ≡ (n == 1)
count_zero n p b = ground arith

changed_one :
    (c : Check) (k : ℕ) (s : Workspace)
    → 0 < (s.jobs k).unsatisfied
    → (s.jobs k).unsatisfied < u64_mod
    → s.exit_mode ≡ ExitMode.none
    → (t : Workspace) × (dependency_changed c k wait ok s ≡ Result.ok t) × Woken k s t
unfolding dependency_changed count_change value start
changed_one c k s p b mode = elim (Bool-cases ((s.jobs k).unsatisfied == 1)) [
  | inl last ↦
      let c' : Workspace = count_change k wait ok s in
      (
        record c' { spawned = c'.spawned ++ k ∷ [] },
        rw (test, last, mode) refl,
        record {
          others = λ n ne. update_ne s.jobs k _ n ne;
          spawns = rw last refl;
          mode = refl;
          waits = refl;
        },
      )
  | inr more ↦ (
    count_change k wait ok s,
    rw (test, more) refl,
    record {
      others = λ n ne. update_ne s.jobs k _ n ne;
      spawns = rw (more, append-nil) refl;
      mode = refl;
      waits = refl;
    },
  )
]
  where
    test : (((count_change k wait ok s).jobs k).unsatisfied == 0) ≡ ((s.jobs k).unsatisfied == 1)
    test = ap (λ b. b.unsatisfied == 0) (update_self s.jobs k _) ∙ count_zero _ p b

check_one :
    (fuel j : ℕ) (e : Dependent) (s : Workspace)
    → IsPending s j e
    → (s.jobs j).state ≡ done
    → s.exit_mode ≡ ExitMode.none
    → (t : Workspace) × (check (suc fuel) e.0 e.1 s ≡ Result.ok t) × Woken e.0 s t
unfolding check check_dependency status job_status same_status
check_one fuel j e s p q mode =
    let w = p.watching in
    let (u, first, woken) = changed_one (check fuel) e.0 s p.counts p.bounded mode in
    (
      set_dependency e.0 e.1 (record w.watcher { old_status = ok }) u,
      rw (w.found, check) (rw (w.unlocked, w.watches, w.seen, q, check_dependency) (rw first refl)),
      record {
        others = λ n ne. update_ne u.jobs e.0 _ n ne ∙ woken.others n ne;
        spawns = woken.spawns;
        mode = woken.mode;
        waits = woken.waits;
      },
    )

-- Dependents whose jobs are the same pend as before.
All-IsPending :
    (j : ℕ) (s t : Workspace) (ds : List Dependent)
    → All (λ f. t.jobs f.0 ≡ s.jobs f.0) ds
    → All (IsPending s j) ds
    → All (IsPending t j) ds × (next_jobs t ds ≡ next_jobs s ds)
unfolding next_jobs
All-IsPending j s t [] same a = (tt, refl)
All-IsPending j s t (f ∷ ds) (same, sames) a =
    let (more, rest) = All-IsPending j s t ds sames a.1 in
    let w = a.0.watching in
    (
      (
        record {
          watching = record {
            watcher = w.watcher;
            found = rw same w.found;
            unlocked = w.unlocked;
            watches = w.watches;
            seen = w.seen;
          };
          other = a.0.other;
          counts = rw same a.0.counts;
          bounded = rw same a.0.bounded;
        },
        more,
      ),
      rw (same, rest) refl,
    )

check_all-next_jobs :
    (fuel j : ℕ) (ds : List Dependent) (s : Workspace)
    → All (IsPending s j) ds
    → AreApart ds
    → (s.jobs j).state ≡ done
    → s.exit_mode ≡ ExitMode.none
    → (t : Workspace) × (check_all (check (suc fuel)) ds s ≡ Result.ok t)
      × (t.spawned ≡ s.spawned ++ next_jobs s ds)
      × (t.waiting_jobs ≡ s.waiting_jobs)
unfolding check_all next_jobs
check_all-next_jobs fuel j [] s a apart q mode = (s, refl, sym (append-nil s.spawned), refl)
check_all-next_jobs fuel j (e ∷ ds) s a apart q mode =
    let (u, first, woken) = check_one fuel j e s a.0 q mode in
    let (pending, same) =
      All-IsPending j s u ds (All-map ds (λ f ne. woken.others f.0 ne) apart.0) a.1 in
    let (t, rest, spawned, waits) =
      check_all-next_jobs fuel j ds u pending apart.1
        (ap (λ b. b.state) (woken.others j (λ k. a.0.other (sym k))) ∙ q) (woken.mode ∙ mode) in
    (
      t,
      rw first rest,
      rw (spawned, woken.spawns, same) (append_assoc s.spawned _ (next_jobs s ds)),
      waits ∙ woken.waits,
    )

-- When a job is done and the workspace is not in exit mode, and its dependents are different jobs,
-- none of them the job itself, that each saw it waiting without holding a lock, with a counter that is
-- above zero and below 2^64, then one unit of fuel is enough for `jobCompleted` to succeed, and it
-- takes the job out of the set of waiting jobs and starts exactly the dependents that counted one
-- unmet dependency, in order.
pub job_completed-next_jobs :
    (fuel j : ℕ) (s : Workspace)
    → (s.jobs j).state ≡ done
    → s.exit_mode ≡ ExitMode.none
    → All (IsPending s j) (s.jobs j).dependents
    → AreApart (s.jobs j).dependents
    → (t : Workspace) × (job_completed (check (suc fuel)) j s ≡ Result.ok t)
      × (t.spawned ≡ s.spawned ++ next_jobs s (s.jobs j).dependents)
      × (t.waiting_jobs ≡ erase j s.waiting_jobs)
unfolding job_completed job_finished next_jobs
job_completed-next_jobs fuel j s q mode pending apart =
    let ds = (s.jobs j).dependents in
    let (left, same) =
      All-IsPending j s (job_finished j s) ds (All-map ds (λ f p. refl) pending) pending in
    let (t, result, spawned, waits) =
      check_all-next_jobs fuel j ds (job_finished j s) left apart q mode in
    (t, result, rw same at spawned, waits)
