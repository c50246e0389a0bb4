-- ===== src/Samples/Submissions.antt =====
-- A map on its way to a job, and a job that ends.
use experimaestro.Prelude.{
  ℕ, ◌<◌, ◌≡◌, refl, sym, subst, some, [], ◌∷◌, codes, All, text_eq, lookup, arith,
}
use experimaestro.Errors.{Result, ok, err, ok-injective}
use experimaestro.Path.{FilePath, local}
use experimaestro.Scalar
use experimaestro.Scalar.{integer, is_null}
use experimaestro.Scheduler
use experimaestro.Scheduler.Jobs
use experimaestro.Scheduler.{waiting, done, ExitMode, Workspace}
use experimaestro.Scheduler.Checks.{check, job_completed, erase}
use experimaestro.Scheduler.Sound.{IsSound}
use experimaestro.Scheduler.Progress.{IsPending, next_jobs, job_completed-next_jobs}
use experimaestro.Types.{accepts, first_above, same}
use experimaestro.Value.{Value, map, no_entry}
use experimaestro.Value.Maps
use experimaestro.Value.Maps.{find, put, set}
use experimaestro.Value.Generation.{generate_own}
use experimaestro.Value.Configuration.{configure}
use experimaestro.Value.Dependencies.{jobs_of}
use experimaestro.Task.{Context, submit}
use experimaestro.Task.Submission.{submit-IsSound}
use experimaestro.Samples.Values.{halves}
use experimaestro.Samples.Jobs.{idle, idle-IsSound, chained, watching}
use experimaestro.Samples.Models.{schema, hash, nothing, empty_model, untagged, model}

abbrev context : Context halves
context = record {
  schema = schema;
  hash = hash;
  produce = nothing;
  levels = 2;
  fuel = 2;
  jobsdir = local (codes "/jobs");
  dependency_check = check 3;
}

abbrev submission : Result (FilePath × (Value ℕ × Workspace))
submission = submit halves context (codes "learn") 1 waiting 7 empty_model [] idle

abbrev submitted : FilePath × (Value ℕ × Workspace)
submitted = elim submission [ ok r ↦ r | err _ ↦ (local [], (empty_model, idle)) ]

-- The model with its task has no job inside, before and after it is configured.
learned :
    (v₁ v₂ : Value ℕ)
    → map 0 untagged (record model { task = some (codes "learn") }) no_entry ≡ v₁
    → configure halves schema nothing 2 2 v₁ ≡ ok v₂
    → All (λ k. k < 1) (jobs_of schema v₂)
unfolding configure jobs_of generate_own text_eq lookup Maps.equals Scalar.equals is_null accepts
    first_above same
learned v₁ v₂ equal e =
    subst (λ w. All (λ k. k < 1) (jobs_of schema w))
      (ok-injective (subst (λ w. configure halves schema nothing 2 2 w ≡ ok v₂) (sym equal) e)) tt

submit-IsSound_example : IsSound submitted.1.1
unfolding submit generate_own text_eq lookup Maps.equals Scalar.equals is_null accepts first_above
    same Scheduler.Jobs.submit
submit-IsSound_example =
    submit-IsSound halves context 3 (codes "learn") 1 waiting 7 empty_model [] idle submitted.1.1
      submitted.0 submitted.1.0 refl (λ v₁ v₂ t e. learned v₁ v₂ (ok-injective t) e) tt idle-IsSound
      refl

chained-IsPending : All (λ e. IsPending (chained done) 0 e) ((1, 0) ∷ [])
chained-IsPending = (
  record {
    watching = record {
      watcher = watching;
      found = refl;
      unlocked = refl;
      watches = refl;
      seen = refl;
    };
    other = λ e. absurd (omega (arith, e));
    counts = omega arith;
    bounded = omega arith;
  },
  tt,
)

job_completed-next_jobs_example :
    (t : Workspace) × (job_completed (check 1) 0 (chained done) ≡ ok t)
    × (t.spawned ≡ 1 ∷ [])
    × (t.waiting_jobs ≡ [])
unfolding next_jobs erase
job_completed-next_jobs_example =
    job_completed-next_jobs 0 0 (chained done) refl refl chained-IsPending (tt, tt)
