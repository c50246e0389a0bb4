-- ===== src/Task/Submission.antt =====
-- A submission against the invariant of the workspace.
use experimaestro.Prelude.{
  ℕ, ◌<◌, ◌≡◌, sym, ap, ◌∙◌, subst, List, [], ◌∷◌, ◌++◌, map, append_assoc, append-nil, Text, All,
}
use experimaestro.Errors.{ok, >>=-eq-ok, ok-injective}
use experimaestro.Path.{FilePath}
use experimaestro.Scalar.{Numbers}
use experimaestro.Scheduler
use experimaestro.Scheduler.{wait, JobState, Origin, Dependency, Workspace, update_self}
use experimaestro.Scheduler.Checks.{check}
use experimaestro.Scheduler.Jobs.{create, add_dependency}
use experimaestro.Scheduler.Sound
use experimaestro.Scheduler.Sound.{
  IsSound, IsOlder, check-IsSound, create-IsSound, add_dependency-IsSound,
}
use experimaestro.Value.{Value}
use experimaestro.Value.Arguments.{Schema}
use experimaestro.Value.Configuration.{configure}
use experimaestro.Value.Dependencies.{
  add_dependencies, jobs_of, waiting_on, add_dependencies-jobs_of,
}
use experimaestro.Value.Digest.{unique_identifier}
use experimaestro.Value.Locating.{local_name, generate_path}
use experimaestro.Task.{set_task, add_manual, make_job, Context, submit}

-- The dependency that `addDependency` makes of an origin.
abbrev made_of : Origin → Dependency
made_of o = record { origin = o; owners = 0; old_status = wait }

add_manual-dependencies :
    (j : ℕ) (origins : List Origin) (s : Workspace)
    → IsSound s
    → (((add_manual j origins s).jobs j).dependencies
        ≡ (s.jobs j).dependencies ++ map made_of origins)
      × IsSound (add_manual j origins s)
unfolding add_manual add_dependency
add_manual-dependencies j [] s sound = (sym (append-nil (s.jobs j).dependencies), sound)
add_manual-dependencies j (o ∷ origins) s sound =
    let (all, still) =
      add_manual-dependencies j origins (add_dependency j o s)
        (add_dependency-IsSound j o s sound) in
    (
      all
          ∙ ap (λ b. b.dependencies ++ map made_of origins) (update_self s.jobs j _)
          ∙ append_assoc (s.jobs j).dependencies (made_of o ∷ []) (map made_of origins),
      still,
    )

-- The dependencies of a new job: those that its value gives, and then the manual ones.
make_job-dependencies :
    {D : Type 0} (schema : Schema D) (j : ℕ) (state : JobState) (id : Text) (v : Value D)
    (origins : List Origin) (s : Workspace)
    → IsSound s
    → (((make_job schema j state id v origins s).jobs j).dependencies
        ≡ map waiting_on (jobs_of schema v) ++ map made_of origins)
      × IsSound (make_job schema j state id v origins s)
unfolding make_job create
make_job-dependencies schema j state id v origins s sound =
    let fresh = create-IsSound j id state s sound in
    let (own, sound') = add_dependencies-jobs_of schema j v (create j id state s) fresh in
    let (all, sound'') =
      add_manual-dependencies j origins (add_dependencies schema j v (create j id state s))
        sound' in
    (
      all
          ∙ ap (λ ds. ds ++ map made_of origins)
              (own
                ∙ ap (λ b. b.dependencies ++ map waiting_on (jobs_of schema v))
                    (update_self s.jobs j _)),
      sound'',
    )

All-append : {A : Type 0} (P : A → Type 0) (xs ys : List A) → All P xs → All P ys → All P (xs ++ ys)
All-append P [] ys a b = b
All-append P (x ∷ xs) ys a b = (a.0, All-append P xs ys a.1 b)

All-waiting_on :
    (j : ℕ) (ks : List ℕ) → All (λ k. k < j) ks → All (λ d. IsOlder j d.origin) (map waiting_on ks)
All-waiting_on j [] a = tt
All-waiting_on j (k ∷ ks) a = (a.0, All-waiting_on j ks a.1)

All-made_of :
    (j : ℕ) (os : List Origin) → All (IsOlder j) os → All (λ d. IsOlder j d.origin) (map made_of os)
All-made_of j [] a = tt
All-made_of j (o ∷ os) a = (a.0, All-made_of j os a.1)

-- Where the jobs of the configured value, and the jobs that the manual dependencies are on, come before the new job, and in the
-- workspace every counter is right and every dependent comes behind the job it is on, that is so in the workspace that a
-- submission returns.
pub submit-IsSound :
    (m : Numbers) (c : Context m) (n : ℕ) (identifier : Text) (j : ℕ) (state : JobState) (now : ℕ)
    (v : Value m.Double) (origins : List Origin) (s s' : Workspace) (place : FilePath)
    (t : Value m.Double)
    → c.dependency_check ≡ check n
    → ((v₁ v₂ : Value m.Double)
        → set_task identifier v ≡ ok v₁
        → configure m c.schema c.produce c.levels c.fuel v₁ ≡ ok v₂
        → All (λ k. k < j) (jobs_of c.schema v₂))
    → All (IsOlder j) origins
    → IsSound s
    → submit m c identifier j state now v origins s ≡ ok (place, (t, s'))
    → IsSound s'
unfolding submit
submit-IsSound m c n identifier j state now v origins s s' place t q older manual sound e =
    let (v₁, task, rest) = >>=-eq-ok (set_task identifier v) _ e in
    let (p, _, rest') =
      >>=-eq-ok (generate_path c.schema c.hash c.jobsdir (local_name identifier) v₁) _ rest in
    let (v₂, configured, rest'') =
      >>=-eq-ok (configure m c.schema c.produce c.levels c.fuel v₁) _ rest' in
    let made = make_job c.schema j state (unique_identifier c.schema c.hash v₁) v₂ origins s in
    let (w, submitted, last) =
      >>=-eq-ok (Scheduler.Jobs.submit c.dependency_check j now made) _ rest'' in
    let (dependencies, sound') =
      make_job-dependencies c.schema j state (unique_identifier c.schema c.hash v₁) v₂ origins s
        sound in
    let behind = subst (All (λ d. IsOlder j d.origin)) (sym dependencies) (
      All-append (λ d. IsOlder j d.origin) (map waiting_on (jobs_of c.schema v₂))
        (map made_of origins) (All-waiting_on j (jobs_of c.schema v₂) (older v₁ v₂ task configured))
        (All-made_of j origins manual)) in
    subst IsSound (ap (λ r. r.1.1) (ok-injective last)) (
      Sound.submit-IsSound (check n) (check-IsSound n) j now made w behind sound'
        (subst (λ k. Scheduler.Jobs.submit k j now made ≡ ok w) q submitted))
