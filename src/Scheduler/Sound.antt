-- ===== src/Scheduler/Sound.antt =====
-- The invariant of a workspace, and the steps that change one part of it.
pub mod Locking
pub mod Running
use experimaestro.Prelude.{
  ℕ, zero, suc, ◌+◌, ◌-◌, ◌%◌, ◌≤◌, ◌<◌, ◌≡◌, ◌≢◌, refl, sym, ap, ◌∙◌, subst, Bool, true, false,
  Option, none, some, List, [], ◌∷◌, ◌++◌, Text, lookup, All, get_elem?, set, ltb, ◌==◌,
  if◌then◌else◌, arith, Bool-cases, Option-cases, ◌⊎◌, inl, inr,
}
use experimaestro.Errors.{Result, err, ◌>>=◌, >>=-eq-ok, ok-injective}
use experimaestro.Scheduler.{
  DependencyStatus, wait, ok, fail, JobState, ExitMode, error, Origin, job, token, Dependency,
  Dependent, Job, Workspace, set_job, set_dependency, set_state, u64_mod, update, update_elim,
}
use experimaestro.Scheduler.Checks.{
  value, start, job_finished, Check, check_all, job_completed, check,
}
use experimaestro.Scheduler.Jobs.{
  create, add_dependency, same_dependent, put_dependent, add_dependent, register_all, enter,
  is_free, submit,
}
use experimaestro.Scheduler.Counted.{unmet, unmet-set, IsCounted, IsOrdered, Keeps}
use experimaestro.Scheduler.Counted.Changes.{start_cases}
use experimaestro.Scheduler.Counted.Checking.{check-Keeps}

-- Every counter is right, and a dependent comes behind the job it is on.
pub record IsSound (s : Workspace) : Type 0 where
  pub counted : (j : ℕ) → IsCounted (s.jobs j)
  pub ordered : IsOrdered s

abbrev pub CheckIsSound : Check → Type 0
CheckIsSound c = (j i : ℕ) (s t : Workspace) → IsSound s → c j i s ≡ Result.ok t → IsSound t

pub check-IsSound : (fuel : ℕ) → CheckIsSound (check fuel)
check-IsSound fuel j i s t v e =
    let k = check-Keeps fuel 0 j i s t (omega arith) (λ l _. v.counted l) v.ordered e in
    record { counted = λ l. k.counted l (omega arith); ordered = k.ordered }

pub jobs-IsSound : (s t : Workspace) → t.jobs ≡ s.jobs → IsSound s → IsSound t
jobs-IsSound s t e v = record {
  counted = λ j. rw e (v.counted j);
  ordered = λ j. rw e (v.ordered j);
}

-- A job is replaced by one whose counter is right and whose dependents are in order.
pub set_job-IsSound :
    (j : ℕ) (b : Job) (s : Workspace)
    → IsCounted b
    → All (λ e. j < e.0) b.dependents
    → IsSound s
    → IsSound (set_job j b s)
set_job-IsSound j b s h o v = record {
  counted = λ k. update_elim s.jobs j b IsCounted k (λ _. h) (λ _. v.counted k);
  ordered = λ k.
      update_elim s.jobs j b (λ b. All (λ e. k < e.0) b.dependents) k
        (λ q. subst (λ l. All (λ e. l < e.0) b.dependents) q o) (λ _. v.ordered k);
}

pub set_state-IsSound :
    (j : ℕ) (state : JobState) (s : Workspace) → IsSound s → IsSound (set_state j state s)
set_state-IsSound j state s v = set_job-IsSound j _ s (v.counted j) (v.ordered j) v

-- A dependency keeps its status.
pub set_dependency-IsSound :
    (j i : ℕ) (d e : Dependency) (s : Workspace)
    → get_elem? (s.jobs j).dependencies i ≡ some d
    → e.old_status ≡ d.old_status
    → IsSound s
    → IsSound (set_dependency j i e s)
set_dependency-IsSound j i d e s g q v =
    set_job-IsSound j _ s
      (omega (arith, v.counted j, unmet-set (s.jobs j).dependencies i d e g, ap value q))
      (v.ordered j) v

pub create-IsSound :
    (j : ℕ) (id : Text) (state : JobState) (s : Workspace)
    → IsSound s
    → IsSound (create j id state s)
unfolding create unmet
create-IsSound j id state s v = set_job-IsSound j _ s (omega arith) tt v

unmet-snoc :
    (ds : List Dependency) (d : Dependency)
    → unmet (ds ++ d ∷ []) ≡ unmet ds + (1 - value d.old_status)
unfolding unmet
unmet-snoc [] d = omega arith
unmet-snoc (x ∷ xs) d = omega (arith, unmet-snoc xs d)

pub add_dependency-IsSound :
    (j : ℕ) (o : Origin) (s : Workspace) → IsSound s → IsSound (add_dependency j o s)
unfolding add_dependency value
add_dependency-IsSound j o s v =
    set_job-IsSound j _ s
      (omega (
        arith,
        v.counted j,
        unmet-snoc (s.jobs j).dependencies (record { origin = o; owners = 0; old_status = wait }),
      ))
      (v.ordered j) v

module _ (c : Check) (sound : CheckIsSound c) where
  pub check_all-IsSound :
      (ds : List Dependent) (s t : Workspace)
      → IsSound s
      → check_all c ds s ≡ Result.ok t
      → IsSound t
  unfolding check_all
  check_all-IsSound [] s t v e = subst IsSound (ok-injective e) v
  check_all-IsSound ((j, i) ∷ ds) s t v e =
      let (u, first, rest) = >>=-eq-ok (c j i s) (check_all c ds) e in
      check_all-IsSound ds u t (sound j i s u v first) rest

  pub job_completed-IsSound :
      (j : ℕ) (s t : Workspace) → IsSound s → job_completed c j s ≡ Result.ok t → IsSound t
  unfolding job_completed job_finished
  job_completed-IsSound j s t v e =
      check_all-IsSound (s.jobs j).dependents (job_finished j s) t (jobs-IsSound s _ refl v) e

pub start-IsSound : (j : ℕ) (s t : Workspace) → IsSound s → start j s ≡ Result.ok t → IsSound t
start-IsSound j s t v e = elim (start_cases j s t s.exit_mode refl e) [
  | inl same ↦ jobs-IsSound s t same v
  | inr failed ↦ jobs-IsSound (set_state j error s) t failed (set_state-IsSound j error s v)
]

-- A job depends on jobs that were created before it.
abbrev pub IsOlder : ℕ → Origin → Type 0
IsOlder j (job o) = o < j
IsOlder j (token t value) = Unit {0}

All-put_dependent :
    (o : ℕ) (e : Dependent) (ds : List Dependent)
    → o < e.0
    → All (λ d. o < d.0) ds
    → All (λ d. o < d.0) (put_dependent e ds)
unfolding put_dependent
All-put_dependent o e [] h a = (h, tt)
All-put_dependent o e (d ∷ ds) h a = elim (Bool-cases (same_dependent d e)) [
  | inl same ↦ rw (same, put_dependent) (h, a.1)
  | inr new ↦ rw (new, put_dependent) (a.0, All-put_dependent o e ds h a.1)
]

add_dependent-IsSound :
    (o : Origin) (j i : ℕ) (s : Workspace)
    → IsOlder j o
    → IsSound s
    → IsSound (add_dependent o (j, i) s)
unfolding add_dependent
add_dependent-IsSound (job o) j i s h v =
    set_job-IsSound o _ s (v.counted o)
      (All-put_dependent o (j, i) (s.jobs o).dependents h (v.ordered o)) v
add_dependent-IsSound (token t value) j i s h v = jobs-IsSound s _ refl v

enter-IsSound : (j now : ℕ) (s : Workspace) → IsSound s → IsSound (enter j now s)
unfolding enter
enter-IsSound j now s v =
    jobs-IsSound (set_job j (record (s.jobs j) { submission_time = now }) s) _ refl
      (set_job-IsSound j _ s (v.counted j) (v.ordered j) v)

start_if-IsSound :
    (b : Bool) (j : ℕ) (s t : Workspace)
    → IsSound s
    → (if b then start j s else Result.ok s) ≡ Result.ok t
    → IsSound t
start_if-IsSound true j s t v e = start-IsSound j s t v e
start_if-IsSound false j s t v e = subst IsSound (ok-injective e) v

module _ (c : Check) (sound : CheckIsSound c) where
  register_all-IsSound :
      (j : ℕ) (ds : List Dependency) (i : ℕ) (s t : Workspace)
      → All (λ d. IsOlder j d.origin) ds
      → IsSound s
      → register_all c j ds i s ≡ Result.ok t
      → IsSound t
  unfolding register_all
  register_all-IsSound j [] i s t a v e = subst IsSound (ok-injective e) v
  register_all-IsSound j (d ∷ ds) i s t a v e =
      let (u, first, rest) =
        >>=-eq-ok (c j i (add_dependent d.origin (j, i) s)) (register_all c j ds (suc i)) e in
      register_all-IsSound j ds (suc i) u t a.1
        (sound j i _ u (add_dependent-IsSound d.origin j i s a.0 v) first) rest

  pub submit-IsSound :
      (j now : ℕ) (s t : Workspace)
      → All (λ d. IsOlder j d.origin) (s.jobs j).dependencies
      → IsSound s
      → submit c j now s ≡ Result.ok t
      → IsSound t
  unfolding submit
  submit-IsSound j now s t a v e = elim (Option-cases (lookup (s.jobs j).job_id s.registered)) [
    | inr (_, known) ↦ subst IsSound (ok-injective (rw (known, submit) at e)) v
    | inl new ↦
        let (u, first, rest) =
          >>=-eq-ok (register_all c j (s.jobs j).dependencies 0 (enter j now s)) _
            (rw (new, submit) at e) in
        let w =
          register_all-IsSound j (s.jobs j).dependencies 0 (enter j now s) u a
            (enter-IsSound j now s v) first in
        start_if-IsSound (is_free (record u { mutex = false }) j) j (record u { mutex = false }) t
          (jobs-IsSound u _ refl w) rest
  ]
