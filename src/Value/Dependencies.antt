-- ===== src/Value/Dependencies.antt =====
-- `addDependencies` of src/xpm.cpp, which `CommandLineJob::init` calls for the parameters of a job: it
-- adds to the job a dependency on each job whose value it finds.
use experimaestro.Prelude.{
  ℕ, ◌≡◌, refl, sym, ap, ◌∙◌, none, some, List, [], ◌∷◌, ◌++◌, map, append_assoc, append-nil,
  Bool-cases, Option-cases, inl, inr, if◌then◌else◌,
}
use experimaestro.Scheduler
use experimaestro.Scheduler.{wait, Dependency, Workspace, update_self}
use experimaestro.Scheduler.Jobs.{add_dependency}
use experimaestro.Scheduler.Sound.{IsSound, add_dependency-IsSound}
use experimaestro.Value.{
  Value, scalar, array, Values, no_value, next_value, Entries, no_entry, next_entry,
}
use experimaestro.Value.Arguments.{Schema}
use experimaestro.Value.Digest.{can_ignore}

module _ {D : Type 0} (schema : Schema D) where
  -- `addDependencies` for the job `j`. A map overrides it, and does not ask `canIgnore`.
  unfoldable mutual
    unfolding can_ignore add_dependency

    pub add_dependencies : ℕ → Value D → Workspace → Workspace
    add_dependencies j (scalar flags tag content) s = s
    add_dependencies j (array flags x c elements) s =
        let children = add_elements j elements s in
        if can_ignore schema (array flags x c elements) then s else children
    add_dependencies j (Value.map flags x i entries) s =
        let children = add_entries j entries s in
        elim i.job [ some k ↦ add_dependency j (Scheduler.job k) s | none ↦ children ]

    pub add_elements : ℕ → Values D → Workspace → Workspace
    add_elements j no_value s = s
    add_elements j (next_value v rest) s = add_elements j rest (add_dependencies j v s)

    pub add_entries : ℕ → Entries D → Workspace → Workspace
    add_entries j no_entry s = s
    add_entries j (next_entry key v rest) s = add_entries j rest (add_dependencies j v s)

  -- The jobs of a value, from left to right: that of a map that has one, and else those of its children,
  -- except below an array that can be ignored.
  unfoldable mutual
    pub jobs_of : Value D → List ℕ
    jobs_of (scalar flags tag content) = []
    jobs_of (array flags x c elements) =
        let children = jobs_of_elements elements in
        if can_ignore schema (array flags x c elements) then [] else children
    jobs_of (Value.map flags x i entries) =
        let children = jobs_of_entries entries in elim i.job [ some k ↦ k ∷ [] | none ↦ children ]

    pub jobs_of_elements : Values D → List ℕ
    jobs_of_elements no_value = []
    jobs_of_elements (next_value v rest) = jobs_of v ++ jobs_of_elements rest

    pub jobs_of_entries : Entries D → List ℕ
    jobs_of_entries no_entry = []
    jobs_of_entries (next_entry key v rest) = jobs_of v ++ jobs_of_entries rest

-- `addDependency` for each of some jobs.
unfoldable pub add_all : ℕ → List ℕ → Workspace → Workspace
unfolding add_dependency
add_all j [] s = s
add_all j (k ∷ ks) s = add_all j ks (add_dependency j (Scheduler.job k) s)

add_all-append :
    (j : ℕ) (ks ls : List ℕ) (s : Workspace)
    → add_all j (ks ++ ls) s ≡ add_all j ls (add_all j ks s)
unfolding add_all
add_all-append j [] ls s = refl
add_all-append j (k ∷ ks) ls s = add_all-append j ks ls (add_dependency j (Scheduler.job k) s)

module _ {D : Type 0} (schema : Schema D) where
  mutual
    unfolding add_dependencies jobs_of add_all

    add_dependencies-add_all :
        (j : ℕ) (v : Value D) (s : Workspace)
        → add_dependencies schema j v s ≡ add_all j (jobs_of schema v) s
    add_dependencies-add_all j (scalar flags tag content) s = refl
    add_dependencies-add_all j (array flags x c elements) s =
        elim (Bool-cases (can_ignore schema (array flags x c elements))) [
          | inl skip ↦ rw (skip, add_dependencies, jobs_of) refl
          | inr more ↦ rw (more, add_dependencies, jobs_of) (add_elements-add_all j elements s)
        ]
    add_dependencies-add_all j (Value.map flags x i entries) s = elim (Option-cases i.job) [
      | inl none_there ↦
          rw (none_there, add_dependencies, jobs_of) (add_entries-add_all j entries s)
      | inr (k, has) ↦ rw (has, add_dependencies, jobs_of, add_all) refl
    ]

    add_elements-add_all :
        (j : ℕ) (vs : Values D) (s : Workspace)
        → add_elements schema j vs s ≡ add_all j (jobs_of_elements schema vs) s
    add_elements-add_all j no_value s = refl
    add_elements-add_all j (next_value v rest) s =
        add_elements-add_all j rest (add_dependencies schema j v s)
        ∙ ap (add_all j (jobs_of_elements schema rest)) (add_dependencies-add_all j v s)
        ∙ sym (add_all-append j (jobs_of schema v) (jobs_of_elements schema rest) s)

    add_entries-add_all :
        (j : ℕ) (es : Entries D) (s : Workspace)
        → add_entries schema j es s ≡ add_all j (jobs_of_entries schema es) s
    add_entries-add_all j no_entry s = refl
    add_entries-add_all j (next_entry key v rest) s =
        add_entries-add_all j rest (add_dependencies schema j v s)
        ∙ ap (add_all j (jobs_of_entries schema rest)) (add_dependencies-add_all j v s)
        ∙ sym (add_all-append j (jobs_of schema v) (jobs_of_entries schema rest) s)

-- A dependency on a job that was just added.
abbrev pub waiting_on : ℕ → Dependency
waiting_on k = record { origin = Scheduler.job k; owners = 0; old_status = wait }

add_all-dependencies :
    (j : ℕ) (ks : List ℕ) (s : Workspace)
    → ((add_all j ks s).jobs j).dependencies ≡ (s.jobs j).dependencies ++ map waiting_on ks
unfolding add_all add_dependency
add_all-dependencies j [] s = sym (append-nil (s.jobs j).dependencies)
add_all-dependencies j (k ∷ ks) s =
    add_all-dependencies j ks (add_dependency j (Scheduler.job k) s)
    ∙ ap (λ b. b.dependencies ++ map waiting_on ks) (update_self s.jobs j _)
    ∙ append_assoc (s.jobs j).dependencies (waiting_on k ∷ []) (map waiting_on ks)

add_all-IsSound : (j : ℕ) (ks : List ℕ) (s : Workspace) → IsSound s → IsSound (add_all j ks s)
unfolding add_all
add_all-IsSound j [] s sound = sound
add_all-IsSound j (k ∷ ks) s sound =
    add_all-IsSound j ks (add_dependency j (Scheduler.job k) s)
      (add_dependency-IsSound j (Scheduler.job k) s sound)

-- `addDependencies` adds to the dependencies of the job one on each of the jobs of the value, from left
-- to right and waiting; where every counter was right and every dependent came behind the job it is on,
-- that is so afterwards.
pub add_dependencies-jobs_of :
    {D : Type 0} (schema : Schema D) (j : ℕ) (v : Value D) (s : Workspace)
    → IsSound s
    → (((add_dependencies schema j v s).jobs j).dependencies
        ≡ (s.jobs j).dependencies ++ map waiting_on (jobs_of schema v))
      × IsSound (add_dependencies schema j v s)
add_dependencies-jobs_of schema j v s sound =
    rw (add_dependencies-add_all schema j v s)
      (add_all-dependencies j (jobs_of schema v) s, add_all-IsSound j (jobs_of schema v) s sound)
