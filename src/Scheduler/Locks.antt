-- ===== src/Scheduler/Locks.antt =====
-- `Dependency::lock`, the locks of counter tokens and of jobs, and their release.
use experimaestro.Prelude.{
  ℕ, zero, suc, ◌+◌, ◌-◌, ◌%◌, Bool, true, false, Option, List, [], ◌∷◌, ◌++◌, get_elem?, ltb,
  if◌then◌else◌,
}
use experimaestro.Errors.{Result, err, lock_error, ◌>>=◌}
use experimaestro.Scheduler.{
  job, token, Dependency, Token, Workspace, ready, set_token, set_dependency, set_state, u32_mod,
}
use experimaestro.Scheduler.Checks.{Check, check_all}

-- `CounterDependency::l_acquire`, in 32-bit arithmetic: the token it leaves.
unfoldable pub l_acquire : Token → ℕ → Result Token
l_acquire t value =
    if ltb t.limit ((value + t.used_tokens) % u32_mod)
    then err lock_error
    else Result.ok (record t { used_tokens = (t.used_tokens + value) % u32_mod })

-- The subtraction of `CounterDependency::release`.
unfoldable pub give_back : Token → ℕ → Token
give_back t value = record t { used_tokens = (t.used_tokens + u32_mod - value % u32_mod) % u32_mod }

-- `CounterDependency::release`
unfoldable pub release : Check → ℕ → ℕ → Workspace → Result Workspace
unfolding give_back
release check t value s =
    check_all check (s.tokens t).dependents (set_token t (give_back (s.tokens t) value) s)

-- `Dependency::lock`: the lock that is alive, or a new one. The Boolean says whether there is a lock:
-- a job dependency has none.
unfoldable pub lock : ℕ → ℕ → Dependency → Workspace → Result (Workspace × Bool)
unfolding l_acquire
lock j i d s =
    if ltb 0 d.owners
    then Result.ok (set_dependency j i (record d { owners = d.owners + 1 }) s, true)
    else elim d.origin [
      | job _ ↦ Result.ok (s, false)
      | token t value ↦ (do
        t' ← l_acquire (s.tokens t) value
        Result.ok (set_dependency j i (record d { owners = 1 }) (set_token t t' s), true))
    ]

-- A pointer to a lock goes: the last one releases the token.
unfoldable pub drop_owner : Check → ℕ → ℕ → Dependency → Workspace → Result Workspace
unfolding release
drop_owner check j i d s =
    let s' = set_dependency j i (record d { owners = d.owners - 1 }) s in
    if ltb 1 d.owners
    then Result.ok s'
    else elim d.origin [ job _ ↦ Result.ok s' | token t value ↦ release check t value s' ]

-- The vector of locks is cleared, from its front.
unfoldable pub drop_all : Check → ℕ → List ℕ → Workspace → Result Workspace
unfolding drop_owner
drop_all check j [] s = Result.ok s
drop_all check j (i ∷ is) s =
    let rest = drop_all check j is in
    elim (get_elem? (s.jobs j).dependencies i) [
      | Option.none ↦ rest s
      | Option.some d ↦ drop_owner check j i d s >>= rest
    ]

-- Part (1) of the thread of `Job::start`: the locks of all dependencies in turn, `left` of them from
-- place `i` on. When one cannot be had, its dependency is checked and the job is READY again. The
-- result has the places of the locks, and whether all could be had.
unfoldable pub lock_all :
    Check → ℕ → ℕ → ℕ → List ℕ → Workspace → Result (Workspace × List ℕ × Bool)
unfolding lock
lock_all check j zero i held s = Result.ok (s, held, true)
lock_all check j (suc left) i held s =
    let rest = lock_all check j left (suc i) in
    elim (get_elem? (s.jobs j).dependencies i) [
      | Option.none ↦ Result.ok (s, held, true)
      | Option.some d ↦ elim (lock j i d s) [
        | Result.ok (s', got) ↦ rest (if got then held ++ i ∷ [] else held) s'
        | err lock_error ↦ (check j i s >>= λ s'. Result.ok (set_state j ready s', held, false))
        | err e ↦ err e
      ]
    ]
