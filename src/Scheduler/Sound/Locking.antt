-- ===== src/Scheduler/Sound/Locking.antt =====
-- Locks and their release keep the invariant.
use experimaestro.Prelude.{
  ℕ, ◌-◌, ◌≡◌, refl, ap, subst, Bool, true, false, some, List, [], ◌∷◌, get_elem?, ltb, Bool-cases,
  Option-cases, inl, inr,
}
use experimaestro.Errors.{Result, ◌>>=◌, >>=-eq-ok, ok-injective}
use experimaestro.Scheduler.{
  Origin, job, token, Dependency, Token, Workspace, set_token, set_dependency,
}
use experimaestro.Scheduler.Checks.{Check}
use experimaestro.Scheduler.Locks.{l_acquire, release, lock, drop_owner, drop_all}
use experimaestro.Scheduler.Sound.{
  IsSound, CheckIsSound, jobs-IsSound, set_dependency-IsSound, check_all-IsSound,
}

module _ (c : Check) (sound : CheckIsSound c) where
  release-IsSound :
      (t value : ℕ) (s u : Workspace) → IsSound s → release c t value s ≡ Result.ok u → IsSound u
  unfolding release
  release-IsSound t value s u v e =
      check_all-IsSound c sound (s.tokens t).dependents _ u (jobs-IsSound s _ refl v) e

  dropped :
      (j i : ℕ) (d : Dependency) (s : Workspace)
      → get_elem? (s.jobs j).dependencies i ≡ some d
      → IsSound s
      → IsSound (set_dependency j i (record d { owners = d.owners - 1 }) s)
  dropped j i d s g v = set_dependency-IsSound j i d _ s g refl v

  last_owner :
      (j i : ℕ) (d : Dependency) (o : Origin) (s u : Workspace)
      → d.origin ≡ o
      → IsSound s
      → (elim d.origin as (λ _. Result Workspace) [
        | job _ ↦ Result.ok s
        | token t value ↦ release c t value s
      ])
        ≡ Result.ok u
      → IsSound u
  last_owner j i d (job k) s u q v e = subst IsSound (ok-injective (rw q at e)) v
  last_owner j i d (token t value) s u q v e = release-IsSound t value s u v (rw q at e)

  drop_owner-IsSound :
      (j i : ℕ) (d : Dependency) (o : Origin) (s u : Workspace)
      → d.origin ≡ o
      → get_elem? (s.jobs j).dependencies i ≡ some d
      → IsSound s
      → drop_owner c j i d s ≡ Result.ok u
      → IsSound u
  unfolding drop_owner
  drop_owner-IsSound j i d o s u q g v e = elim (Bool-cases (ltb 1 d.owners)) [
    | inl shared ↦ subst IsSound (ok-injective (rw (shared, drop_owner) at e)) (dropped j i d s g v)
    | inr last ↦ last_owner j i d o _ u q (dropped j i d s g v) (rw (last, drop_owner) at e)
  ]

  pub drop_all-IsSound :
      (j : ℕ) (is : List ℕ) (s u : Workspace)
      → IsSound s
      → drop_all c j is s ≡ Result.ok u
      → IsSound u
  unfolding drop_all
  drop_all-IsSound j [] s u v e = subst IsSound (ok-injective e) v
  drop_all-IsSound j (i ∷ is) s u v e = elim (Option-cases (get_elem? (s.jobs j).dependencies i)) [
    | inl missing ↦ drop_all-IsSound j is s u v (rw (missing, drop_all) at e)
    | inr (d, found) ↦
        let (w, first, rest) =
          >>=-eq-ok (drop_owner c j i d s) (drop_all c j is) (rw (found, drop_all) at e) in
        drop_all-IsSound j is w u (drop_owner-IsSound j i d d.origin s w refl found v first) rest
  ]

  acquired :
      (j i t : ℕ) (d : Dependency) (k : Token) (s : Workspace)
      → get_elem? (s.jobs j).dependencies i ≡ some d
      → IsSound s
      → IsSound (set_dependency j i (record d { owners = 1 }) (set_token t k s))
  acquired j i t d k s g v =
      set_dependency-IsSound j i d _ (set_token t k s) g refl (jobs-IsSound s _ refl v)

  new_lock :
      (j i : ℕ) (d : Dependency) (o : Origin) (s u : Workspace) (got : Bool)
      → d.origin ≡ o
      → get_elem? (s.jobs j).dependencies i ≡ some d
      → IsSound s
      → (elim d.origin as (λ _. Result (Workspace × Bool)) [
        | job _ ↦ Result.ok (s, false)
        | token t value ↦ l_acquire (s.tokens t) value >>= λ k.
            Result.ok (set_dependency j i (record d { owners = 1 }) (set_token t k s), true)
      ])
        ≡ Result.ok (u, got)
      → IsSound u
  new_lock j i d (job k) s u got q g v e =
      subst IsSound (ap (λ p. p.0) (ok-injective (rw q at e))) v
  new_lock j i d (token t value) s u got q g v e =
      let (w, first, rest) = (>>=-eq-ok (l_acquire (s.tokens t) value) _ (rw q at e)) in
      subst IsSound (ap (λ p. p.0) (ok-injective rest)) (acquired j i t d w s g v)

  -- What `lock` does to the workspace.
  pub lock-IsSound :
      (j i : ℕ) (d : Dependency) (o : Origin) (s u : Workspace) (got : Bool)
      → d.origin ≡ o
      → get_elem? (s.jobs j).dependencies i ≡ some d
      → IsSound s
      → lock j i d s ≡ Result.ok (u, got)
      → IsSound u
  unfolding lock
  lock-IsSound j i d o s u got q g v e = elim (Bool-cases (ltb 0 d.owners)) [
    | inl held ↦
        subst IsSound (ap (λ p. p.0) (ok-injective (rw (held, lock) at e)))
          (set_dependency-IsSound j i d _ s g refl v)
    | inr free ↦ new_lock j i d o s u got q g v (rw (free, lock) at e)
  ]
