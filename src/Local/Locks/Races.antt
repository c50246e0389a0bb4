-- ===== src/Local/Locks/Races.antt =====
-- What a client of a lock misses when the lock is released between two of its steps.
use mathlib.Core.Option.{some-injective, none-ne-some}
use experimaestro.Prelude.{
  ℕ, zero, suc, ◌≡◌, ◌≢◌, refl, sym, ap, ◌∙◌, subst, Bool, true, false, some, List, [], ◌∷◌, map,
  get_elem?, set, inl, inr, true-ne-false, ◌==◌, Bool-cases, ==_iff,
}
use experimaestro.Connector.{unexisting}
use experimaestro.Local.Locks.{
  Phase, opening, looking, registering, waiting, holding, detached, released, failed, timed_out,
  Lockers, after_look, hear, remove_file, move, IsAt, Step, opens, fails_to_open, looks, registers,
  wakes, times_out, detaches, releases, script_removes, Reach, here, next,
}

-- A phase that a client does not leave by itself when its wait has no duration.
abbrev pub IsResting : Phase → Type 0
IsResting (waiting deleted) = deleted ≡ false
IsResting released = Unit {0}
IsResting failed = Unit {0}
IsResting timed_out = Unit {0}
IsResting _ = ⊥

-- A phase at the end of `lock`, or behind the release.
abbrev pub IsFinished : Phase → Type 0
IsFinished released = Unit {0}
IsFinished failed = Unit {0}
IsFinished timed_out = Unit {0}
IsFinished _ = ⊥

abbrev pub AllResting : Lockers → Type 0
AllResting s = (k : ℕ) (p : Phase) → IsAt s k p → IsResting p

-- No step leads out of a state where all clients rest.
Step-resting : {s t : Lockers} → AllResting s → Step false s t → ⊥
Step-resting r (opens i at) = r i opening at
Step-resting r (fails_to_open i at) = r i opening at
Step-resting r (looks i at) = r i looking at
Step-resting r (registers i at) = r i registering at
Step-resting r (wakes i at) = true-ne-false (r i (waiting true) at)
Step-resting r (times_out i h at) = true-ne-false (sym h)
Step-resting r (detaches i at) = r i holding at
Step-resting r (releases i at) = r i holding at
Step-resting r (script_removes i at) = r i detached at

Reach-resting : {s t : Lockers} → AllResting s → Reach false s t → t ≡ s
Reach-resting r here = refl
Reach-resting {s} r (next {t} before step) =
    absurd (Step-resting (subst AllResting (sym (Reach-resting r before)) r) step)

get_elem?-set_self :
    (ps : List Phase) (i : ℕ) (p q : Phase)
    → get_elem? ps i ≡ some p
    → get_elem? (set ps i q) i ≡ some q
get_elem?-set_self [] i p q e = absurd (none-ne-some _ e)
get_elem?-set_self (x ∷ ps) zero p q e = refl
get_elem?-set_self (x ∷ ps) (suc i) p q e = get_elem?-set_self ps i p q e

get_elem?-set_ne :
    (ps : List Phase) (i k : ℕ) (q : Phase) → i ≢ k → get_elem? (set ps i q) k ≡ get_elem? ps k
get_elem?-set_ne [] i k q n = refl
get_elem?-set_ne (x ∷ ps) zero zero q n = absurd (n refl)
get_elem?-set_ne (x ∷ ps) zero (suc k) q n = refl
get_elem?-set_ne (x ∷ ps) (suc i) zero q n = refl
get_elem?-set_ne (x ∷ ps) (suc i) (suc k) q n = get_elem?-set_ne ps i k q (λ e. n (ap suc e))

get_elem?-hear :
    (ps : List Phase) (k : ℕ) (p : Phase)
    → get_elem? (map hear ps) k ≡ some p
    → (q : Phase) × (get_elem? ps k ≡ some q) × (hear q ≡ p)
get_elem?-hear [] k p e = absurd (none-ne-some _ e)
get_elem?-hear (x ∷ ps) zero p e = (x, refl, some-injective _ _ e)
get_elem?-hear (x ∷ ps) (suc k) p e = get_elem?-hear ps k p e

hear-get_elem? :
    (ps : List Phase) (k : ℕ) (q : Phase)
    → get_elem? ps k ≡ some q
    → get_elem? (map hear ps) k ≡ some (hear q)
hear-get_elem? [] k q e = absurd (none-ne-some _ e)
hear-get_elem? (x ∷ ps) zero q e = ap (λ p. some (hear p)) (some-injective _ _ e)
hear-get_elem? (x ∷ ps) (suc k) q e = hear-get_elem? ps k q e

-- The state after `j` has released the lock and `i` has made its watcher.
abbrev pub missed : ℕ → ℕ → Lockers → Lockers
missed i j s = move i (waiting false) (remove_file (move j released s))

module _ (s : Lockers) (i j : ℕ) (apart : j ≢ i) (at_i : IsAt s i registering)
    (at_j : IsAt s j holding) where
  waiter_released : IsAt (remove_file (move j released s)) i registering
  unfolding remove_file move hear
  waiter_released =
      hear-get_elem? (set s.clients j released) i registering
        (get_elem?-set_ne s.clients j i released apart ∙ at_i)

  missed-resting :
      ((k : ℕ) (p : Phase) → k ≢ i → k ≢ j → IsAt s k p → IsFinished p) → AllResting (missed i j s)
  unfolding remove_file move hear
  missed-resting finished k p e = elim (Bool-cases (k == i)) [
    | inl same ↦
        let k_is_i : k ≡ i = (==_iff k i).0 same in
        subst IsResting
          (some-injective _ _ (
            sym (
              get_elem?-set_self (map hear (set s.clients j released)) i registering (waiting false)
                waiter_released)
            ∙ ap (λ n. get_elem? (missed i j s).clients n) (sym k_is_i)
            ∙ e))
          refl
    | inr other ↦
        let k_not_i : k ≢ i = λ h. true-ne-false (sym ((==_iff k i).1 h) ∙ other) in
        let heard =
          sym (
            get_elem?-set_ne (map hear (set s.clients j released)) i k (waiting false)
              (λ h. k_not_i (sym h)))
          ∙ e in
        let (q, found, last) = get_elem?-hear (set s.clients j released) k p heard in
        subst IsResting last (
          rests q (elim (Bool-cases (k == j)) [
            | inl same ↦
                subst IsFinished
                  (some-injective _ _ (
                    sym (get_elem?-set_self s.clients j holding released at_j)
                    ∙ ap (λ n. get_elem? (set s.clients j released) n) (sym ((==_iff k j).0 same))
                    ∙ found))
                  tt
            | inr apart' ↦
                let k_not_j : k ≢ j = λ h. true-ne-false (sym ((==_iff k j).1 h) ∙ apart') in
                finished k q k_not_i k_not_j
                  (sym (get_elem?-set_ne s.clients j k released (λ h. k_not_j (sym h))) ∙ found)
          ]))
  ]
    where
      rests : (q : Phase) → IsFinished q → IsResting (hear q)
      rests released f = tt
      rests failed f = tt
      rests timed_out f = tt
      rests opening f = absurd f
      rests looking f = absurd f
      rests registering f = absurd f
      rests (waiting deleted) f = absurd f
      rests holding f = absurd f
      rests detached f = absurd f

  -- A client that found the lock file and has not made its watcher yet, and another that has the lock,
  -- while all others are done: the second may release the lock before the first makes its watcher.
  -- Then the path is free, and without a duration the first waits forever: no step is left.
  pub lock_misses :
      ((k : ℕ) (p : Phase) → k ≢ i → k ≢ j → IsAt s k p → IsFinished p)
      → Reach false s (missed i j s)
        × ((missed i j s).path ≡ unexisting)
        × IsAt (missed i j s) i (waiting false)
        × ((t : Lockers) → Reach false (missed i j s) t → t ≡ missed i j s)
  unfolding remove_file move hear
  lock_misses finished = (
    next (next here (releases j at_j)) (registers i waiter_released),
    refl,
    get_elem?-set_self (map hear (set s.clients j released)) i registering (waiting false)
        waiter_released,
    λ t r. Reach-resting (missed-resting finished) r,
  )

-- A client that could not make the lock file and has not looked at it yet, and another that has the
-- lock: the second may release the lock before the first looks. Then the path is free, and `lock`
-- throws all the same.
pub lock_throws :
    (timed : Bool) (s : Lockers) (i j : ℕ)
    → j ≢ i
    → IsAt s i looking
    → IsAt s j holding
    → (t : Lockers) × Reach timed s t × (t.path ≡ unexisting) × IsAt t i failed
unfolding remove_file move hear after_look
lock_throws timed s i j apart at_i at_j = (
  move i failed (remove_file (move j released s)),
  next (next here (releases j at_j)) (looks i at_released),
  refl,
  get_elem?-set_self (map hear (set s.clients j released)) i looking failed at_released,
)
  where
    at_released : IsAt (remove_file (move j released s)) i looking
    at_released =
        hear-get_elem? (set s.clients j released) i looking
          (get_elem?-set_ne s.clients j i released apart ∙ at_i)
