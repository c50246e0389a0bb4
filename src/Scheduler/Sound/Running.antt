-- ===== src/Scheduler/Sound/Running.antt =====
-- The threads of the jobs keep the invariant.
use experimaestro.Prelude.{
  ℕ, zero, suc, ◌≡◌, refl, ap, subst, Bool, true, false, not, ◌||◌, Option, none, some, List, [],
  get_elem?, length, Bool-cases, Option-cases, inl, inr,
}
use experimaestro.Errors.{
  Result, Result-cases, Error, err, lock_error, ◌>>=◌, >>=-eq-ok, ok-injective, err-ne-ok,
}
use experimaestro.Scheduler.{ready, done, running, Thread, Workspace, set_state}
use experimaestro.Scheduler.Checks.{Check, job_completed}
use experimaestro.Scheduler.Locks.{lock, drop_all, lock_all}
use experimaestro.Scheduler.Threads.{
  Exit, exit_state, Surroundings, already_done, run, run_locked, begin, finish,
}
use experimaestro.Scheduler.Sound.{
  IsSound, CheckIsSound, jobs-IsSound, set_state-IsSound, job_completed-IsSound,
}
use experimaestro.Scheduler.Sound.Locking.{lock-IsSound, drop_all-IsSound}

module _ (c : Check) (sound : CheckIsSound c) where
  -- The attempt of one lock, with the outcome of `lock` named.
  lock_all-IsSound :
      (j left i : ℕ) (held : List ℕ) (s u : Workspace) (places : List ℕ) (all_locked : Bool)
      → IsSound s
      → lock_all c j left i held s ≡ Result.ok (u, places, all_locked)
      → IsSound u
  unfolding lock_all
  lock_all-IsSound j zero i held s u p b v e = subst IsSound (ap (λ p. p.0) (ok-injective e)) v
  lock_all-IsSound j (suc left) i held s u p b v e =
      elim (Option-cases (get_elem? (s.jobs j).dependencies i)) [
        | inl missing ↦ subst IsSound (ap (λ p. p.0) (ok-injective (rw (missing, lock_all) at e))) v
        | inr (d, found) ↦ elim (Result-cases (lock j i d s)) [
          | inl ((w, got), locked) ↦
              lock_all-IsSound j left (suc i) _ w u p b
                (lock-IsSound c sound j i d d.origin s w got refl found v locked)
                (rw (found, locked, lock_all) at e)
          | inr (x, failed) ↦ refused x (rw (found, failed, lock_all) at e)
        ]
      ]
    where
      refused :
          (x : Error)
          → (elim x as (λ _. Result (Workspace × List ℕ × Bool)) [
            | lock_error ↦ (c j i s >>= λ s'. Result.ok (set_state j ready s', held, false))
            | e ↦ err e
          ])
            ≡ Result.ok (u, p, b)
          → IsSound u
      refused lock_error e =
          let (w, first, rest) = >>=-eq-ok (c j i s) _ e in
          subst IsSound (ap (λ p. p.0) (ok-injective rest))
            (set_state-IsSound j ready w (sound j i s w v first))
      refused x e = absurd (err-ne-ok e)

  already_done-IsSound :
      (j : ℕ) (file : Bool) (process : Option Exit) (s u : Workspace) (b : Bool)
      → IsSound s
      → already_done c j file process s ≡ Result.ok (u, b)
      → IsSound u
  unfolding already_done
  already_done-IsSound j true process s u b v e =
      let (w, first, rest) = >>=-eq-ok (job_completed c j (set_state j done s)) _ e in
      subst IsSound (ap (λ p. p.0) (ok-injective rest)) (
        job_completed-IsSound c sound j (set_state j done s) w (set_state-IsSound j done s v) first)
  already_done-IsSound j false (some x) s u b v e =
      subst IsSound (ap (λ p. p.0) (ok-injective e)) (set_state-IsSound j (exit_state x) s v)
  already_done-IsSound j false none s u b v e = subst IsSound (ap (λ p. p.0) (ok-injective e)) v

  run_locked-IsSound :
      (m : Surroundings) (j : ℕ) (s u : Workspace) (b : Bool)
      → IsSound s
      → run_locked c m j s ≡ Result.ok (u, b)
      → IsSound u
  unfolding run_locked
  run_locked-IsSound m j s u b v e =
      let ((w, again), first, rest) =
        >>=-eq-ok (already_done c j m.done_file_again m.process_again s) _ e in
      let sound_w = already_done-IsSound j m.done_file_again m.process_again s w again v first in
      elim (Bool-cases (again || not m.start_locked)) [
        | inl stop ↦ subst IsSound (ap (λ p. p.0) (ok-injective (rw stop at rest))) sound_w
        | inr go ↦
            subst IsSound (ap (λ p. p.0) (ok-injective (rw go at rest)))
              (set_state-IsSound j running w sound_w)
      ]

  run-IsSound :
      (m : Surroundings) (j : ℕ) (s u : Workspace) (b : Bool)
      → IsSound s
      → run c m j s ≡ Result.ok (u, b)
      → IsSound u
  unfolding run
  run-IsSound m j s u b v e =
      let ((w, finished), first, rest) = >>=-eq-ok (already_done c j m.done_file m.process s) _ e in
      let sound_w = already_done-IsSound j m.done_file m.process s w finished v first in
      elim (Bool-cases (finished || not m.locked)) [
        | inl stop ↦ subst IsSound (ap (λ p. p.0) (ok-injective (rw stop at rest))) sound_w
        | inr go ↦ run_locked-IsSound m j w u b sound_w (rw go at rest)
      ]

  pub begin-IsSound :
      (m : Surroundings) (j : ℕ) (s u : Workspace) (kept : List ℕ)
      → IsSound s
      → begin c m j s ≡ Result.ok (u, kept)
      → IsSound u
  unfolding begin
  begin-IsSound m j s u kept v e =
      let ((w, held, all_locked), first, rest) =
        >>=-eq-ok (lock_all c j (length (s.jobs j).dependencies) 0 [] (record s { mutex = true })) _
          e in
      let sound_w =
        lock_all-IsSound j (length (s.jobs j).dependencies) 0 [] _ w held all_locked
          (jobs-IsSound s _ refl v) first in
      elim (Bool-cases all_locked) [
        | inr refused ↦
            subst IsSound (ap (λ p. p.0) (ok-injective (rw refused at rest)))
              (jobs-IsSound w (record w { mutex = false }) refl sound_w)
        | inl had ↦
            let ((x, waits), ran, last) = >>=-eq-ok (run c m j w) _ (rw had at rest) in
            subst IsSound (ap (λ p. p.0) (ok-injective last))
              (jobs-IsSound x _ refl (run-IsSound m j w x waits sound_w ran))
      ]

  pub finish-IsSound :
      (thread : Thread) (s u : Workspace) → IsSound s → finish c thread s ≡ Result.ok u → IsSound u
  unfolding finish
  finish-IsSound thread s u v e =
      let (w, first, rest) =
        >>=-eq-ok (job_completed c thread.job (record s { mutex = true })) _ e in
      let (x, second, last) = >>=-eq-ok (drop_all c thread.job thread.locks w) _ rest in
      subst IsSound (ok-injective last) (
        jobs-IsSound x _ refl (
          drop_all-IsSound c sound thread.job thread.locks w x
            (job_completed-IsSound c sound thread.job _ w (jobs-IsSound s _ refl v) first) second))
