-- ===== src/Local/Locks/Exclusive.antt =====
-- At most one client has the lock.
use mathlib.Core.Option.{some-injective, none-ne-some}
use experimaestro.Prelude.{
  ℕ, zero, suc, ◌+◌, ◌≡◌, refl, sym, ap, ◌∙◌, Bool, true, false, some, List, [], ◌∷◌, map,
  get_elem?, set, arith, ◌⊎◌, inl, inr,
}
use experimaestro.Connector.{FileType, unexisting, file, directory, pipe, other}
use experimaestro.Local.Locks.{
  Phase, opening, looking, registering, waiting, holding, detached, released, failed, timed_out,
  Lockers, after_open, path_after_open, after_look, hear, remove_file, move, IsAt, Step, opens,
  fails_to_open, looks, registers, wakes, times_out, detaches, releases, script_removes, Reach,
  here, next,
}

-- Whether a phase has the lock, detached or not.
abbrev pub owns : Phase → ℕ
owns holding = 1
owns detached = 1
owns _ = 0

abbrev pub owners : List Phase → ℕ
owners [] = 0
owners (p ∷ ps) = owns p + owners ps

-- The lock file is there or no path is, and there is one owner for the file.
abbrev pub IsExclusive : Lockers → Type 0
IsExclusive s =
    ((s.path ≡ unexisting) × (owners s.clients ≡ 0)) ⊎ ((s.path ≡ file) × (owners s.clients ≡ 1))

owners-set :
    (ps : List Phase) (i : ℕ) (p q : Phase)
    → get_elem? ps i ≡ some p
    → owners (set ps i q) + owns p ≡ owners ps + owns q
owners-set [] i p q e = absurd (none-ne-some _ e)
owners-set (x ∷ ps) zero p q e = omega (arith, ap owns (some-injective _ _ e))
owners-set (x ∷ ps) (suc i) p q e = omega (arith, owners-set ps i p q e)

owners-hear : (ps : List Phase) → owners (map hear ps) ≡ owners ps
unfolding hear
owners-hear [] = refl
owners-hear (p ∷ ps) = omega (arith, owners-hear ps, same p)
  where
    same : (q : Phase) → owns (hear q) ≡ owns q
    same opening = refl
    same looking = refl
    same registering = refl
    same (waiting d) = refl
    same holding = refl
    same detached = refl
    same released = refl
    same failed = refl
    same timed_out = refl

module _ (timed : Bool) where
  -- A move between two phases that both have the lock or both do not.
  move-IsExclusive :
      (i : ℕ) (p q : Phase) (s : Lockers)
      → IsAt s i p
      → owns p ≡ owns q
      → IsExclusive s
      → IsExclusive (move i q s)
  unfolding move
  move-IsExclusive i p q s at e = elim [
    | inl (a, n) ↦ inl (a, omega (arith, n, e, owners-set s.clients i p q at))
    | inr (a, n) ↦ inr (a, omega (arith, n, e, owners-set s.clients i p q at))
  ]

  owns-after_look : (t : FileType) → owns (after_look t) ≡ 0
  unfolding after_look
  owns-after_look unexisting = refl
  owns-after_look file = refl
  owns-after_look directory = refl
  owns-after_look pipe = refl
  owns-after_look other = refl

  opens-IsExclusive :
      (i : ℕ) (s : Lockers)
      → IsAt s i opening
      → IsExclusive s
      → IsExclusive
          (record { path = path_after_open s.path; clients = set s.clients i (after_open s.path) })
  unfolding path_after_open after_open
  opens-IsExclusive i s at = elim [
    | inl (a, n) ↦ rw a (inr (refl, omega (arith, n, owners-set s.clients i opening holding at)))
    | inr (a, n) ↦ rw a (inr (refl, omega (arith, n, owners-set s.clients i opening looking at)))
  ]

  -- An owner removes the file, so that it was the only one.
  remove-IsExclusive :
      (i : ℕ) (p : Phase) (s : Lockers)
      → IsAt s i p
      → owns p ≡ 1
      → IsExclusive s
      → IsExclusive (remove_file (move i released s))
  unfolding move remove_file
  remove-IsExclusive i p s at e x = inl (
    refl,
    owners-hear (set s.clients i released)
        ∙ ground (arith, e, owners-set s.clients i p released at),
  )

  Step-IsExclusive : {s t : Lockers} → Step timed s t → IsExclusive s → IsExclusive t
  Step-IsExclusive {s = s} (opens i at) = opens-IsExclusive i s at
  Step-IsExclusive {s = s} (fails_to_open i at) = move-IsExclusive i opening looking s at refl
  Step-IsExclusive {s = s} (looks i at) =
      move-IsExclusive i looking (after_look s.path) s at (sym (owns-after_look s.path))
  Step-IsExclusive {s = s} (registers i at) =
      move-IsExclusive i registering (waiting false) s at refl
  Step-IsExclusive {s = s} (wakes i at) = move-IsExclusive i (waiting true) opening s at refl
  Step-IsExclusive {s = s} (times_out i h at) =
      move-IsExclusive i (waiting false) timed_out s at refl
  Step-IsExclusive {s = s} (detaches i at) = move-IsExclusive i holding detached s at refl
  Step-IsExclusive {s = s} (releases i at) = remove-IsExclusive i holding s at refl
  Step-IsExclusive {s = s} (script_removes i at) = remove-IsExclusive i detached s at refl

-- Whatever steps the clients take, when at first the path is free and no client has the lock, or the file
-- is there and one client has the lock, detached or not, then this is so in the end: never do two clients
-- have the lock.
pub Reach-IsExclusive :
    (timed : Bool) (s t : Lockers) → IsExclusive s → Reach timed s t → IsExclusive t
Reach-IsExclusive timed s t x here = x
Reach-IsExclusive timed s t x (next r step) =
    Step-IsExclusive timed step (Reach-IsExclusive timed s _ x r)
