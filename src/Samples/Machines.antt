-- ===== src/Samples/Machines.antt =====
-- Two clients of a lock file, a tree of files, and a process.
use mathlib.Core.Option.{none-ne-some}
use experimaestro.Prelude.{
  ℕ, zero, suc, ◌+◌, ◌≡◌, ◌≢◌, refl, true, false, none, some, [], ◌∷◌, codes, arith, inl,
}
use experimaestro.Errors.{ok}
use experimaestro.Connector.{unexisting, file}
use experimaestro.Launcher.Redirections.{inherit, pipe}
use experimaestro.Local.Locks.{
  Phase, opening, registering, waiting, holding, path_after_open, after_open, Lockers, IsAt, Reach,
  here, next, opens,
}
use experimaestro.Local.Locks.Exclusive.{IsExclusive, Reach-IsExclusive}
use experimaestro.Local.Locks.Races.{IsFinished, missed, lock_misses}
use experimaestro.Local.Removal.{
  Node, entry, folder, no_node, next_node, remove, Answers, remove-Answers,
}
use experimaestro.Local.Processes.{LocalProcess, start_process, argument_array, garbage, points}
use experimaestro.Local.Processes.Starting.{
  HasStreams, argument_array-points, start_process-streams,
}

abbrev two_clients : Lockers
two_clients = record { path = unexisting; clients = opening ∷ opening ∷ [] }

abbrev first_holds : Lockers
first_holds = record { path = file; clients = holding ∷ opening ∷ [] }

Reach-IsExclusive_example : IsExclusive first_holds
unfolding path_after_open after_open
Reach-IsExclusive_example =
    Reach-IsExclusive true two_clients first_holds (inl (refl, refl)) (next here (opens 0 refl))

abbrev holder_and_waiter : Lockers
holder_and_waiter = record { path = file; clients = holding ∷ registering ∷ [] }

nobody_else : (k : ℕ) (p : Phase) → k ≢ 1 → k ≢ 0 → IsAt holder_and_waiter k p → IsFinished p
nobody_else zero p n z at = absurd (z refl)
nobody_else (suc zero) p n z at = absurd (n refl)
nobody_else (suc (suc k)) p n z at = absurd (none-ne-some p at)

lock_misses_example :
    Reach false holder_and_waiter (missed 1 0 holder_and_waiter)
    × ((missed 1 0 holder_and_waiter).path ≡ unexisting)
    × IsAt (missed 1 0 holder_and_waiter) 1 (waiting false)
    × ((t : Lockers)
        → Reach false (missed 1 0 holder_and_waiter) t
        → t ≡ missed 1 0 holder_and_waiter)
lock_misses_example = lock_misses holder_and_waiter 1 0 (omega arith) refl refl nobody_else

argument_array-points_example :
    argument_array (codes "oarsub" ∷ codes "-S" ∷ codes "run.sh" ∷ [])
    ≡ ok (garbage ∷ points (codes "-S") ∷ points (codes "run.sh") ∷ [])
argument_array-points_example =
    argument_array-points (codes "oarsub") (codes "-S") (codes "run.sh" ∷ [])

abbrev running : LocalProcess
running = record {
  stdin = some 11;
  stdout = none;
  stderr = none;
  closed = false;
  stdout_thread = false;
  stderr_thread = false;
}

start_process-streams_example : HasStreams (some 11) running
unfolding start_process
start_process-streams_example =
    start_process-streams true pipe pipe inherit (λ n. 10 + n) running refl

-- A directory with a regular file and a socket.
abbrev mixed : Node
mixed =
    folder true true
      (next_node (codes "a") (entry 33188 true) (next_node (codes "b") (entry 49152 true) no_node))

remove-Answers_example : Answers mixed (remove true mixed)
remove-Answers_example = remove-Answers mixed
