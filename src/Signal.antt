-- ===== src/Signal.antt =====
-- The handler of SIGINT in src/workspace.cpp. Times are seconds of the system clock.
use experimaestro.Prelude.{ℕ, ◌+◌, ◌≤◌, ◌≡◌, ltb, if◌then◌else◌, arith}
use experimaestro.Scheduler.{ExitMode, none, stopping}

abbrev pub double_exit_interval : ℕ
double_exit_interval = 5

pub record Signals : Type 0 where
  pub exit_mode : ExitMode
  pub last_signal : ℕ

-- `sigexitHandler`, by the mode.
by_mode : ExitMode → ℕ → Signals → Signals
by_mode none now s = record { exit_mode = ExitMode.waiting; last_signal = now }
by_mode ExitMode.waiting now s =
    if ltb s.last_signal (now + double_exit_interval)
    then record s { exit_mode = stopping }
    else record s { last_signal = now }
by_mode stopping now s = s

unfoldable pub sigexit_handler : ℕ → Signals → Signals
unfolding by_mode
sigexit_handler now s = by_mode s.exit_mode now s

-- `registerExitHandler`, which also gives the first exit mode.
unfoldable pub register_exit_handler : ExitMode
register_exit_handler = none

-- From the mode that `registerExitHandler` gives, a first interrupt leads to WAITING and a second
-- one, at no earlier time, to STOPPING, however far apart they are.
two_interrupts_stop :
    (s : Signals) (first second : ℕ)
    → s.exit_mode ≡ register_exit_handler
    → first ≤ second
    → ((sigexit_handler first s).exit_mode ≡ ExitMode.waiting)
      × ((sigexit_handler second (sigexit_handler first s)).exit_mode ≡ stopping)
unfolding sigexit_handler register_exit_handler
two_interrupts_stop s first second m le = ground arith
