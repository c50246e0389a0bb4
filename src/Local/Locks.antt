-- ===== src/Local/Locks.antt =====
-- Lock files: `LocalConnector::lock` of src/connectors/local_unix.cpp and `FileLock` of
-- src/connectors/connectors.cpp, as several clients that take steps in any order on one path. The
-- watcher of the directory (Poco) and the removal of a file by the script of a job are the steps of others.
pub mod Exclusive
pub mod Races
use experimaestro.Prelude.{ℕ, ◌≡◌, Bool, true, false, Option, none, some, List, map, get_elem?, set}
use experimaestro.Connector.{FileType, unexisting, file}

-- Where a client is: before `open`, before `fileType`, before the watcher is made, in the wait with what
-- the listener has heard, with the lock, with a lock that is detached, and at its end.
pub data Phase : Type 0 where
  opening looking registering : Phase
  waiting : (deleted : Bool) → Phase
  holding detached released : Phase
  failed timed_out : Phase

-- The path of the lock, and the clients.
pub record Lockers : Type 0 where
  pub path : FileType
  pub clients : List Phase

-- `open` with O_CREAT and O_EXCL.
unfoldable pub after_open : FileType → Phase
after_open unexisting = holding
after_open _ = looking

unfoldable pub path_after_open : FileType → FileType
path_after_open unexisting = file
path_after_open type = type

-- The test of `fileType`, which throws when the path is no file.
unfoldable pub after_look : FileType → Phase
after_look file = registering
after_look _ = failed

-- `onFileDeleted` of a listener that is there.
unfoldable pub hear : Phase → Phase
hear (waiting deleted) = waiting true
hear p = p

-- The file is removed: every listener hears it.
unfoldable pub remove_file : Lockers → Lockers
unfolding hear
remove_file s = record { path = unexisting; clients = map hear s.clients }

unfoldable pub move : ℕ → Phase → Lockers → Lockers
move i p s = record s { clients = set s.clients i p }

-- A client at the given place is in the given phase.
abbrev pub IsAt : Lockers → ℕ → Phase → Type 0
IsAt s i p = get_elem? s.clients i ≡ some p

-- A step of one client; `timed` says that the wait has a duration. `open` may also fail for another
-- reason than a path that is there.
pub data Step (timed : Bool) (s : Lockers) : Lockers → Type 0 where
  opens :
      (i : ℕ)
      → IsAt s i opening
      → Step timed s
          (record { path = path_after_open s.path; clients = set s.clients i (after_open s.path) })
  fails_to_open : (i : ℕ) → IsAt s i opening → Step timed s (move i looking s)
  looks : (i : ℕ) → IsAt s i looking → Step timed s (move i (after_look s.path) s)
  registers : (i : ℕ) → IsAt s i registering → Step timed s (move i (waiting false) s)
  wakes : (i : ℕ) → IsAt s i (waiting true) → Step timed s (move i opening s)
  times_out : (i : ℕ) → timed ≡ true → IsAt s i (waiting false) → Step timed s (move i timed_out s)
  detaches : (i : ℕ) → IsAt s i holding → Step timed s (move i detached s)
  releases : (i : ℕ) → IsAt s i holding → Step timed s (remove_file (move i released s))
  script_removes : (i : ℕ) → IsAt s i detached → Step timed s (remove_file (move i released s))

pub data Reach (timed : Bool) (s : Lockers) : Lockers → Type 0 where
  here : Reach timed s s
  next : {t u : Lockers} → Reach timed s t → Step timed t u → Reach timed s u
