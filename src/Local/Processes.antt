-- ===== src/Local/Processes.antt =====
-- The processes of src/connectors/local_unix.cpp: what `waitpid` tells, the pipes, and `LocalProcess`.
pub mod Starting
use experimaestro.Prelude.{
  ℕ, zero, suc, ◌+◌, ◌-◌, ◌*◌, ◌/◌, ◌%◌, ◌^◌, ◌<◌, ◌≡◌, ◌≢◌, ◌↔◌, refl, Bool, true, false, not,
  ◌&&◌, Option, none, some, List, [], ◌∷◌, ◌++◌, Text, length, set, ltb, ◌==◌, if◌then◌else◌, arith,
  All,
}
use experimaestro.Errors.{
  Result, ok, err, exited_error, exception, invalid_argument, undefined_behaviour, ◌>>=◌,
}
use experimaestro.Launcher.Redirections.{Redirection, pipe}

-- What `waitpid` comes back with: a status, no such child, or another error.
pub data Waited : Type 0 where
  status : (bits : ℕ) → Waited
  no_child other_error : Waited

-- `WEXITSTATUS`, `WIFSIGNALED` and `WIFSTOPPED` on a status of 16 bits.
unfoldable pub exit_status : ℕ → ℕ
exit_status bits = (bits / 256) % 256

unfoldable pub is_signaled : ℕ → Bool
is_signaled bits = not ((bits % 128) == 0) && not ((bits % 128) == 127)

unfoldable pub is_stopped : ℕ → Bool
is_stopped bits = (bits % 256) == 127

-- `waitProcess`; an `int` is its pattern of 32 bits.
unfoldable pub wait_process : Waited → Result ℕ
unfolding exit_status is_signaled is_stopped
wait_process no_child = err exited_error
wait_process other_error = ok (2 ^ 32 - 1)
wait_process (status bits) = ok (
    if is_signaled bits
    then 2 ^ 32 - 2
    else if is_stopped bits
    then 2 ^ 32 - 3
    else exit_status bits)

-- `Pipe`: its redirection and its two ends, which are file descriptors.
pub record Pipe : Type 0 where
  pub type : Redirection
  pub output_stream : Bool
  pub input : Option ℕ
  pub output : Option ℕ

-- `Pipe::Pipe`, with the descriptors that `pipe` gives.
unfoldable pub make_pipe : Redirection → Bool → ℕ → ℕ → Pipe
make_pipe pipe output_stream reading writing = record {
  type = pipe;
  output_stream = output_stream;
  input = some reading;
  output = some writing;
}
make_pipe type output_stream reading writing = record {
  type = type;
  output_stream = output_stream;
  input = none;
  output = none;
}

-- `Pipe::pipefd`: the end of the parent, which is moved out of the pipe.
unfoldable pub pipefd : Pipe → Option ℕ × Pipe
pipefd p = elim p.type [
  | pipe ↦
      if p.output_stream
      then (p.input, record p { input = none })
      else (p.output, record p { output = none })
  | _ ↦ (none, p)
]

-- The parts of a `LocalProcess`: its streams, whether it is closed, and its threads.
pub record LocalProcess : Type 0 where
  pub stdin : Option ℕ
  pub stdout : Option ℕ
  pub stderr : Option ℕ
  pub closed : Bool
  pub stdout_thread : Bool
  pub stderr_thread : Bool

-- A stream that is there.
unfoldable pub is_open : Option ℕ → Bool
is_open none = false
is_open (some _) = true

-- The constructor of `LocalProcess` in the parent, where `fork` has given a child.
unfoldable pub started : Pipe → Pipe → Pipe → LocalProcess
unfolding pipefd is_open
started stdin_p stdout_p stderr_p =
    let (stdin, p1) = pipefd stdin_p in
    let (stdout, p2) = pipefd p1 in
    let (stderr, p3) = pipefd p2 in
    record {
      stdin = stdin;
      stdout = stdout;
      stderr = stderr;
      closed = false;
      stdout_thread = is_open stdout;
      stderr_thread = is_open stderr;
    }

-- The constructor: `fork` fails, or the streams are those of the three redirections.
unfoldable pub start_process :
    Bool → Redirection → Redirection → Redirection → (ℕ → ℕ) → Result LocalProcess
unfolding started make_pipe
start_process forks stdin stdout stderr fd =
    if forks
    then ok (
        started (make_pipe stdin false (fd 0) (fd 1)) (make_pipe stdout true (fd 2) (fd 3))
          (make_pipe stderr true (fd 4) (fd 5)))
    else err exception

-- `isRunning`
unfoldable pub is_running : LocalProcess → Bool
is_running p = not p.closed

-- `close_fds`, which joins the threads.
unfoldable pub close_fds : LocalProcess → LocalProcess
close_fds p = record p { stdin = none; stdout = none; stdout_thread = false; stderr_thread = false }

-- `exitCode`
unfoldable pub exit_code : Waited → LocalProcess → Result (ℕ × LocalProcess)
unfolding wait_process close_fds
exit_code w p = wait_process w >>= λ code. ok (code, close_fds (record p { closed = true }))

pub data Signal : Type 0 where
  terminate interrupt : Signal

-- `kill`: the signal that is sent to a child of a positive number, if any.
unfoldable pub kill : Bool → LocalProcess → Option Signal
kill force p = if p.closed then none else some (if force then terminate else interrupt)

-- `write`: the descriptor that it writes to; that of a descriptor 0 is not written.
unfoldable pub write_to : LocalProcess → Result (Option ℕ)
write_to p = elim p.stdin [
  | none ↦ err invalid_argument
  | some fd ↦ ok (if fd == 0 then none else some fd)
]

-- `eof`
unfoldable pub eof : LocalProcess → LocalProcess
eof p = record p { stdin = none }

-- An entry of the argument array of `run`: not written, a null pointer, or a text.
pub data Pointer : Type 0 where
  garbage null : Pointer
  points : (value : Text) → Pointer

-- `char *args[n]`, which is not initialised.
unfoldable pub new_array : ℕ → List Pointer
new_array zero = []
new_array (suc n) = garbage ∷ new_array n

-- The loop of `run` over the parts of the command, from an index on.
unfoldable pub write_arguments : ℕ → List Text → List Pointer → List Pointer
write_arguments i [] array = array
write_arguments i (a ∷ command) array = write_arguments (suc i) command (set array i (points a))

-- The array `args`, with one entry for each part of the command: the null is written at its end, and
-- then the parts but the first. With no part the null is written before the array.
unfoldable pub argument_array : List Text → Result (List Pointer)
unfolding new_array write_arguments
argument_array [] = err undefined_behaviour
argument_array (program ∷ arguments) =
    ok (
      write_arguments 1 arguments
        (set (new_array (suc (length arguments))) (length arguments) null))
