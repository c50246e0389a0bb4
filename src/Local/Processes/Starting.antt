-- ===== src/Local/Processes/Starting.antt =====
-- What a started process is given, and what its end is taken for.
use experimaestro.Prelude.{
  ℕ, zero, suc, ◌+◌, ◌-◌, ◌*◌, ◌^◌, ◌<◌, ◌≡◌, refl, sym, ap, ◌∙◌, subst, Bool, true, false, Option,
  none, some, List, [], ◌∷◌, Text, length, set, if◌then◌else◌, arith,
}
use experimaestro.Errors.{ok, ok-injective, err-ne-ok}
use experimaestro.Launcher.Redirections.{Redirection, inherit, file, pipe, nowhere}
use experimaestro.Local.Processes.{
  status, wait_process, exit_status, is_signaled, is_stopped, pipefd, make_pipe, LocalProcess,
  started, is_open, start_process, Pointer, garbage, null, points, new_array, write_arguments,
  argument_array,
}

-- How a process ends, and the status that tells it.
pub data Ending : Type 0 where
  exited : (code : ℕ) → Ending
  killed : (signal : ℕ) (core : Bool) → Ending
  stopped : (signal : ℕ) → Ending

abbrev pub bits_of : Ending → ℕ
bits_of (exited code) = code * 256
bits_of (killed signal core) = signal + (if core then 128 else 0)
bits_of (stopped signal) = signal * 256 + 127

abbrev pub IsEnding : Ending → Type 0
IsEnding (exited code) = code < 256
IsEnding (killed signal core) = (0 < signal) × (signal < 127)
IsEnding (stopped signal) = signal < 256

-- The code that stands for an ending, as a 32-bit pattern: that of the process, -2 or -3.
abbrev pub code_of : Ending → ℕ
code_of (exited code) = code
code_of (killed signal core) = 2 ^ 32 - 2
code_of (stopped signal) = 2 ^ 32 - 3

wait_process-bits_of :
    (e : Ending) → IsEnding e → wait_process (status (bits_of e)) ≡ ok (code_of e)
unfolding wait_process exit_status is_signaled is_stopped
wait_process-bits_of (exited code) h = ground arith
wait_process-bits_of (killed signal true) h = ground arith
wait_process-bits_of (killed signal false) h = ground arith
wait_process-bits_of (stopped signal) h = ground arith

code_of-zero : (e : Ending) → code_of e ≡ 0 → e ≡ exited 0
code_of-zero (exited code) e = ap exited e
code_of-zero (killed signal core) e = absurd (omega (arith, e))
code_of-zero (stopped signal) e = absurd (omega (arith, e))

-- `waitProcess` gives the code of a process that has exited, -2 for one that was killed by a signal and
-- -3 for one that was stopped: it gives 0 only for a process that exited with the code 0.
pub wait_process-code_of :
    (e : Ending)
    → IsEnding e
    → (wait_process (status (bits_of e)) ≡ ok (code_of e))
      × (wait_process (status (bits_of e)) ≡ ok 0 → e ≡ exited 0)
wait_process-code_of e h = (
  wait_process-bits_of e h,
  λ z. code_of-zero e (ok-injective (sym (wait_process-bits_of e h) ∙ z)),
)

-- The texts as entries of an array.
abbrev pub all_point : List Text → List Pointer
all_point [] = []
all_point (a ∷ command) = points a ∷ all_point command

write_arguments-suc :
    (i : ℕ) (arguments : List Text) (x : Pointer) (array : List Pointer)
    → write_arguments (suc i) arguments (x ∷ array) ≡ x ∷ write_arguments i arguments array
unfolding write_arguments
write_arguments-suc i [] x array = refl
write_arguments-suc i (a ∷ arguments) x array =
    write_arguments-suc (suc i) arguments x (set array i (points a))

write_arguments-points :
    (arguments : List Text) (array : List Pointer)
    → length array ≡ length arguments
    → write_arguments 0 arguments array ≡ all_point arguments
unfolding write_arguments
write_arguments-points [] [] e = refl
write_arguments-points [] (x ∷ array) e = absurd (omega (arith, e))
write_arguments-points (a ∷ arguments) [] e = absurd (omega (arith, e))
write_arguments-points (a ∷ arguments) (x ∷ array) e =
    write_arguments-suc 0 arguments (points a) array
    ∙ ap (◌∷◌ (points a)) (write_arguments-points arguments array (omega (arith, e)))

length-new_array : (n : ℕ) (i : ℕ) (p : Pointer) → length (set (new_array n) i p) ≡ n
unfolding new_array
length-new_array zero i p = refl
length-new_array (suc n) zero p = ap suc (length_new n)
  where
    length_new : (k : ℕ) → length (new_array k) ≡ k
    length_new zero = refl
    length_new (suc k) = ap suc (length_new k)
length-new_array (suc n) (suc i) p = ap suc (length-new_array n i p)

-- For a command with arguments, the array that `execve` is given starts with an entry that is not
-- written, and behind it holds the arguments and no null: the last argument stands in its place.
pub argument_array-points :
    (program first : Text) (more : List Text)
    → argument_array (program ∷ first ∷ more) ≡ ok (garbage ∷ all_point (first ∷ more))
unfolding argument_array new_array
argument_array-points program first more = ap ok (
    write_arguments-suc 0 (first ∷ more) garbage
      (set (new_array (suc (length more))) (length more) null)
    ∙ ap (◌∷◌ garbage) (
        write_arguments-points (first ∷ more)
          (set (new_array (suc (length more))) (length more) null)
          (length-new_array (suc (length more)) (length more) null)))

-- A process without streams and threads for its output and its errors, and with this one for its input.
abbrev pub HasStreams : Option ℕ → LocalProcess → Type 0
HasStreams input p =
    (p.stdout ≡ none)
    × (p.stderr ≡ none)
    × (p.stdout_thread ≡ false)
    × (p.stderr_thread ≡ false)
    × (p.stdin ≡ input)

-- Whatever its redirections, a process that is started has no stream for its output and none for its
-- errors, so that no thread reads them; it has one for its input just when that is a pipe.
pub start_process-streams :
    (forks : Bool) (stdin stdout stderr : Redirection) (fd : ℕ → ℕ) (p : LocalProcess)
    → start_process forks stdin stdout stderr fd ≡ ok p
    → HasStreams (elim stdin [ pipe ↦ some (fd 1) | _ ↦ none ]) p
unfolding start_process started pipefd make_pipe is_open
start_process-streams false i o r fd p e = absurd (err-ne-ok e)
start_process-streams true inherit o r fd p e =
    subst (HasStreams none) (ok-injective e) (refl, refl, refl, refl, refl)
start_process-streams true file o r fd p e =
    subst (HasStreams none) (ok-injective e) (refl, refl, refl, refl, refl)
start_process-streams true pipe o r fd p e =
    subst (HasStreams (some (fd 1))) (ok-injective e) (refl, refl, refl, refl, refl)
start_process-streams true nowhere o r fd p e =
    subst (HasStreams none) (ok-injective e) (refl, refl, refl, refl, refl)
