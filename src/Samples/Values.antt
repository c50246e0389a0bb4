-- ===== src/Samples/Values.antt =====
-- Scalars, types, a shell and a command line.
use experimaestro.Prelude.{
  ℕ, zero, suc, ◌*◌, ◌/◌, ◌-◌, ◌%◌, ◌≡◌, ◌↔◌, refl, Bool, true, false, not, ◌||◌, ◌&&◌, Option,
  none, some, [], ◌∷◌, Text, codes, ◌==◌, if◌then◌else◌, arith, text_eq,
}
use experimaestro.Errors.{ok}
use experimaestro.Path.{local}
use experimaestro.Scalar.{Numbers, integer, real, scalar_type, type_integer}
use experimaestro.Scalar.Conversions.{as_integer}
use experimaestro.Scalar.Casts.{cast, scalar_type-cast}
use experimaestro.Script.{
  Shell, IsQuoted, consed, double_quote, dollar, backslash, backquote, protect_quoted,
  read-protect_quoted,
}
use experimaestro.Types.{Types, accepts}
use experimaestro.Types.Hierarchy.{IsFounded, Fits, accepts-Fits}
use experimaestro.Command
use experimaestro.Launcher.Redirections.{inherit, of_type, to_file}
use experimaestro.Command.{Command, CommandLine, text, content, parameters, path, path_reference}
use experimaestro.Command.Loading.{inherits_all, load-to_json}

-- Doubles that are halves of natural numbers.
abbrev pub halves : Numbers
halves = record {
  Double = ℕ;
  equal = ◌==◌;
  is_nonzero = λ x. not (x == 0);
  trunc = λ x. x - x % 2;
  to_long = λ x. x / 2;
  to_int = λ x. x / 2;
  of_int = λ n. n * 2;
  of_long = λ n. n * 2;
  real_text = λ _. codes "a real";
  long_text = λ _. codes "an integer";
  regex_match = λ s _. not (text_eq s (codes "x"));
  atol = λ _. 7;
  atof = λ _. 7;
}

scalar_type-cast_example : scalar_type {D = ℕ} (integer 2) ≡ type_integer
unfolding cast as_integer
scalar_type-cast_example = scalar_type-cast halves (real 4) (integer 2) type_integer (λ e. cc) refl

abbrev is_special : ℕ → Bool
is_special c = (c == double_quote) || ((c == dollar) || ((c == backslash) || (c == backquote)))

shell_read : Text → Option Text
shell_read [] = some []
shell_read (c ∷ []) = if is_special c then none else some (c ∷ [])
shell_read (c ∷ d ∷ s) =
    let quoted = shell_read s in
    let rest = shell_read (d ∷ s) in
    if c == backslash && is_special d
    then consed d quoted
    else if is_special c
    then none
    else consed c rest

shell_read-plain :
    (c : ℕ) (s : Text) → is_special c ≡ false → shell_read (c ∷ s) ≡ consed c (shell_read s)
unfolding shell_read
shell_read-plain c [] h = rw h
shell_read-plain c (d ∷ s) h = ground (arith, h)

shell_read-quoted :
    (c : ℕ) (s : Text) → IsQuoted c → shell_read (backslash ∷ c ∷ s) ≡ consed c (shell_read s)
unfolding shell_read
shell_read-quoted c s h = rw h

shell_read-closed : (s : Text) → shell_read (double_quote ∷ s) ≡ none
unfolding shell_read
shell_read-closed [] = refl
shell_read-closed (d ∷ s) = refl

abbrev shell : Shell
shell = record {
  read = shell_read;
  read_end = unfold shell_read in refl;
  read_plain = shell_read-plain;
  read_quoted = shell_read-quoted;
  read_closed = shell_read-closed;
}

read-protect_quoted_example : shell.read (protect_quoted (codes "a$")) ≡ some (codes "a$")
read-protect_quoted_example =
    read-protect_quoted shell (codes "a$")
      ((omega arith, omega arith), ((omega arith, omega arith), tt))

-- `any`, and two types below a common one: `b` is 1, `b.x` is 2 and `b.y` is 3.
abbrev family : Types
family zero = record { name = codes "any"; parent = none; arguments = []; can_ignore = false }
family (suc zero) = record { name = codes "b"; parent = some 0; arguments = []; can_ignore = false }
family (suc (suc zero)) = record {
  name = codes "b.x";
  parent = some 1;
  arguments = [];
  can_ignore = false;
}
family (suc (suc (suc zero))) = record {
  name = codes "b.y";
  parent = some 1;
  arguments = [];
  can_ignore = false;
}
family _ = record { name = codes "c"; parent = none; arguments = []; can_ignore = false }

family-IsFounded : IsFounded family
family-IsFounded zero p h = ground arith
family-IsFounded (suc zero) p h = ground arith
family-IsFounded (suc (suc zero)) p h = ground arith
family-IsFounded (suc (suc (suc zero))) p h = ground arith
family-IsFounded (suc (suc (suc (suc t)))) p h = ground arith

accepts-Fits_example : (b : Bool) × (accepts 4 family 1 3 ≡ ok b) × ((b ≡ true) ↔ Fits family 1 3)
accepts-Fits_example = accepts-Fits family 4 1 3 family-IsFounded (omega arith)

-- The errors of the first command go into a file.
abbrev first_command : Command
first_command = record {
  components =
      text (codes "run") ∷ path (local (codes "/bin/x")) ∷ path_reference (codes "out") ∷ [];
  input = of_type inherit;
  output = of_type inherit;
  error = to_file (codes "/tmp/log");
}

abbrev second_command : Command
second_command = record {
  components = content (codes "k") (codes "v") ∷ parameters ∷ [];
  input = of_type inherit;
  output = of_type inherit;
  error = of_type inherit;
}

abbrev line : CommandLine
line = record {
  commands = first_command ∷ second_command ∷ [];
  input = to_file (codes "/tmp/in");
  output = of_type inherit;
  error = of_type inherit;
}

load-to_json_example :
    Command.load (Command.to_json {D = ℕ} line) Command.empty_line ≡ ok (inherits_all line)
unfolding local
load-to_json_example =
    load-to_json ℕ line ((tt, (refl, (tt, tt))), ((tt, (tt, tt)), tt)) (λ c e. cc)
