-- ===== src/Launcher.antt =====
-- `EnvMatcher` and the command of `OARProcessBuilder::start` of src/launchers/oar.cpp, and `Redirect`
-- of src/launchers/launchers.cpp.
pub mod Matching
pub mod Redirections
use experimaestro.Prelude.{
  ℕ, suc, Bool, true, false, Option, none, some, List, [], ◌∷◌, ◌++◌, Text, codes, length,
  get_elem?, leb, ◌==◌, if◌then◌else◌,
}
use experimaestro.Errors.{Result, ok, err, illegal_argument_error, undefined_behaviour, ◌>>=◌}
use experimaestro.Script.{protect_quoted}

abbrev pub newline : ℕ
newline = 10

pub record EnvMatcher : Type 0 where
  pub prefix : Text
  pub pos : ℕ
  pub value : Text
  pub reading : Bool

-- `EnvMatcher::EnvMatcher`
unfoldable pub create : Text → EnvMatcher
create prefix = record { prefix = prefix; pos = 0; value = []; reading = false }

-- `prefix[pos]`: the byte, and 0 at the end of the text. Behind it, the access is undefined.
unfoldable pub byte_at : Text → ℕ → Option ℕ
byte_at prefix pos = get_elem? (prefix ++ 0 ∷ []) pos

-- The body of the loop of `process`.
unfoldable pub process_byte : ℕ → EnvMatcher → Result EnvMatcher
unfolding byte_at
process_byte c m =
    if m.reading
    then (if c == newline
        then ok (record m { reading = false })
        else ok (record m { value = m.value ++ c ∷ [] }))
    else elim (byte_at m.prefix m.pos) [
      | none ↦ err undefined_behaviour
      | some p ↦
          if c == p
          then ok (record m { pos = suc m.pos; reading = leb (length m.prefix) (suc m.pos) })
          else ok (record m { pos = 0 })
    ]

-- `EnvMatcher::process`
unfoldable pub process : Text → EnvMatcher → Result EnvMatcher
unfolding process_byte
process [] m = ok m
process (c ∷ bytes) m = process_byte c m >>= process bytes

pub data Redirect : Type 0 where
  inherit pipe no_stream : Redirect
  file : (path : Text) → Redirect

-- The lambda `pushstream` of `start`.
unfoldable pub push_stream : Redirect → List Text → Result (List Text)
push_stream inherit command = err illegal_argument_error
push_stream pipe command = err illegal_argument_error
push_stream no_stream command = ok (command ++ codes "/dev/null" ∷ [])
push_stream (file path) command = ok (command ++ path ∷ [])

-- The loop over the words of the command; `first` is not set before it.
unfoldable pub join : Bool → List Text → Text
unfolding protect_quoted
join first [] = []
join first (c ∷ command) =
    (if first then [] else codes " ")
    ++ (codes "\""
        ++ (protect_quoted c ++ (codes "\"" ++ join (if first then false else first) command)))

-- The command that `start` makes: of the connector's builder, behind the words that it has.
unfoldable pub oar_command :
    Bool → Bool → Redirect → Redirect → List Text → List Text → Result (List Text)
unfolding push_stream join
oar_command first detach stdout stderr command words =
    if detach then err illegal_argument_error else (do
      ws ← push_stream stdout (words ++ codes "oarsub" ∷ codes "-O" ∷ [])
      ws' ← push_stream stderr (ws ++ codes "-E" ∷ [])
      ok (ws' ++ join first command ∷ []))
