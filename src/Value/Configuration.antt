-- ===== src/Value/Configuration.antt =====
-- `configure` of src/xpm.cpp: `generate`, `validate` and `seal`, one after the other.
pub mod Again
pub mod Protected
use experimaestro.Prelude.{ℕ, Text}
use experimaestro.Errors.{Result, ok, ◌>>=◌}
use experimaestro.Scalar.{Numbers}
use experimaestro.Value.{Value, seal}
use experimaestro.Value.Arguments.{Schema}
use experimaestro.Value.Generation.{generate}
use experimaestro.Value.Validation.{validate}

-- `configure`. The first two numbers are the fuel of `validate`.
unfoldable pub configure :
    (m : Numbers)
    → Schema m.Double
    → (Text → Result (Value m.Double))
    → ℕ
    → ℕ
    → Value m.Double
    → Result (Value m.Double)
unfolding generate validate seal
configure m schema produce levels fuel v = do
  v' ← generate m schema produce fuel v
  v'' ← validate m schema levels fuel v'
  ok (seal v'')
