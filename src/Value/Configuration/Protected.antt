-- ===== src/Value/Configuration/Protected.antt =====
-- What `set` does to a map that was configured.
use experimaestro.Prelude.{ℕ, suc, ◌≡◌, Text}
use experimaestro.Errors.{Result, ok, err, sealed_error}
use experimaestro.Scalar.{Numbers}
use experimaestro.Value.{Complex, MapInfo, Value, map, Entries, flags_of}
use experimaestro.Value.Arguments.{Schema}
use experimaestro.Value.Maps.{set}
use experimaestro.Value.Configuration.{configure}
use experimaestro.Value.Configuration.Again.{configure_again}

-- When `configure` returns a map, to set any value at any key of it throws: the map is sealed.
pub set-configure :
    (m : Numbers) (schema : Schema m.Double) (produce : Text → Result (Value m.Double))
    (levels fuel : ℕ) (v : Value m.Double) (flags : ℕ) (x : Complex m.Double) (i : MapInfo)
    (entries : Entries m.Double)
    → configure m schema produce (suc levels) fuel v ≡ ok (map flags x i entries)
    → (key : Text) (w : Value m.Double)
    → set m schema key w (map flags x i entries) ≡ err sealed_error
unfolding set flags_of
set-configure m schema produce levels fuel v flags x i entries e key w =
    let (_, _, closed, _) =
      configure_again m schema produce levels fuel v (map flags x i entries) e in
    rw closed
