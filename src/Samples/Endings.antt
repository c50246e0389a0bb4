-- ===== src/Samples/Endings.antt =====
-- A type below another that `generate` and `validate` go through.
use experimaestro.Prelude.{
  ℕ, ◌≢◌, false, Option, none, some, [], ◌∷◌, codes, ◌==◌, if◌then◌else◌, arith,
}
use experimaestro.Errors.{err, out_of_fuel, ok-ne-err}
use experimaestro.Scalar.{integer}
use experimaestro.Types.{Types}
use experimaestro.Types.Ranked.{Ranks}
use experimaestro.Value.{Value, MapInfo, map, scalar, no_entry, next_entry}
use experimaestro.Value.Arguments.{Schema}
use experimaestro.Value.Generation.{generate}
use experimaestro.Value.Generation.Ends.{generate_ends}
use experimaestro.Value.Maps.Levels.{IsShallow, EntriesShallow}
use experimaestro.Value.Validation.{validate}
use experimaestro.Value.Validation.Answers.{validate_ends}
use experimaestro.Samples.Values.{halves}
use experimaestro.Samples.Models.{schema, untagged, nothing}

-- The type 7 is below the type 6.
abbrev parent_of : ℕ → Option ℕ
parent_of t = if t == 7 then some 6 else none

abbrev layered : Types
layered t = record {
  name = codes "model";
  parent = parent_of t;
  arguments = if t == 6 then (codes "size", 0) ∷ [] else [];
  can_ignore = false;
}

abbrev below : Schema ℕ
below = record schema { types = layered }

rank : ℕ → ℕ
rank t = if t == 7 then 1 else 0

layered-Ranks : Ranks layered 2
unfolding rank
layered-Ranks = record { rank = rank; low = λ t. ground arith; lower = λ t p e. ground arith }

abbrev low_model : MapInfo
low_model = record { type = 7; job = none; task = none }

abbrev sized : Value ℕ
sized = map 0 untagged low_model (next_entry (codes "size") (scalar 0 [] (integer 3)) no_entry)

validate_ends_example : validate halves below 2 2 sized ≢ err out_of_fuel
unfolding IsShallow EntriesShallow
validate_ends_example = validate_ends halves below 2 layered-Ranks 2 sized (tt, tt)

generate_ends_example :
    generate halves below nothing 2 (map 0 untagged low_model no_entry) ≢ err out_of_fuel
generate_ends_example =
    generate_ends halves below nothing (λ g. ok-ne-err) 2 layered-Ranks
      (map 0 untagged low_model no_entry)
