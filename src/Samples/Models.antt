-- ===== src/Samples/Models.antt =====
-- A map of the type "model", which has an argument "size" with a default.
use mathlib.Core.Option.{none-ne-some}
use experimaestro.Prelude.{
  ℕ, suc, ◌≡◌, refl, true, false, none, some, [], ◌∷◌, Text, codes, All, text_eq, lookup,
  if◌then◌else◌, ◌==◌, arith,
}
use experimaestro.Errors.{Result, ok, err, sealed_error}
use experimaestro.Path.{FilePath, local}
use experimaestro.Scalar
use experimaestro.Scalar.{integer, is_null}
use experimaestro.Scheduler.Sound.{IsSound}
use experimaestro.Types.{TypeInfo, accepts, first_above, same}
use experimaestro.Types.Hierarchy.{Above, itself}
use experimaestro.Value.{
  sealed, validated, generated, get_flag, set_flag, flags_of, Complex, MapInfo, Value, scalar, map,
  Entries, no_entry, next_entry,
}
use experimaestro.Value.Arguments.{Argument, Schema}
use experimaestro.Value.Maps
use experimaestro.Value.Maps.{find, put, set}
use experimaestro.Value.Configuration.Protected.{set-configure}
use experimaestro.Value.Generation.{generate, generate_own}
use experimaestro.Value.Generation.Completing.{IsGiven, generate-IsGiven}
use experimaestro.Value.Validation.{validate}
use experimaestro.Value.Validation.Provided.{validate-IsProvided}
use experimaestro.Value.Validation.Seen.{IsProvided}
use experimaestro.Value.Configuration.{configure}
use experimaestro.Value.Configuration.Again.{configure_again}
use experimaestro.Value.Dependencies.{
  add_dependencies, jobs_of, waiting_on, add_dependencies-jobs_of,
}
use experimaestro.Value.Digest.{Hash, can_ignore, digest, unique_identifier}
use experimaestro.Value.Digest.Ignoring.{unique_identifier-put}
use experimaestro.Value.Locating.{generate_path}
use experimaestro.Value.Locating.Places.{IsSha1, generate_path_injective}
use experimaestro.Samples.Values.{halves}
use experimaestro.Samples.Jobs.{idle, idle-IsSound}

abbrev named : Text → TypeInfo
named name = record { name = name; parent = none; arguments = []; can_ignore = false }

abbrev type_info : ℕ → TypeInfo
type_info t =
    if t == 2
    then named (codes "integer")
    else if t == 6
    then record (named (codes "model")) { arguments = (codes "size", 0) ∷ [] }
    else named (codes "mod")

abbrev size_argument : Argument ℕ
size_argument = record {
  name = codes "size";
  type = some 2;
  is_required = false;
  is_ignored = false;
  is_constant = false;
  value = some (scalar 0 [] (integer 3));
  generator = none;
}

abbrev pub schema : Schema ℕ
schema = record { types = type_info; array_of = suc; arguments = λ _. size_argument }

abbrev pub untagged : Complex ℕ
untagged = record { own = []; tag_context = [] }

abbrev pub model : MapInfo
model = record { type = 6; job = none; task = none }

abbrev pub nothing : Text → Result (Value ℕ)
nothing _ = ok (scalar 0 [] (integer 0))

abbrev pub empty_model : Value ℕ
empty_model = map 0 untagged model no_entry

abbrev value_or : Result (Value ℕ) → Value ℕ
value_or (ok v) = v
value_or (err _) = empty_model

abbrev generated_model : Value ℕ
generated_model = value_or (generate halves schema nothing 2 empty_model)

generate-IsGiven_example :
    All (λ e. IsGiven (schema.arguments e.1) generated_model) (type_info 6).arguments
unfolding generate get_flag generate_own text_eq lookup Maps.equals Scalar.equals
generate-IsGiven_example =
    generate-IsGiven halves schema nothing 2 0 untagged model no_entry generated_model 6 refl refl
      itself

abbrev size_three : Entries ℕ
size_three = next_entry (codes "size") (scalar 0 [] (integer 3)) no_entry

abbrev validated_model : Value ℕ
validated_model = value_or (validate halves schema 2 2 (map 0 untagged model size_three))

validate-IsProvided_example :
    (after : Entries ℕ) × (validated_model ≡ map (set_flag validated true 0) untagged model after)
    × ((u : ℕ)
        → Above type_info u 6
        → All (λ e. IsProvided schema 2 after e.1) (type_info u).arguments)
unfolding validate get_flag text_eq is_null accepts first_above same
validate-IsProvided_example =
    validate-IsProvided halves schema 1 2 0 untagged model size_three validated_model refl refl

abbrev configured_model : Value ℕ
configured_model = value_or (configure halves schema nothing 2 2 empty_model)

configure_again_example :
    (get_flag generated (flags_of configured_model) ≡ true)
    × (get_flag validated (flags_of configured_model) ≡ true)
    × (get_flag sealed (flags_of configured_model) ≡ true)
    × (configure halves schema nothing 2 2 configured_model ≡ ok configured_model)
unfolding configure generate_own text_eq lookup Maps.equals Scalar.equals is_null accepts
    first_above same
configure_again_example =
    configure_again halves schema nothing 1 2 empty_model configured_model refl

-- A map with a value that was made by job 0.
abbrev trained : Value ℕ
trained = map 0 untagged model (
    next_entry (codes "size")
      (map 0 untagged (record { type = 6; job = some 0; task = none }) no_entry) no_entry)

add_dependencies-jobs_of_example :
    (((add_dependencies schema 1 trained idle).jobs 1).dependencies ≡ waiting_on 0 ∷ [])
    × IsSound (add_dependencies schema 1 trained idle)
unfolding jobs_of
add_dependencies-jobs_of_example = add_dependencies-jobs_of schema 1 trained idle idle-IsSound

abbrev twenty_bytes : Text
twenty_bytes = 1 ∷ 2 ∷ 3 ∷ 4 ∷ 5 ∷ 6 ∷ 7 ∷ 8 ∷ 9 ∷ 10 ∷ 1 ∷ 2 ∷ 3 ∷ 4 ∷ 5 ∷ 6 ∷ 7 ∷ 8 ∷ 9 ∷ 10 ∷ []

-- A digest that is the same for all texts.
abbrev pub hash : Hash ℕ
hash = record { sha1 = λ _. twenty_bytes; bytes = λ _ n. n ∷ []; double_bytes = λ x. x ∷ [] }

unique_identifier-put_example :
    unique_identifier schema hash
      (map 0 untagged model (put (codes "out") (scalar 16 [] (integer 1)) size_three))
    ≡ unique_identifier schema hash (map 1 untagged model size_three)
unfolding can_ignore get_flag find text_eq
unique_identifier-put_example =
    unique_identifier-put schema hash (codes "out") (scalar 16 [] (integer 1)) 0 1 untagged untagged
      model size_three refl (λ w e. absurd (none-ne-some w e))

hash-IsSha1 : IsSha1 hash
hash-IsSha1 = record { are_bytes = λ _. ground arith; twenty = λ _. refl }

abbrev path_or : Result FilePath → FilePath
path_or (ok p) = p
path_or (err _) = local []

abbrev place : FilePath
place = path_or (generate_path schema hash (local (codes "/jobs")) (codes "model") empty_model)

generate_path_injective_example :
    digest schema hash empty_model ≡ digest schema hash (map 1 untagged model no_entry)
unfolding generate_path
generate_path_injective_example =
    generate_path_injective schema hash (local (codes "/jobs")) place (codes "model") 0 1 untagged
      untagged model model no_entry no_entry hash-IsSha1 refl refl refl

set-configure_example :
    set halves schema (codes "a") (scalar 0 [] (integer 7)) configured_model ≡ err sealed_error
unfolding configure generate_own text_eq lookup Maps.equals Scalar.equals is_null accepts
    first_above same
set-configure_example =
    set-configure halves schema nothing 1 2 empty_model _ _ _ _ refl (codes "a")
      (scalar 0 [] (integer 7))
