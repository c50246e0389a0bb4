-- ===== src/Scalar/Json.antt =====
-- Scalars as JSON: the constructor from a JSON value, and `toJson`.
use experimaestro.Prelude.{ℕ, Bool, false, Text, codes, ◌≡◌, refl, if◌then◌else◌}
use experimaestro.Errors.{Result, ok, err, exception, runtime_error, ◌>>=◌}
use experimaestro.Scalar.{Numbers, Scalar, unset, none, boolean, integer, real, string, path}

-- The values of `nlohmann::json`, by `value_t`; an integer is a 64-bit pattern.
mutual
  pub data Json (D : Type 0) : Type 0 where
    null discarded : Json D
    json_string : (value : Text) → Json D
    json_boolean : (value : Bool) → Json D
    number_integer number_unsigned : (value : ℕ) → Json D
    number_float : (value : D) → Json D
    object : (members : Members D) → Json D
    array : (elements : Elements D) → Json D

  pub data Members (D : Type 0) : Type 0 where
    no_member : Members D
    member : (key : Text) (value : Json D) (rest : Members D) → Members D

  pub data Elements (D : Type 0) : Type 0 where
    no_element : Elements D
    element : (value : Json D) (rest : Elements D) → Elements D

module _ (m : Numbers) where
  open m use {Double, equal, trunc, to_long}

  unfoldable pub from_json : Json Double → Result (Scalar Double)
  from_json null = ok none
  from_json discarded = ok none
  from_json (json_string value) = ok (string value)
  from_json (json_boolean value) = ok (boolean value)
  from_json (number_integer value) = ok (integer value)
  from_json (number_unsigned value) = ok (integer value)
  from_json (number_float value) =
      if equal (trunc value) value then ok (integer (to_long value)) else ok (real value)
  from_json _ = err exception

  -- A path is an object with its text and its type.
  unfoldable pub to_json : Scalar Double → Result (Json Double)
  to_json none = ok null
  to_json (string value) = ok (json_string value)
  to_json (integer value) = ok (number_integer value)
  to_json (real value) = ok (number_float value)
  to_json (boolean value) = ok (json_boolean value)
  to_json (path value) = ok (
      object (
        member (codes "$type") (json_string (codes "path"))
          (member (codes "$value") (json_string value) no_member)))
  to_json unset = err runtime_error

-- The scalars that JSON keeps: all but a path, an unset scalar, and a real that is equal to its
-- integral part.
abbrev pub IsPlain : (m : Numbers) → Scalar m.Double → Type 0
IsPlain m unset = ⊥
IsPlain m (path value) = ⊥
IsPlain m (real value) = m.equal (m.trunc value) value ≡ false
IsPlain m _ = Unit {0}

-- A scalar that is set, no path and no real with an integral value comes back from its JSON as it was.
from_json-to_json :
    (m : Numbers) (s : Scalar m.Double) → IsPlain m s → (to_json m s >>= from_json m) ≡ ok s
unfolding to_json from_json
from_json-to_json m unset p = absurd p
from_json-to_json m (path value) p = absurd p
from_json-to_json m (real value) p = rw p
from_json-to_json m none p = refl
from_json-to_json m (boolean value) p = refl
from_json-to_json m (integer value) p = refl
from_json-to_json m (string value) p = refl
