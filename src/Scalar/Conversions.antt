-- ===== src/Scalar/Conversions.antt =====
-- The conversions of a scalar: `asInteger`, `asReal`, `asPath`, `asBoolean`, `asString`.
use experimaestro.Prelude.{
  ℕ, ◌≡◌, ◌↔◌, sym, ap, Bool, true, false, not, [], ◌∷◌, Text, ◌==◌, if◌then◌else◌,
}
use experimaestro.Errors.{Result, ok, err, cast_error, out_of_range, ok-injective}
use experimaestro.Path
use experimaestro.Path.{FilePath, local}
use experimaestro.Scalar.{
  Numbers, Scalar, unset, none, boolean, integer, real, string, path, widen, of_path,
}

-- `!_value.string.empty()`
unfoldable pub is_filled : Text → Bool
is_filled [] = false
is_filled (_ ∷ _) = true

module _ (m : Numbers) where
  open m use {Double, equal, is_nonzero, to_int, of_int, of_long, real_text, long_text}

  unfoldable pub as_integer : Scalar Double → Result ℕ
  unfolding widen
  as_integer (real value) =
      if equal value (of_int (to_int value)) then ok (widen (to_int value)) else err cast_error
  as_integer (integer value) = ok value
  as_integer (boolean value) = ok (if value then 1 else 0)
  as_integer _ = err cast_error

  unfoldable pub as_real : Scalar Double → Result Double
  unfolding is_filled
  as_real (real value) = ok value
  as_real (integer value) = ok (of_long value)
  as_real (boolean value) = ok (of_int (if value then 1 else 0))
  as_real (path value) = ok (of_int (if is_filled value then 1 else 0))
  as_real (string value) = ok (of_int (if is_filled value then 1 else 0))
  as_real _ = err cast_error

  unfoldable pub as_path : Scalar Double → Result FilePath
  unfolding local
  as_path (path value) = ok (local value)
  as_path (string value) = ok (local value)
  as_path _ = err cast_error

  unfoldable pub as_boolean : Scalar Double → Result Bool
  unfolding is_filled
  as_boolean unset = err out_of_range
  as_boolean none = ok false
  as_boolean (real value) = ok (is_nonzero value)
  as_boolean (integer value) = ok (not (value == 0))
  as_boolean (boolean value) = ok value
  as_boolean (path value) = ok (is_filled value)
  as_boolean (string value) = ok (is_filled value)

  unfoldable pub as_string : Scalar Double → Result Text
  as_string (real value) = ok (real_text value)
  as_string (integer value) = ok (long_text value)
  as_string (boolean value) = ok (long_text (if value then 1 else 0))
  as_string (path value) = ok value
  as_string (string value) = ok value
  as_string _ = err cast_error

  unfoldable pub to_string : Scalar Double → Result Text
  unfolding as_string
  to_string unset = ok []
  to_string s = as_string s

-- A path that is made a scalar and a path again is the same path exactly when it is on no share: the
-- share is only a prefix of the scalar's text.
as_path-of_path : (m : Numbers) (p : FilePath) → (as_path m (of_path p) ≡ ok p) ↔ (p.share ≡ [])
unfolding as_path of_path local Path.to_string
as_path-of_path m p = ((λ h. ap (λ q. q.share) (sym (ok-injective h))), (λ h. rw h))
