-- ===== src/Scalar/Casts.antt =====
-- `cast`, and the reading of a scalar from a text with a type.
use experimaestro.Prelude.{
  ◌≡◌, ◌≢◌, refl, subst, Bool, true, false, ◌||◌, Text, codes, text_eq, if◌then◌else◌, arith,
}
use experimaestro.Errors.{
  Result, ok, err, runtime_error, argument_error, ◌>>=◌, >>=-eq-ok, ok-injective,
}
use experimaestro.Path.{local}
use experimaestro.Scalar.{
  Numbers, ScalarType, type_unset, type_none, type_boolean, type_integer, type_real, type_string,
  type_path, Scalar, boolean, integer, real, string, of_path, scalar_type,
}
use experimaestro.Scalar.Conversions.{as_integer, as_real, as_path, as_boolean, as_string}

-- The types that a scalar is cast to: the simple types by the type of their values, and the others.
pub data Target : Type 0 where
  any : Target
  simple : (value_type : ScalarType) → Target
  other : Target

abbrev integer_pattern : Text
integer_pattern = codes "\\d+"

abbrev real_pattern : Text
real_pattern = codes "[+-]?(?:0|[1-9]\\d*)(?:\\.\\d*)?(?:[eE][+\\-]?\\d+)?"

-- The texts for a boolean.
unfoldable pub is_yes : Text → Bool
is_yes s =
    text_eq s (codes "Y")
    || (text_eq s (codes "true") || (text_eq s (codes "Yes") || text_eq s (codes "ON")))

unfoldable pub is_no : Text → Bool
is_no s =
    text_eq s (codes "N")
    || (text_eq s (codes "false") || (text_eq s (codes "No") || text_eq s (codes "OFF")))

module _ (m : Numbers) where
  open m use {Double, regex_match, atol, atof}

  -- `cast`: only a `SimpleType` has a type of values.
  unfoldable pub cast : Scalar Double → Target → Result (Scalar Double)
  unfolding of_path
  cast s (simple type_path) = as_path m s >>= λ p. ok (of_path p)
  cast s (simple type_string) = as_string m s >>= λ x. ok (string x)
  cast s (simple type_integer) = as_integer m s >>= λ x. ok (integer x)
  cast s (simple type_boolean) = as_boolean m s >>= λ x. ok (boolean x)
  cast s (simple type_real) = as_real m s >>= λ x. ok (real x)
  cast s (simple type_none) = ok s
  cast s _ = err runtime_error

  -- `fromString`, by the predefined type that is the hint.
  unfoldable pub from_string : Text → Target → Result (Scalar Double)
  unfolding of_path is_yes is_no local
  from_string s any = ok (string s)
  from_string s (simple type_path) = ok (of_path (local s))
  from_string s (simple type_integer) =
      if regex_match s integer_pattern then ok (integer (atol s)) else err argument_error
  from_string s (simple type_boolean) =
      if is_yes s
      then ok (boolean true)
      else if is_no s
      then ok (boolean false)
      else err argument_error
  from_string s (simple type_real) =
      if regex_match s real_pattern then ok (real (atof s)) else err argument_error
  from_string s _ = err argument_error

  returned_type :
      {A : Type 0} (r : Result A) (f : A → Scalar Double) (t : ScalarType) {x : Scalar Double}
      → ((a : A) → scalar_type (f a) ≡ t)
      → (r >>= λ a. ok (f a)) ≡ ok x
      → scalar_type x ≡ t
  returned_type r f t has h =
      let (a, _, e) = >>=-eq-ok r (λ a. ok (f a)) h in
      subst (λ y. scalar_type y ≡ t) (ok-injective e) (has a)

  -- A cast to a simple type other than that of NONE, when it returns, gives a scalar of that type.
  pub scalar_type-cast :
      (s x : Scalar Double) (t : ScalarType)
      → t ≢ type_none
      → cast s (simple t) ≡ ok x
      → scalar_type x ≡ t
  unfolding cast scalar_type
  scalar_type-cast s x type_unset n h = ground arith
  scalar_type-cast s x type_none n h = absurd (n refl)
  scalar_type-cast s x type_boolean n h =
      returned_type (as_boolean m s) boolean type_boolean (λ _. refl) h
  scalar_type-cast s x type_integer n h =
      returned_type (as_integer m s) integer type_integer (λ _. refl) h
  scalar_type-cast s x type_real n h = returned_type (as_real m s) real type_real (λ _. refl) h
  scalar_type-cast s x type_string n h =
      returned_type (as_string m s) string type_string (λ _. refl) h
  scalar_type-cast s x type_path n h = returned_type (as_path m s) of_path type_path (λ _. refl) h

  -- A scalar that is read from a text with a simple type as hint, when it is returned, has that
  -- type.
  scalar_type-from_string :
      (s : Text) (t : ScalarType) (x : Scalar Double)
      → from_string s (simple t) ≡ ok x
      → scalar_type x ≡ t
  unfolding from_string scalar_type
  scalar_type-from_string s type_unset x h = ground arith
  scalar_type-from_string s type_none x h = ground arith
  scalar_type-from_string s type_boolean x h = ground arith
  scalar_type-from_string s type_integer x h = ground arith
  scalar_type-from_string s type_real x h = ground arith
  scalar_type-from_string s type_string x h = ground arith
  scalar_type-from_string s type_path x h = ground arith
