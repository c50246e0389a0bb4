-- ===== src/Scalar.antt =====
-- The scalars of src/scalar.cpp and include/public/xpm/scalar.hpp. What the standard library does with
-- doubles, and with texts that hold numbers, is a parameter; a `long` is its 64-bit pattern, an `int`
-- its 32-bit pattern.
pub mod Conversions
pub mod Copies
pub mod Json
pub mod Casts
use experimaestro.Prelude.{
  ℕ, ◌+◌, ◌-◌, ◌^◌, Bool, true, false, not, Option, List, [], Text, codes, text_eq, ◌==◌, leb,
  if◌then◌else◌,
}
use experimaestro.Errors.{Result, ok, err, runtime_error, out_of_range}
use experimaestro.Path.{FilePath, to_string}

-- The functions on doubles, and `std::to_string`, `std::regex_match`, `std::atol` and `std::atof`.
pub record Numbers : Type 1 where
  pub Double : Type 0
  pub equal : Double → Double → Bool
  pub is_nonzero : Double → Bool
  pub trunc : Double → Double
  pub to_long : Double → ℕ
  pub to_int : Double → ℕ
  pub of_int : ℕ → Double
  pub of_long : ℕ → Double
  pub real_text : Double → Text
  pub long_text : ℕ → Text
  pub regex_match : Text → Text → Bool
  pub atol : Text → ℕ
  pub atof : Text → Double

pub data ScalarType : Type 0 where
  type_unset type_none type_boolean type_integer type_real type_string type_path : ScalarType

-- The tagged union; `unset` and `none` have no value.
pub data Scalar (D : Type 0) : Type 0 where
  unset none : Scalar D
  boolean : (value : Bool) → Scalar D
  integer : (value : ℕ) → Scalar D
  real : (value : D) → Scalar D
  string : (value : Text) → Scalar D
  path : (value : Text) → Scalar D

-- `Scalar(int)` widens with the sign.
unfoldable pub widen : ℕ → ℕ
widen n = if leb (2 ^ 31) n then n + 2 ^ 64 - 2 ^ 32 else n

unfoldable pub of_path : {D : Type 0} → FilePath → Scalar D
unfolding to_string
of_path p = path (to_string p)

unfoldable pub scalar_type : {D : Type 0} → Scalar D → ScalarType
scalar_type unset = type_unset
scalar_type none = type_none
scalar_type (boolean _) = type_boolean
scalar_type (integer _) = type_integer
scalar_type (real _) = type_real
scalar_type (string _) = type_string
scalar_type (path _) = type_path

unfoldable pub is_defined : {D : Type 0} → Scalar D → Bool
is_defined unset = false
is_defined _ = true

unfoldable pub is_null : {D : Type 0} → Scalar D → Bool
is_null none = true
is_null _ = false

unfoldable pub get_boolean : {D : Type 0} → Scalar D → Result Bool
get_boolean (boolean value) = ok value
get_boolean _ = err runtime_error

unfoldable pub get_real : {D : Type 0} → Scalar D → Result D
get_real (real value) = ok value
get_real _ = err runtime_error

unfoldable pub get_integer : {D : Type 0} → Scalar D → Result ℕ
get_integer (integer value) = ok value
get_integer _ = err runtime_error

unfoldable pub get_string : {D : Type 0} → Scalar D → Result Text
get_string (string value) = ok value
get_string _ = err runtime_error

-- `equals`, on scalars of one type; the types are compared first.
unfoldable pub equals : (m : Numbers) → Scalar (m.Double) → Scalar (m.Double) → Result Bool
equals m unset unset = err runtime_error
equals m none none = ok true
equals m (boolean x) (boolean y) = ok (if x then y else not y)
equals m (integer x) (integer y) = ok (x == y)
equals m (real x) (real y) = ok (m.equal x y)
equals m (string x) (string y) = ok (text_eq x y)
equals m (path x) (path y) = ok (text_eq x y)
equals m _ _ = ok false
