-- ===== src/Errors.antt =====
-- The exceptions of include/public/xpm/common.hpp and src/common.cpp, and those of the standard
-- library that the program throws. A message is left out, but for the path of `parameter_error`,
-- which its handlers extend. The last four constructors are no exceptions: a read past the end of a
-- text or a map, a failed `assert`, a mutex that its own thread locks again, and a recursion or loop of the model that has used
-- up its fuel.
pub mod Message
use experimaestro.Prelude.{
  ◌⊎◌, inl, inr, Text, Bool, true, false, ◌≡◌, ◌≢◌, refl, ap, List, [], ◌∷◌, ◌++◌, arith,
}

pub data Error : Type 0 where
  exception sealed_error exited_error argument_error cast_error assertion_error : Error
  not_implemented_error io_error lock_error illegal_argument_error : Error
  runtime_error out_of_range logic_error invalid_argument json_error standard_exception : Error
  parameter_error : (message : Text) (path : List Text) → Error
  undefined_behaviour failed_assert deadlock out_of_fuel : Error

-- What a call that may throw comes back with.
pub data Result {ℓ} (A : Type ℓ) : Type ℓ where
  ok : (value : A) → Result A
  err : (thrown : Error) → Result A

-- A statement, and what comes behind it when it does not throw.
abbrev pub ◌>>=◌ {ℓ κ} : {A : Type ℓ} {B : Type κ} → Result A → (A → Result B) → Result B
err thrown >>= rest = err thrown
ok value >>= rest = rest value

infixl 5 ◌>>=◌
-- `parameter_error::addPath`, as a handler that rethrows: other exceptions pass unchanged.
unfoldable pub add_path : Text → Error → Error
add_path argument (parameter_error message path) = parameter_error message (path ++ argument ∷ [])
add_path argument e = e

-- `try { m } catch (parameter_error &e) { throw e.addPath(argument); }`
abbrev pub rethrow {ℓ} : {A : Type ℓ} → Text → Result A → Result A
rethrow argument (ok a) = ok a
rethrow argument (err e) = err (add_path argument e)

pub Result-cases {ℓ} :
    {A : Type ℓ} (r : Result A)
    → ((value : A) × (r ≡ ok value)) ⊎ ((thrown : Error) × (r ≡ err thrown))
Result-cases (err thrown) = inr (thrown, refl)
Result-cases (ok value) = inl (value, refl)

-- A statement with another behind it returned, so both did.
pub >>=-eq-ok {ℓ κ} :
    {A : Type ℓ} {B : Type κ} (r : Result A) (rest : A → Result B) {out : B}
    → r >>= rest ≡ ok out
    → (value : A) × (r ≡ ok value) × (rest value ≡ ok out)
>>=-eq-ok (err thrown) rest returned = ground arith
>>=-eq-ok (ok value) rest returned = (value, refl, returned)

pub ok-injective {ℓ} : {A : Type ℓ} {x y : A} → Result.ok x ≡ Result.ok y → x ≡ y
ok-injective e = cc

pub err-ne-ok {ℓ} : {A : Type ℓ} {e : Error} {x : A} → ¬ (err e ≡ ok x)
err-ne-ok h = cc

abbrev the_result {ℓ} : (A : Type ℓ) → Result A → Result A
the_result A r = r

pub err-injective {ℓ} : {A : Type ℓ} {x y : Error} → the_result A (err x) ≡ err y → x ≡ y
err-injective e = cc

-- An error that neither of two statements throws is not thrown by the one behind the other.
pub >>=-ne-err {ℓ κ} :
    {A : Type ℓ} {B : Type κ} {x : Error} (r : Result A) (rest : A → Result B)
    → r ≢ err x
    → ((value : A) → r ≡ ok value → rest value ≢ err x)
    → r >>= rest ≢ err x
>>=-ne-err (err thrown) rest first second = λ h. first (ap err (err-injective h))
>>=-ne-err (ok value) rest first second = second value refl

pub ok-ne-err {ℓ} : {A : Type ℓ} {a : A} {x : Error} → ok a ≢ err x
ok-ne-err h = cc
