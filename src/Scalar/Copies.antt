-- ===== src/Scalar/Copies.antt =====
-- Copies and assignments, and what `equals` says of them.
use experimaestro.Prelude.{
  ◌≡◌, ◌≢◌, ◌↔◌, refl, Bool, true, false, not, text_eq_iff, if◌then◌else◌, arith, ==_iff,
}
use experimaestro.Errors.{Result, ok, err, out_of_range}
use experimaestro.Scalar.{
  Numbers, Scalar, unset, none, boolean, integer, real, string, path, equals,
}

-- The copy constructor.
unfoldable pub copy : {D : Type 0} → Scalar D → Result (Scalar D)
copy none = ok none
copy (real value) = ok (real value)
copy (integer value) = ok (integer value)
copy (boolean value) = ok (boolean value)
copy (path value) = ok (path value)
copy (string value) = ok (string value)
copy _ = err out_of_range

-- `operator=`: what the target holds after it.
unfoldable pub assign : {D : Type 0} → Scalar D → Scalar D → Scalar D
assign target none = none
assign target unset = unset
assign target (real value) = real value
assign target (integer value) = integer value
assign target (boolean value) = boolean value
assign target (path value) = path value
assign target (string value) = string value

-- Equality of doubles is that of the model, on the doubles in question.
pub record IsExact (m : Numbers) : Type 0 where
  pub exact : (x y : m.Double) → (m.equal x y ≡ true) ↔ (x ≡ y)

Bool-equal : (x y : Bool) → ((if x then y else not y) ≡ true) ↔ (x ≡ y)
Bool-equal true true = ground arith
Bool-equal true false = ground arith
Bool-equal false true = ground arith
Bool-equal false false = ground arith

-- Where the equality of doubles is that of the values, two scalars of which the first is set are
-- equal for the program exactly when they are the same.
equals_iff :
    (m : Numbers) (a b : Scalar m.Double)
    → IsExact m
    → a ≢ unset
    → (equals m a b ≡ ok true) ↔ (a ≡ b)
unfolding equals
equals_iff m unset b h set = absurd (set refl)
equals_iff m none none h set = ground arith
equals_iff m (boolean x) (boolean y) h set = ground (arith, Bool-equal x y)
equals_iff m (integer x) (integer y) h set = ground (arith, ==_iff x y)
equals_iff m (real x) (real y) h set = ground (arith, h.exact x y)
equals_iff m (string x) (string y) h set = ground (arith, text_eq_iff x y)
equals_iff m (path x) (path y) h set = ground (arith, text_eq_iff x y)
equals_iff m a b h set = ground arith

-- A copy and an assignment give the scalar itself, but for one that is unset: its copy is refused,
-- although it can be assigned.
copy-assign :
    {D : Type 0} (s target : Scalar D) → (assign target s ≡ s) × ((copy s ≡ ok s) ↔ (s ≢ unset))
unfolding copy assign
copy-assign s target = elim s [
  | unset ↦ ground arith
  | none ↦ ground arith
  | boolean x ↦ ground arith
  | integer x ↦ ground arith
  | real x ↦ ground arith
  | string x ↦ ground arith
  | path x ↦ ground arith
]
