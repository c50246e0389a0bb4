-- ===== src/Value/Validation/Ends.antt =====
-- One level of `validate` comes to an end, when the levels below do.
use experimaestro.Prelude.{ℕ, suc, ◌≡◌, ◌≢◌, inl, inr, subst, Text, Bool-cases, Option-cases}
use experimaestro.Errors.{
  Result, parameter_error, add_path, ok, err, out_of_fuel, rethrow, >>=-eq-ok, >>=-ne-err,
  ok-injective, err-ne-ok, ok-ne-err,
}
use experimaestro.Scalar.{Numbers}
use experimaestro.Types.{accepts}
use experimaestro.Types.Ranked.{Ranks, accepts_ends}
use experimaestro.Value.{Value, Values, no_value, next_value, Entries}
use experimaestro.Value.Arguments.{Argument, Schema, type_of_argument}
use experimaestro.Value.Maps.{find, type_of}
use experimaestro.Value.Maps.Levels.{
  IsShallow, ElementsShallow, EntriesShallow, find-Shallow, put-Shallow,
}
use experimaestro.Value.Validation.{
  is_nothing, not_given, check_value, validate_argument, validate_elements,
}
use experimaestro.Value.Validation.Seen.{rethrow-ok}

rethrow_ends {ℓ} :
    {A : Type ℓ} (n : Text) (r : Result A) → r ≢ err out_of_fuel → rethrow n r ≢ err out_of_fuel
unfolding add_path
rethrow_ends n (ok a) e = ok-ne-err
rethrow_ends n (err (parameter_error message path)) e = λ h. cc
rethrow_ends n (err x) e = e

module _ (m : Numbers) (schema : Schema m.Double) (fuel n : ℕ)
    (inner : Value m.Double → Result (Value m.Double))
    (keeps : (v w : Value m.Double) → IsShallow n v → inner v ≡ ok w → IsShallow n w) where
  not_given-Shallow :
      (type : ℕ) (a : Argument m.Double) (es after : Entries m.Double)
      → EntriesShallow n es
      → not_given m schema type a es ≡ ok after
      → EntriesShallow n after
  unfolding not_given
  not_given-Shallow type a es after s e = elim (Bool-cases a.is_required) [
    | inl r ↦ absurd (err-ne-ok (rw (r, not_given) at e))
    | inr r ↦ subst (EntriesShallow n) (ok-injective (rw (r, not_given) at e)) s
  ]

  check_value-Shallow :
      (a : Argument m.Double) (v : Value m.Double) (es after : Entries m.Double)
      → IsShallow n v
      → EntriesShallow n es
      → check_value m schema fuel inner a v es ≡ ok after
      → EntriesShallow n after
  unfolding check_value
  check_value-Shallow a v es after h s e =
      let (b, first, rest) =
        >>=-eq-ok (accepts fuel schema.types (type_of_argument a) (type_of schema v)) _ e in
      elim (Bool-cases b) [
        | inr no_fit ↦ absurd (err-ne-ok (rw no_fit at rest))
        | inl fits ↦
            let (w, second, last) = >>=-eq-ok (rethrow a.name (inner v)) _ (rw fits at rest) in
            subst (EntriesShallow n) (ok-injective last)
              (put-Shallow n a.name w es (keeps v w h (rethrow-ok a.name (inner v) second)) s)
      ]

  pub validate_argument-Shallow :
      (type k : ℕ) (es after : Entries m.Double)
      → EntriesShallow n es
      → validate_argument m schema fuel inner type k es ≡ ok after
      → EntriesShallow n after
  unfolding validate_argument
  validate_argument-Shallow type k es after s e =
      let a : Argument m.Double = schema.arguments k in
      elim (Option-cases (find a.name es)) [
        | inl missing ↦ not_given-Shallow type a es after s (rw (missing, validate_argument) at e)
        | inr (v, found) ↦ elim (Bool-cases (is_nothing v)) [
          | inl empty ↦
              not_given-Shallow type a es after s (rw (found, empty, validate_argument) at e)
          | inr full ↦
              check_value-Shallow a v es after (find-Shallow n a.name es v s found) s
                (rw (found, full, validate_argument) at e)
        ]
      ]

  pub validate_elements-Shallow :
      (i : ℕ) (vs ws : Values m.Double)
      → ElementsShallow n vs
      → validate_elements m schema inner i vs ≡ ok ws
      → ElementsShallow n ws
  unfolding validate_elements ElementsShallow
  validate_elements-Shallow i no_value ws s e = subst (ElementsShallow n) (ok-injective e) tt
  validate_elements-Shallow i (next_value v rest) ws s e =
      let (w, first, more) = >>=-eq-ok (rethrow _ (inner v)) _ e in
      let (us, second, last) = >>=-eq-ok (validate_elements m schema inner (suc i) rest) _ more in
      subst (ElementsShallow n) (ok-injective last) (
        keeps v w s.0 (rethrow-ok _ (inner v) first),
        validate_elements-Shallow (suc i) rest us s.1 second,
      )

  module _ (ranks : Ranks schema.types fuel)
      (ends : (v : Value m.Double) → IsShallow n v → inner v ≢ err out_of_fuel) where
    not_given_ends :
        (type : ℕ) (a : Argument m.Double) (es : Entries m.Double)
        → not_given m schema type a es ≢ err out_of_fuel
    unfolding not_given
    not_given_ends type a es = elim (Bool-cases a.is_required) [
      | inl r ↦ rw (r, not_given) (λ h. cc)
      | inr r ↦ rw (r, not_given) ok-ne-err
    ]

    check_value_ends :
        (a : Argument m.Double) (v : Value m.Double) (es : Entries m.Double)
        → IsShallow n v
        → check_value m schema fuel inner a v es ≢ err out_of_fuel
    unfolding check_value
    check_value_ends a v es h =
        >>=-ne-err (accepts fuel schema.types (type_of_argument a) (type_of schema v)) _
          (accepts_ends schema.types fuel (type_of_argument a) (type_of schema v) ranks)
          (λ b _. elim (Bool-cases b) [
            | inl fits ↦ rw fits (
                >>=-ne-err (rethrow a.name (inner v)) _ (rethrow_ends a.name (inner v) (ends v h))
                  (λ _ _. ok-ne-err))
            | inr no_fit ↦ rw no_fit (λ e. cc)
          ])

    pub validate_argument_ends :
        (type k : ℕ) (es : Entries m.Double)
        → EntriesShallow n es
        → validate_argument m schema fuel inner type k es ≢ err out_of_fuel
    unfolding validate_argument
    validate_argument_ends type k es s =
        let a : Argument m.Double = schema.arguments k in
        elim (Option-cases (find a.name es)) [
          | inl missing ↦ rw (missing, validate_argument) (not_given_ends type a es)
          | inr (v, found) ↦ elim (Bool-cases (is_nothing v)) [
            | inl empty ↦ rw (found, empty, validate_argument) (not_given_ends type a es)
            | inr full ↦
                rw (found, full, validate_argument)
                  (check_value_ends a v es (find-Shallow n a.name es v s found))
          ]
        ]

    pub validate_elements_ends :
        (i : ℕ) (vs : Values m.Double)
        → ElementsShallow n vs
        → validate_elements m schema inner i vs ≢ err out_of_fuel
    unfolding validate_elements ElementsShallow
    validate_elements_ends i no_value s = ok-ne-err
    validate_elements_ends i (next_value v rest) s =
        >>=-ne-err (rethrow _ (inner v)) _ (rethrow_ends _ (inner v) (ends v s.0)) (λ w _.
          >>=-ne-err (validate_elements m schema inner (suc i) rest) _
            (validate_elements_ends (suc i) rest s.1) (λ _ _. ok-ne-err))
