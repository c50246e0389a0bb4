-- ===== src/Value/Validation/Answers.antt =====
-- `validate` comes to an end, at all the levels of a value.
use experimaestro.Prelude.{ℕ, zero, suc, ◌≡◌, ◌≢◌, inl, inr, subst, true, Bool-cases, some}
use experimaestro.Errors.{
  Result, ok, err, out_of_fuel, >>=-eq-ok, >>=-ne-err, ok-injective, err-ne-ok, ok-ne-err,
}
use experimaestro.Scalar.{Numbers}
use experimaestro.Types.Ranked.{Ranks}
use experimaestro.Value.{validated, get_flag, flags_of, Value, scalar, array, map}
use experimaestro.Value.Arguments.{Schema}
use experimaestro.Value.Maps.Levels.{IsShallow, EntriesShallow, mark-Shallow}
use experimaestro.Value.Folding.{fold_types}
use experimaestro.Value.Folding.Ends.{fold_types-invariant, fold_types_ends}
use experimaestro.Value.Validation.{validate_argument, validate_elements, validate_own, validate}
use experimaestro.Value.Validation.Ends.{
  validate_argument-Shallow, validate_elements-Shallow, validate_argument_ends,
  validate_elements_ends,
}

module _ (m : Numbers) (schema : Schema m.Double) (fuel : ℕ) where
  abbrev Keeps : ℕ → (Value m.Double → Result (Value m.Double)) → Type 0
  Keeps n inner = (v w : Value m.Double) → IsShallow n v → inner v ≡ ok w → IsShallow n w

  validate_own-Shallow :
      (n : ℕ) (inner : Value m.Double → Result (Value m.Double))
      → Keeps n inner
      → Keeps (suc n) (validate_own m schema fuel inner)
  unfolding validate_own IsShallow
  validate_own-Shallow n inner keeps (scalar flags tag content) w s e =
      subst (IsShallow (suc n)) (ok-injective e) tt
  validate_own-Shallow n inner keeps (array flags x c vs) w s e =
      let (ws, first, last) = >>=-eq-ok (validate_elements m schema inner 0 vs) _ e in
      subst (IsShallow (suc n)) (ok-injective last)
        (validate_elements-Shallow m schema fuel n inner keeps 0 vs ws s first)
  validate_own-Shallow n inner keeps (map flags x i es) w s e =
      let step = validate_argument m schema fuel inner i.type in
      let (after, first, last) =
        >>=-eq-ok (fold_types step fuel schema.types (some i.type) es) _ e in
      subst (IsShallow (suc n)) (ok-injective last) (
        fold_types-invariant step (EntriesShallow n)
          (validate_argument-Shallow m schema fuel n inner keeps i.type) fuel schema.types
          (some i.type) es after s first)

  validate-Shallow : (n levels : ℕ) → Keeps n (validate m schema levels fuel)
  unfolding validate IsShallow
  validate-Shallow n zero v w s e = absurd (err-ne-ok e)
  validate-Shallow zero (suc levels) v w s e = absurd s
  validate-Shallow (suc n) (suc levels) v w s e =
      elim (Bool-cases (get_flag validated (flags_of v))) [
        | inl old ↦ subst (IsShallow (suc n)) (ok-injective (rw (old, validate) at e)) s
        | inr new ↦
            let inner = validate m schema levels fuel in
            let (u, own, last) =
              >>=-eq-ok (validate_own m schema fuel inner v) _ (rw (new, validate) at e) in
            subst (IsShallow (suc n)) (ok-injective last) (
              mark-Shallow (suc n) validated true u
                (validate_own-Shallow n inner (validate-Shallow n levels) v u s own))
      ]

  module _ (ranks : Ranks schema.types fuel) where
    validate_own_ends :
        (n : ℕ) (inner : Value m.Double → Result (Value m.Double)) (v : Value m.Double)
        → Keeps n inner
        → ((w : Value m.Double) → IsShallow n w → inner w ≢ err out_of_fuel)
        → IsShallow (suc n) v
        → validate_own m schema fuel inner v ≢ err out_of_fuel
    unfolding validate_own IsShallow
    validate_own_ends n inner (scalar flags tag content) keeps ends s = ok-ne-err
    validate_own_ends n inner (array flags x c vs) keeps ends s =
        >>=-ne-err (validate_elements m schema inner 0 vs) _
          (validate_elements_ends m schema fuel n inner keeps ranks ends 0 vs s) (λ _ _. ok-ne-err)
    validate_own_ends n inner (map flags x i es) keeps ends s =
        let step = validate_argument m schema fuel inner i.type in
        >>=-ne-err (fold_types step fuel schema.types (some i.type) es) _
          (fold_types_ends step (EntriesShallow n)
            (validate_argument-Shallow m schema fuel n inner keeps i.type)
            (validate_argument_ends m schema fuel n inner keeps ranks ends i.type) fuel schema.types
            i.type es ranks s)
          (λ _ _. ok-ne-err)

    -- On a value of at most the given number of levels, and types whose chains of parents are shorter
    -- than the fuel, `validate` ends: it comes back with a value or with an error of the program.
    pub validate_ends :
        (levels : ℕ) (v : Value m.Double)
        → IsShallow levels v
        → validate m schema levels fuel v ≢ err out_of_fuel
    unfolding validate IsShallow
    validate_ends zero v s = absurd s
    validate_ends (suc levels) v s = elim (Bool-cases (get_flag validated (flags_of v))) [
      | inl old ↦ rw (old, validate) ok-ne-err
      | inr new ↦
          let inner = validate m schema levels fuel in
          rw (new, validate)
            (>>=-ne-err (validate_own m schema fuel inner v) _
              (validate_own_ends levels inner v (validate-Shallow levels levels)
                (validate_ends levels) s)
              (λ _ _. ok-ne-err))
    ]
