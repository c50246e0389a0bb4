-- ===== src/Value/Generation/Ends.antt =====
-- `generate` comes to an end.
use experimaestro.Prelude.{
  ℕ, ◌≢◌, inl, inr, Bool, true, false, Text, lookup, if◌then◌else◌, Bool-cases, Option-cases,
}
use experimaestro.Errors.{Result, ok, err, exception, out_of_fuel, >>=-ne-err, ok-ne-err}
use experimaestro.Scalar
use experimaestro.Scalar.{Numbers, Scalar, unset, boolean, integer, real, string, path}
use experimaestro.Types.Ranked.{Ranks}
use experimaestro.Value.{
  sealed, generated, get_flag, Value, scalar, array, map, Values, no_value, next_value, Entries,
  no_entry, next_entry,
}
use experimaestro.Value.Arguments.{Argument, Schema, default_value, constant}
use experimaestro.Value.Maps.{
  is_restricted, same_size, equals, equal_elements, marked, marked_for, set,
}
use experimaestro.Value.Folding.Ends.{fold_types_ends}
use experimaestro.Value.Generation.{
  put_value, holds, generate_constant, generate_default, generate_argument, generate_own, generate,
  generate_elements, generate_entries,
}

scalar-equals_ends : (m : Numbers) (a b : Scalar m.Double) → Scalar.equals m a b ≢ err out_of_fuel
unfolding Scalar.equals
scalar-equals_ends m unset unset = λ h. cc
scalar-equals_ends m Scalar.none Scalar.none = ok-ne-err
scalar-equals_ends m (boolean x) (boolean y) = ok-ne-err
scalar-equals_ends m (integer x) (integer y) = ok-ne-err
scalar-equals_ends m (real x) (real y) = ok-ne-err
scalar-equals_ends m (string x) (string y) = ok-ne-err
scalar-equals_ends m (path x) (path y) = ok-ne-err
scalar-equals_ends m a b = ok-ne-err

module _ (m : Numbers) where
  mutual
    unfolding equals

    equals_ends : (v w : Value m.Double) → equals m v w ≢ err out_of_fuel
    equals_ends (scalar _ _ a) (scalar _ _ b) = scalar-equals_ends m a b
    equals_ends (scalar _ _ a) (array _ _ _ b) = ok-ne-err
    equals_ends (scalar _ _ a) (map _ _ _ b) = ok-ne-err
    equals_ends (array _ _ _ a) (array _ _ _ b) = elim (Bool-cases (same_size a b)) [
      | inl same ↦ rw (same, equals) (equal_elements_ends a b)
      | inr apart ↦ rw (apart, equals) ok-ne-err
    ]
    equals_ends (array _ _ _ a) (scalar _ _ b) = ok-ne-err
    equals_ends (array _ _ _ a) (map _ _ _ b) = ok-ne-err
    equals_ends (map _ _ _ a) w = λ h. cc

    equal_elements_ends : (a b : Values m.Double) → equal_elements m a b ≢ err out_of_fuel
    equal_elements_ends no_value b = ok-ne-err
    equal_elements_ends (next_value v a) no_value = ok-ne-err
    equal_elements_ends (next_value v a) (next_value w b) =
        >>=-ne-err (equals m v w) _ (equals_ends v w) (λ e _. elim (Bool-cases e) [
          | inl same ↦ rw same (equal_elements_ends a b)
          | inr apart ↦ rw apart ok-ne-err
        ])

module _ (m : Numbers) (schema : Schema m.Double) where
  marked_ends : (a : Argument m.Double) (v : Value m.Double) → marked m schema a v ≢ err out_of_fuel
  unfolding marked
  marked_ends a v = elim (Option-cases (default_value a)) [
    | inl free ↦ rw (free, marked) ok-ne-err
    | inr (d, e) ↦
        rw (e, marked) (>>=-ne-err (equals m d v) _ (equals_ends m d v) (λ _ _. ok-ne-err))
  ]

  marked_for_ends :
      (key : Text) (type : ℕ) (v : Value m.Double)
      → marked_for m schema key type v ≢ err out_of_fuel
  unfolding marked_for
  marked_for_ends key type v = elim (Option-cases (lookup key (schema.types type).arguments)) [
    | inl free ↦ rw (free, marked_for) ok-ne-err
    | inr (a, e) ↦ rw (e, marked_for) (marked_ends (schema.arguments a) v)
  ]

  set_ends : (key : Text) (v target : Value m.Double) → set m schema key v target ≢ err out_of_fuel
  unfolding set
  set_ends key v (scalar flags tag content) = λ h. cc
  set_ends key v (array flags x c elements) = λ h. cc
  set_ends key v (map flags x i entries) = elim (Bool-cases (get_flag sealed flags)) [
    | inl closed ↦ rw (closed, set) (λ h. cc)
    | inr free ↦ elim (Bool-cases (is_restricted key)) [
      | inl bad ↦ rw (free, bad, set) (λ h. cc)
      | inr good ↦
          rw (free, good, set)
            (>>=-ne-err (marked_for m schema key i.type v) _ (marked_for_ends key i.type v)
              (λ _ _. ok-ne-err))
    ]
  ]

  put_value_ends :
      (key : Text) (v target : Value m.Double) → put_value m schema key v target ≢ err out_of_fuel
  unfolding put_value
  put_value_ends key v target =
      >>=-ne-err (set m schema key v target) _ (set_ends key v target) (λ _ _. ok-ne-err)

  module _ (produce : Text → Result (Value m.Double))
      (produced : (g : Text) → produce g ≢ err out_of_fuel) where
    generate_constant_ends :
        (a : Argument m.Double) (v : Value m.Double)
        → generate_constant m schema produce a v ≢ err out_of_fuel
    unfolding generate_constant
    generate_constant_ends a v = elim (Option-cases (constant a)) [
      | inr (c, e) ↦ rw (e, generate_constant) (put_value_ends a.name _ v)
      | inl free ↦ elim (Bool-cases a.is_required) [
        | inl r ↦ rw (free, r, generate_constant) ok-ne-err
        | inr r ↦ rw (free, r, generate_constant) (put_value_ends a.name _ v)
      ]
    ]

    generate_default_ends :
        (a : Argument m.Double) (v : Value m.Double)
        → generate_default m schema produce a v ≢ err out_of_fuel
    unfolding generate_default
    generate_default_ends a v = elim (Option-cases (default_value a)) [
      | inl free ↦ rw (free, generate_default) (generate_constant_ends a v)
      | inr (d, e) ↦ rw (e, generate_default) (put_value_ends a.name _ v)
    ]

    generate_argument_ends :
        (k : ℕ) (v : Value m.Double) → generate_argument m schema produce k v ≢ err out_of_fuel
    unfolding generate_argument
    generate_argument_ends k v =
        let a : Argument m.Double = schema.arguments k in
        elim (Bool-cases (holds a.name v)) [
          | inl there ↦ rw (there, generate_argument) ok-ne-err
          | inr missing ↦ elim (Option-cases a.generator) [
            | inl free ↦ rw (missing, free, generate_argument) (generate_default_ends a v)
            | inr (g, e) ↦
                rw (missing, e, generate_argument)
                  (>>=-ne-err (produce g) _ (produced g) (λ w _. put_value_ends a.name w v))
          ]
        ]

    guarded_ends :
        (done closed : Bool) (v : Value m.Double) {r : Result (Value m.Double)}
        → r ≢ err out_of_fuel
        → (if done then ok v else if closed then err exception else r) ≢ err out_of_fuel
    guarded_ends true closed v h = ok-ne-err
    guarded_ends false true v h = λ e. cc
    guarded_ends false false v h = h

    module _ (fuel : ℕ) (ranks : Ranks schema.types fuel) where
      generate_own_ends :
          (type : ℕ) (v : Value m.Double)
          → generate_own m schema produce fuel type v ≢ err out_of_fuel
      unfolding generate_own
      generate_own_ends type v =
          fold_types_ends (generate_argument m schema produce) (λ _. Unit {0}) (λ _ _ _ _ _. tt)
            (λ k w _. generate_argument_ends k w) fuel schema.types type v ranks tt

      mutual
        unfolding generate

        generate_stops : (v : Value m.Double) → generate m schema produce fuel v ≢ err out_of_fuel
        generate_stops (scalar flags tag content) =
            guarded_ends (get_flag generated flags) (get_flag sealed flags) _ ok-ne-err
        generate_stops (array flags x c elements) =
            guarded_ends (get_flag generated flags) (get_flag sealed flags) _ (
              >>=-ne-err (generate_elements m schema produce fuel elements) _
                (generate_elements_ends elements) (λ _ _. ok-ne-err))
        generate_stops (map flags x i entries) =
            guarded_ends (get_flag generated flags) (get_flag sealed flags) _ (
              >>=-ne-err (generate_entries m schema produce fuel entries) _
                (generate_entries_ends entries)
                (λ es _.
                  >>=-ne-err (generate_own m schema produce fuel i.type (map flags x i es)) _
                    (generate_own_ends i.type (map flags x i es)) (λ _ _. ok-ne-err)))

        generate_elements_ends :
            (vs : Values m.Double) → generate_elements m schema produce fuel vs ≢ err out_of_fuel
        generate_elements_ends no_value = ok-ne-err
        generate_elements_ends (next_value v rest) =
            >>=-ne-err (generate m schema produce fuel v) _ (generate_stops v) (λ w _.
              >>=-ne-err (generate_elements m schema produce fuel rest) _
                (generate_elements_ends rest) (λ _ _. ok-ne-err))

        generate_entries_ends :
            (es : Entries m.Double) → generate_entries m schema produce fuel es ≢ err out_of_fuel
        generate_entries_ends no_entry = ok-ne-err
        generate_entries_ends (next_entry key v rest) =
            >>=-ne-err (generate m schema produce fuel v) _ (generate_stops v) (λ w _.
              >>=-ne-err (generate_entries m schema produce fuel rest) _
                (generate_entries_ends rest) (λ _ _. ok-ne-err))

      -- When the generators end and the chains of parents of the types are shorter than the fuel,
      -- `generate` ends: it comes back with a value or with an error of the program.
      pub generate_ends : (v : Value m.Double) → generate m schema produce fuel v ≢ err out_of_fuel
      generate_ends v = generate_stops v
