-- ===== src/Value/Validation/Provided.antt =====
-- What a map that `validate` accepts has for each of its arguments.
use experimaestro.Prelude.{
  ℕ, suc, ◌≡◌, inl, inr, sym, ap, ◌∙◌, subst, true, false, some, Text, All, Bool-cases,
  Option-cases,
}
use experimaestro.Errors.{Result, ok, rethrow, >>=-eq-ok, ok-injective, err-ne-ok}
use experimaestro.Scalar.{Numbers}
use experimaestro.Types.{accepts}
use experimaestro.Types.Hierarchy.{Above}
use experimaestro.Value.{
  validated, get_flag, set_flag, flags_of, Complex, MapInfo, Value, map, Entries,
}
use experimaestro.Value.Arguments.{Argument, Schema, type_of_argument}
use experimaestro.Value.Maps.{find, mark, type_of}
use experimaestro.Value.Folding.{fold_types, fold_types-gives}
use experimaestro.Value.Validation.{
  is_nothing, not_given, check_value, validate_argument, validate_own, validate,
}
use experimaestro.Value.Validation.Seen.{
  seen, Meets, IsProvided, seen-put, rethrow-ok, Looks, validate-Looks,
}

module _ (m : Numbers) (schema : Schema m.Double) where
  module _ (fuel : ℕ) (inner : Value m.Double → Result (Value m.Double))
      (looks : Looks m schema inner) (type : ℕ) where
    record Checked (k : ℕ) (entries after : Entries m.Double) : Type 0 where
      provided :
          Meets schema fuel
            (schema.arguments k)
            (seen schema (find (schema.arguments k).name entries))
      unchanged : (other : Text) → seen schema (find other after) ≡ seen schema (find other entries)

    not_given-required :
        (a : Argument m.Double) (entries after : Entries m.Double)
        → not_given m schema type a entries ≡ ok after
        → (a.is_required ≡ false) × (entries ≡ after)
    unfolding not_given
    not_given-required a entries after e = elim (Bool-cases a.is_required) [
      | inl r ↦ absurd (err-ne-ok (rw (r, not_given) at e))
      | inr r ↦ (r, ok-injective (rw (r, not_given) at e))
    ]

    check_value-accepted :
        (a : Argument m.Double) (v : Value m.Double) (entries after : Entries m.Double)
        → find a.name entries ≡ some v
        → check_value m schema fuel inner a v entries ≡ ok after
        → (accepts fuel schema.types (type_of_argument a) (type_of schema v) ≡ ok true)
          × ((other : Text) → seen schema (find other after) ≡ seen schema (find other entries))
    unfolding check_value
    check_value-accepted a v entries after found e =
        let (b, first, rest) =
          >>=-eq-ok (accepts fuel schema.types (type_of_argument a) (type_of schema v)) _ e in
        elim (Bool-cases b) [
          | inr no_fit ↦ absurd (err-ne-ok (rw no_fit at rest))
          | inl fits ↦
              let (w, second, last) = >>=-eq-ok (rethrow a.name (inner v)) _ (rw fits at rest) in
              let same = looks v w (rethrow-ok a.name (inner v) second) in
              (
                first ∙ ap ok fits,
                λ other.
                    ap (λ es. seen schema (find other es)) (sym (ok-injective last))
                    ∙ seen-put schema a.name other w entries (same ∙ ap (seen schema) (sym found)),
              )
        ]

    validate_argument-Checked :
        (k : ℕ) (entries after : Entries m.Double)
        → validate_argument m schema fuel inner type k entries ≡ ok after
        → Checked k entries after
    unfolding validate_argument seen
    validate_argument-Checked k entries after e =
        elim (Option-cases (find (schema.arguments k).name entries)) [
          | inl missing ↦
              let (r, same) =
                not_given-required (schema.arguments k) entries after
                  (rw (missing, validate_argument) at e) in
              record {
                provided = rw missing r;
                unchanged = λ other. ap (λ es. seen schema (find other es)) (sym same);
              }
          | inr (v, found) ↦ elim (Bool-cases (is_nothing v)) [
            | inl empty ↦
                let (r, same) =
                  not_given-required (schema.arguments k) entries after
                    (rw (found, empty, validate_argument) at e) in
                record {
                  provided = rw (found, empty) r;
                  unchanged = λ other. ap (λ es. seen schema (find other es)) (sym same);
                }
            | inr full ↦
                let (fits, kept) =
                  check_value-accepted (schema.arguments k) v entries after found
                    (rw (found, full, validate_argument) at e) in
                record { provided = rw (found, full) fits; unchanged = kept }
          ]
        ]

    validate_own-IsProvided :
        (flags : ℕ) (entries after : Entries m.Double) (u : ℕ)
        → fold_types
            (validate_argument m schema fuel inner type)
            fuel
            schema.types
            (some type)
            entries
          ≡ ok after
        → Above schema.types u type
        → All (λ e. IsProvided schema fuel after e.1) (schema.types u).arguments
    validate_own-IsProvided flags entries after u e =
        fold_types-gives (validate_argument m schema fuel inner type)
          (λ k es. IsProvided schema fuel es k)
          (λ k s t h.
            let c = validate_argument-Checked k s t h in
            subst (Meets schema fuel (schema.arguments k))
              (sym (c.unchanged (schema.arguments k).name)) c.provided)
          (λ k l s t h p.
            let c = validate_argument-Checked k s t h in
            subst (Meets schema fuel (schema.arguments l))
              (sym (c.unchanged (schema.arguments l).name)) p)
          fuel schema.types type entries after e u

  -- When `validate` accepts a map that was not validated before, the map is then marked validated, and for
  -- every argument of its type and of the types above it, the result has no value, or a none value, only
  -- if the argument is not required, and otherwise has a value of a type that the argument's type accepts.
  pub validate-IsProvided :
      (levels fuel flags : ℕ) (x : Complex m.Double) (i : MapInfo) (entries : Entries m.Double)
      (t : Value m.Double)
      → get_flag validated flags ≡ false
      → validate m schema (suc levels) fuel (map flags x i entries) ≡ ok t
      → (after : Entries m.Double) × (t ≡ map (set_flag validated true flags) x i after)
        × ((u : ℕ)
            → Above schema.types u i.type
            → All (λ e. IsProvided schema fuel after e.1) (schema.types u).arguments)
  unfolding validate validate_own mark flags_of
  validate-IsProvided levels fuel flags x i entries t new e =
      let inner = validate m schema levels fuel in
      let (u, own, last) =
        >>=-eq-ok (validate_own m schema fuel inner (map flags x i entries)) _
          (rw (new, validate) at e) in
      let (after, folded, made) =
        >>=-eq-ok
          (fold_types (validate_argument m schema fuel inner i.type) fuel schema.types (some i.type)
            entries)
          _ own in
      (
        after,
        sym (ok-injective last) ∙ ap (mark validated true) (sym (ok-injective made)),
        λ w.
            validate_own-IsProvided fuel inner (validate-Looks m schema levels fuel) i.type flags
              entries after w folded,
      )
