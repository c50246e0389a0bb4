-- ===== src/Value/Validation/Seen.antt =====
-- What validation looks at in a value, and that it keeps it.
use experimaestro.Prelude.{
  ℕ, zero, suc, ◌≡◌, inl, inr, sym, ap, ◌∙◌, Bool, true, false, Option, none, some, Text, text_eq,
  text_eq_iff, Bool-cases,
}
use experimaestro.Errors.{Result, ok, err, rethrow, >>=-eq-ok, ok-injective, err-ne-ok}
use experimaestro.Scalar.{Numbers}
use experimaestro.Types.{accepts}
use experimaestro.Value.{validated, get_flag, flags_of, Value, scalar, array, map, Entries}
use experimaestro.Value.Arguments.{Argument, Schema, type_of_argument}
use experimaestro.Value.Maps.{find, put, mark, type_of}
use experimaestro.Value.Maps.Setting.{find-put}
use experimaestro.Value.Folding.{fold_types}
use experimaestro.Value.Validation.{
  is_nothing, validate_argument, validate_elements, validate_own, validate,
}

module _ {D : Type 0} (schema : Schema D) where
  -- What validation looks at: the type of a value, and whether it is none.
  unfoldable pub seen : Option (Value D) → Option (ℕ × Bool)
  seen none = none
  seen (some v) = some (type_of schema v, is_nothing v)

  -- An argument without a value, or with none, is not required; else its type accepts the value's.
  abbrev pub Meets : ℕ → Argument D → Option (ℕ × Bool) → Type 0
  Meets fuel a none = a.is_required ≡ false
  Meets fuel a (some (t, true)) = a.is_required ≡ false
  Meets fuel a (some (t, false)) = accepts fuel schema.types (type_of_argument a) t ≡ ok true

  abbrev pub IsProvided : ℕ → Entries D → ℕ → Type 0
  IsProvided fuel entries k =
      Meets fuel (schema.arguments k) (seen (find (schema.arguments k).name entries))

  pub seen-put :
      (key other : Text) (w : Value D) (entries : Entries D)
      → seen (some w) ≡ seen (find key entries)
      → seen (find other (put key w entries)) ≡ seen (find other entries)
  seen-put key other w entries h = elim (Bool-cases (text_eq key other)) [
    | inl same ↦
        rw (find-put key other w entries, same)
          (h ∙ ap (λ k. seen (find k entries)) ((text_eq_iff key other).0 same))
    | inr apart ↦ rw (find-put key other w entries, apart)
  ]

pub rethrow-ok {ℓ} : {A : Type ℓ} (n : Text) (r : Result A) {x : A} → rethrow n r ≡ ok x → r ≡ ok x
rethrow-ok n (ok a) e = e
rethrow-ok n (err e) h = absurd (err-ne-ok h)

module _ (m : Numbers) (schema : Schema m.Double) where
  -- A validation keeps what is seen of a value.
  abbrev pub Looks : (Value m.Double → Result (Value m.Double)) → Type 0
  Looks inner =
      (v w : Value m.Double) → inner v ≡ ok w → seen schema (some w) ≡ seen schema (some v)

  validate_own-seen :
      (fuel : ℕ) (inner : Value m.Double → Result (Value m.Double)) (v w : Value m.Double)
      → validate_own m schema fuel inner v ≡ ok w
      → seen schema (some (mark validated true w)) ≡ seen schema (some v)
  unfolding validate_own seen mark type_of is_nothing
  validate_own-seen fuel inner (scalar flags tag content) w e =
      ap (λ u. seen schema (some (mark validated true u))) (sym (ok-injective e))
  validate_own-seen fuel inner (array flags x c elements) w e =
      let (vs, _, last) = >>=-eq-ok (validate_elements m schema inner 0 elements) _ e in
      ap (λ u. seen schema (some (mark validated true u))) (sym (ok-injective last))
  validate_own-seen fuel inner (map flags x i entries) w e =
      let (es, _, last) =
        >>=-eq-ok
          (fold_types (validate_argument m schema fuel inner i.type) fuel schema.types (some i.type)
            entries)
          _ e in
      ap (λ u. seen schema (some (mark validated true u))) (sym (ok-injective last))

  pub validate-Looks : (levels fuel : ℕ) → Looks (validate m schema levels fuel)
  unfolding validate
  validate-Looks zero fuel v w e = absurd (err-ne-ok e)
  validate-Looks (suc levels) fuel v w e = elim (Bool-cases (get_flag validated (flags_of v))) [
    | inl old ↦ ap (λ u. seen schema (some u)) (sym (ok-injective (rw (old, validate) at e)))
    | inr new ↦
        let (u, own, last) =
          >>=-eq-ok (validate_own m schema fuel (validate m schema levels fuel) v) _
            (rw (new, validate) at e) in
        ap (λ z. seen schema (some z)) (sym (ok-injective last))
        ∙ validate_own-seen fuel (validate m schema levels fuel) v u own
  ]
