-- ===== src/Value/Configuration/Again.antt =====
-- The flags that `generate`, `validate` and `seal` set, and a second `configure`.
use experimaestro.Prelude.{
  ℕ, zero, suc, ◌≡◌, ◌≢◌, some, refl, sym, ap, ◌∙◌, subst, Bool, true, Text, Bool-cases, inl, inr,
}
use experimaestro.Errors.{Result, ok, >>=-eq-ok, ok-injective, err-ne-ok}
use experimaestro.Scalar.{Numbers}
use experimaestro.Value.{
  Flag, sealed, validated, generated, get_flag, set_flag, flags_of, Value, scalar, array, map, seal,
}
use experimaestro.Value.Arguments.{Schema}
use experimaestro.Value.Flags.{get_flag-set_flag}
use experimaestro.Value.Folding.{fold_types}
use experimaestro.Value.Maps.{mark}
use experimaestro.Value.Generation.{generate, generate_elements, generate_entries, generate_own}
use experimaestro.Value.Validation.{validate, validate_own, validate_elements, validate_argument}
use experimaestro.Value.Configuration.{configure}

abbrev Has : {D : Type 0} → Flag → Value D → Type 0
Has f v = get_flag f (flags_of v) ≡ true

mark-Has : {D : Type 0} (f : Flag) (v : Value D) → Has f (mark f true v)
unfolding mark flags_of
mark-Has f (scalar flags tag content) = (get_flag-set_flag f f true flags).0
mark-Has f (array flags x c elements) = (get_flag-set_flag f f true flags).0
mark-Has f (map flags x i entries) = (get_flag-set_flag f f true flags).0

mark-other :
    {D : Type 0} (f g : Flag) (b : Bool) (v : Value D)
    → f ≢ g
    → get_flag g (flags_of (mark f b v)) ≡ get_flag g (flags_of v)
unfolding mark flags_of
mark-other f g b (scalar flags tag content) ne = (get_flag-set_flag f g b flags).1 ne
mark-other f g b (array flags x c elements) ne = (get_flag-set_flag f g b flags).1 ne
mark-other f g b (map flags x i entries) ne = (get_flag-set_flag f g b flags).1 ne

set_sealed :
    (flags : ℕ)
    → (get_flag sealed (set_flag sealed true flags) ≡ true)
      × ((g : Flag) → sealed ≢ g → get_flag g (set_flag sealed true flags) ≡ get_flag g flags)
set_sealed flags = (
  (get_flag-set_flag sealed sealed true flags).0,
  λ g ne. (get_flag-set_flag sealed g true flags).1 ne,
)

-- `seal` sets its flag and leaves the others.
flags_of-seal :
    {D : Type 0} (v : Value D)
    → Has sealed (seal v)
      × ((g : Flag) → sealed ≢ g → get_flag g (flags_of (seal v)) ≡ get_flag g (flags_of v))
unfolding seal flags_of
flags_of-seal (scalar flags tag content) = elim (Bool-cases (get_flag sealed flags)) [
  | inl old ↦ (rw (old, seal) old, λ g ne. rw (old, seal) refl)
  | inr new ↦ rw (new, seal) (set_sealed flags)
]
flags_of-seal (array flags x c elements) = elim (Bool-cases (get_flag sealed flags)) [
  | inl old ↦ (rw (old, seal) old, λ g ne. rw (old, seal) refl)
  | inr new ↦ rw (new, seal) (set_sealed flags)
]
flags_of-seal (map flags x i entries) = elim (Bool-cases (get_flag sealed flags)) [
  | inl old ↦ (rw (old, seal) old, λ g ne. rw (old, seal) refl)
  | inr new ↦ rw (new, seal) (set_sealed flags)
]

seal_sealed : {D : Type 0} (v : Value D) → Has sealed v → seal v ≡ v
unfolding seal flags_of
seal_sealed (scalar flags tag content) h = rw (h, seal) refl
seal_sealed (array flags x c elements) h = rw (h, seal) refl
seal_sealed (map flags x i entries) h = rw (h, seal) refl

module _ (m : Numbers) (schema : Schema m.Double) (produce : Text → Result (Value m.Double)) where
  generate_generated :
      (fuel : ℕ) (v : Value m.Double) → Has generated v → generate m schema produce fuel v ≡ ok v
  unfolding generate flags_of
  generate_generated fuel (scalar flags tag content) h = rw (h, generate) refl
  generate_generated fuel (array flags x c elements) h = rw (h, generate) refl
  generate_generated fuel (map flags x i entries) h = rw (h, generate) refl

  -- What `generate` gives is marked: it was, or it is now.
  data Marked (v t : Value m.Double) : Type 0 where
    before : Has generated v → v ≡ t → Marked v t
    now : (w : Value m.Double) → mark generated true w ≡ t → Marked v t

  generate-Marked :
      (fuel : ℕ) (v t : Value m.Double) → generate m schema produce fuel v ≡ ok t → Marked v t
  unfolding generate flags_of
  generate-Marked fuel (scalar flags tag content) t e =
      elim (Bool-cases (get_flag generated flags)) [
        | inl old ↦ before old (ok-injective (rw (old, generate) at e))
        | inr new ↦ elim (Bool-cases (get_flag sealed flags)) [
          | inl closed ↦ absurd (err-ne-ok (rw (new, closed, generate) at e))
          | inr loose ↦ now _ (ok-injective (rw (new, loose, generate) at e))
        ]
      ]
  generate-Marked fuel (array flags x c elements) t e =
      elim (Bool-cases (get_flag generated flags)) [
        | inl old ↦ before old (ok-injective (rw (old, generate) at e))
        | inr new ↦ elim (Bool-cases (get_flag sealed flags)) [
          | inl closed ↦ absurd (err-ne-ok (rw (new, closed, generate) at e))
          | inr loose ↦
              let (vs, _, last) =
                >>=-eq-ok (generate_elements m schema produce fuel elements) _
                  (rw (new, loose, generate) at e) in
              now _ (ok-injective last)
        ]
      ]
  generate-Marked fuel (map flags x i entries) t e = elim (Bool-cases (get_flag generated flags)) [
    | inl old ↦ before old (ok-injective (rw (old, generate) at e))
    | inr new ↦ elim (Bool-cases (get_flag sealed flags)) [
      | inl closed ↦ absurd (err-ne-ok (rw (new, closed, generate) at e))
      | inr loose ↦
          let (es, _, rest) =
            >>=-eq-ok (generate_entries m schema produce fuel entries) _
              (rw (new, loose, generate) at e) in
          let (w, _, last) =
            >>=-eq-ok (generate_own m schema produce fuel i.type (map flags x i es)) _ rest in
          now w (ok-injective last)
    ]
  ]

  generate-Has :
      (fuel : ℕ) (v t : Value m.Double) → generate m schema produce fuel v ≡ ok t → Has generated t
  generate-Has fuel v t e = marked (generate-Marked fuel v t e)
    where
      marked : Marked v t → Has generated t
      marked (before old same) = subst (Has generated) same old
      marked (now w same) = subst (Has generated) same (mark-Has generated w)

  flags_of-validate_own :
      (fuel : ℕ) (inner : Value m.Double → Result (Value m.Double)) (v w : Value m.Double)
      → validate_own m schema fuel inner v ≡ ok w
      → flags_of v ≡ flags_of w
  unfolding validate_own flags_of
  flags_of-validate_own fuel inner (scalar flags tag content) w e = ap flags_of (ok-injective e)
  flags_of-validate_own fuel inner (array flags x c elements) w e =
      let (vs, _, last) = >>=-eq-ok (validate_elements m schema inner 0 elements) _ e in
      ap flags_of (ok-injective last)
  flags_of-validate_own fuel inner (map flags x i entries) w e =
      let (es, _, last) =
        >>=-eq-ok
          (fold_types (validate_argument m schema fuel inner i.type) fuel schema.types (some i.type)
            entries)
          _ e in
      ap flags_of (ok-injective last)

  validate-Has :
      (levels fuel : ℕ) (v t : Value m.Double)
      → validate m schema levels fuel v ≡ ok t
      → Has validated t × (Has generated v → Has generated t)
  unfolding validate
  validate-Has zero fuel v t e = absurd (err-ne-ok e)
  validate-Has (suc levels) fuel v t e = elim (Bool-cases (get_flag validated (flags_of v))) [
    | inl old ↦
        let same = ok-injective (rw (old, validate) at e) in
        (subst (Has validated) same old, λ g. subst (Has generated) same g)
    | inr new ↦
        let (w, own, last) =
          >>=-eq-ok (validate_own m schema fuel (validate m schema levels fuel) v) _
            (rw (new, validate) at e) in
        let same = ok-injective last in
        (
          subst (Has validated) same (mark-Has validated w),
          λ g. subst (Has generated) same (
              mark-other validated generated true w (λ e. cc)
              ∙ ap (get_flag generated)
                  (sym (flags_of-validate_own fuel (validate m schema levels fuel) v w own))
              ∙ g),
        )
  ]

  validate_validated :
      (levels fuel : ℕ) (v : Value m.Double)
      → Has validated v
      → validate m schema (suc levels) fuel v ≡ ok v
  unfolding validate
  validate_validated levels fuel v h = rw (h, validate) refl

  -- When `configure` returns, its result is marked generated, validated and sealed, and to configure it again, with at
  -- least one level of fuel, gives the same value.
  pub configure_again :
      (levels fuel : ℕ) (v t : Value m.Double)
      → configure m schema produce (suc levels) fuel v ≡ ok t
      → Has generated t
        × Has validated t
        × Has sealed t
        × (configure m schema produce (suc levels) fuel t ≡ ok t)
  unfolding configure
  configure_again levels fuel v t e =
      let (v', first, rest) = >>=-eq-ok (generate m schema produce fuel v) _ e in
      let (v'', second, last) = >>=-eq-ok (validate m schema (suc levels) fuel v') _ rest in
      let (valid, keeps) = validate-Has (suc levels) fuel v' v'' second in
      let (closed, others) = flags_of-seal v'' in
      let same = ok-injective last in
      let g =
        subst (Has generated) same
          (others generated (λ e. cc) ∙ keeps (generate-Has fuel v v' first)) in
      let d = subst (Has validated) same (others validated (λ e. cc) ∙ valid) in
      let s = subst (Has sealed) same closed in
      (
        g,
        d,
        s,
        rw (generate_generated fuel t g, validate_validated levels fuel t d, seal_sealed t s) refl,
      )
