-- ===== src/Value/Maps/Setting.antt =====
-- The entries of a map after `put` and `set`.
use experimaestro.Prelude.{
  ℕ, ◌≡◌, refl, sym, ap, false, Option, some, Text, text_eq, text_eq_iff, text_eq_refl,
  if◌then◌else◌, arith, Bool-cases, inl, inr,
}
use experimaestro.Errors.{ok, ◌>>=◌, >>=-eq-ok, ok-injective, err-ne-ok}
use experimaestro.Scalar.{Numbers}
use experimaestro.Value.{
  sealed, get_flag, Complex, MapInfo, Value, map, Entries, no_entry, next_entry,
}
use experimaestro.Value.Arguments.{Schema}
use experimaestro.Value.Maps.{find, put, is_restricted, marked_for, set}

module _ {D : Type 0} where
  pub find-put :
      (key other : Text) (v : Value D) (entries : Entries D)
      → find other (put key v entries) ≡ (if text_eq key other then some v else find other entries)
  unfolding find put
  find-put key other v no_entry = refl
  find-put key other v (next_entry k w rest) = ground (
    arith,
    text_eq_iff key other,
    text_eq_iff k key,
    text_eq_iff k other,
    find-put key other v rest,
  )

module _ (m : Numbers) (schema : Schema m.Double) where
  -- What a `set` that returns has tested and done.
  pub record IsSetting (key : Text) (v : Value m.Double) (flags : ℕ) (x : Complex m.Double)
      (i : MapInfo) (entries : Entries m.Double) (t : Value m.Double) : Type 0 where
    pub unsealed : get_flag sealed flags ≡ false
    pub allowed : is_restricted key ≡ false
    pub entry : Value m.Double
    pub marks : marked_for m schema key i.type v ≡ ok entry
    pub result : t ≡ map flags x i (put key entry entries)

  pub set-IsSetting :
      (key : Text) (v : Value m.Double) (flags : ℕ) (x : Complex m.Double) (i : MapInfo)
      (entries : Entries m.Double) (t : Value m.Double) (r : Option (Value m.Double))
      → set m schema key v (map flags x i entries) ≡ ok (t, r)
      → IsSetting key v flags x i entries t
  unfolding set
  set-IsSetting key v flags x i entries t r e = elim (Bool-cases (get_flag sealed flags)) [
    | inl closed ↦ absurd (err-ne-ok (rw closed at e))
    | inr unlocked ↦ elim (Bool-cases (is_restricted key)) [
      | inl barred ↦ absurd (err-ne-ok (rw (unlocked, barred) at e))
      | inr free ↦
          let (v', q, last) =
            >>=-eq-ok (marked_for m schema key i.type v) _ (rw (unlocked, free) at e) in
          record {
            unsealed = unlocked;
            allowed = free;
            entry = v';
            marks = q;
            result = ap (λ p. p.0) (sym (ok-injective last));
          }
    ]
  ]

  -- A `set` that returns shows at its key the value with the flags of its argument, and every other
  -- key as before.
  pub find-set :
      (key other : Text) (v : Value m.Double) (flags : ℕ) (x : Complex m.Double) (i : MapInfo)
      (entries : Entries m.Double) (t : Value m.Double) (r : Option (Value m.Double))
      → set m schema key v (map flags x i entries) ≡ ok (t, r)
      → (after : Entries m.Double) × (t ≡ map flags x i after)
        × (marked_for m schema key i.type v >>= λ e. ok (some e)) ≡ ok (find key after)
        × (text_eq key other ≡ false → find other after ≡ find other entries)
  find-set key other v flags x i entries t r e =
      let s = set-IsSetting key v flags x i entries t r e in
      (
        put key s.entry entries,
        s.result,
        rw (s.marks, find-put key key s.entry entries, text_eq_refl key),
        λ ne. rw (find-put key other s.entry entries, ne),
      )
