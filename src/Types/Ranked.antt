-- ===== src/Types/Ranked.antt =====
-- Types whose chains of parents are shorter than the fuel of the loops over them.
use experimaestro.Prelude.{
  ℕ, zero, suc, ◌<◌, ◌≡◌, ◌≢◌, Bool, none, some, text_eq, arith, Bool-cases, Option-cases, inl, inr,
}
use experimaestro.Errors.{err, out_of_fuel, >>=-ne-err, ok-ne-err}
use experimaestro.Types.{Types, any_name, first_above, same, accepts}

-- A rank below the fuel for each type, and a lower one for its parent.
pub record Ranks (types : Types) (fuel : ℕ) : Type 0 where
  pub rank : ℕ → ℕ
  pub low : (t : ℕ) → rank t < fuel
  pub lower : (t p : ℕ) → (types t).parent ≡ some p → rank p < rank t

module _ (types : Types) (rank : ℕ → ℕ)
    (lower : (t p : ℕ) → (types t).parent ≡ some p → rank p < rank t) where
  first_above_ends :
      (fuel : ℕ) (test : ℕ → Bool) (t : ℕ)
      → rank t < fuel
      → first_above fuel types test (some t) ≢ err out_of_fuel
  unfolding first_above
  first_above_ends zero test t lt = elim lt [ ]
  first_above_ends (suc fuel) test t lt = elim (Bool-cases (test t)) [
    | inl good ↦ rw (good, first_above) (λ h. cc)
    | inr bad ↦ elim (Option-cases (types t).parent) [
      | inl top ↦ rw (bad, top, first_above) (alone fuel)
      | inr (p, e) ↦
          rw (bad, e, first_above) (first_above_ends fuel test p (omega (arith, lower t p e)))
    ]
  ]
    where
      alone : (n : ℕ) → first_above n types test none ≢ err out_of_fuel
      alone zero h = cc
      alone (suc n) h = cc

pub accepts_ends :
    (types : Types) (fuel t other : ℕ)
    → Ranks types fuel
    → accepts fuel types t other ≢ err out_of_fuel
unfolding accepts
accepts_ends types fuel t other r = elim (Bool-cases (text_eq (types t).name any_name)) [
  | inl top ↦ rw (top, accepts) (λ h. cc)
  | inr named ↦
      rw (named, accepts)
        (>>=-ne-err (first_above fuel types (λ u. same types u t) (some other)) _
          (first_above_ends types r.rank r.lower fuel (λ u. same types u t) other (r.low other))
          (λ _ _. ok-ne-err))
]
