-- ===== src/Value/Folding/Ends.antt =====
-- The loops over a type, its parents and their arguments end when the types have ranks below the fuel.
use experimaestro.Prelude.{
  ℕ, zero, suc, ◌<◌, ◌≡◌, ◌≢◌, Option, none, some, List, [], ◌∷◌, Text, arith, Option-cases, inl,
  inr, subst,
}
use experimaestro.Errors.{
  Result, ok-ne-err, >>=-ne-err, ok, err, out_of_fuel, >>=-eq-ok, ok-injective,
}
use experimaestro.Types.{Types}
use experimaestro.Types.Ranked.{Ranks}
use experimaestro.Value.Folding.{fold_arguments, fold_types}

module _ {S : Type 0} (step : ℕ → S → Result S) (I : S → Type 0)
    (keeps : (a : ℕ) (s t : S) → I s → step a s ≡ ok t → I t) where
  fold_arguments-invariant :
      (args : List (Text × ℕ)) (s t : S) → I s → fold_arguments step args s ≡ ok t → I t
  unfolding fold_arguments
  fold_arguments-invariant [] s t i e = subst I (ok-injective e) i
  fold_arguments-invariant ((key, a) ∷ args) s t i e =
      let (u, first, rest) = >>=-eq-ok (step a s) (fold_arguments step args) e in
      fold_arguments-invariant args u t (keeps a s u i first) rest

  pub fold_types-invariant :
      (fuel : ℕ) (types : Types) (o : Option ℕ) (s t : S)
      → I s
      → fold_types step fuel types o s ≡ ok t
      → I t
  unfolding fold_types
  fold_types-invariant zero types none s t i e = subst I (ok-injective e) i
  fold_types-invariant (suc fuel) types none s t i e = subst I (ok-injective e) i
  fold_types-invariant zero types (some x) s t i e = ground arith
  fold_types-invariant (suc fuel) types (some x) s t i e =
      let (u, first, rest) = >>=-eq-ok (fold_arguments step (types x).arguments s) _ e in
      fold_types-invariant fuel types (types x).parent u t
        (fold_arguments-invariant (types x).arguments s u i first) rest

  module _ (ends : (a : ℕ) (s : S) → I s → step a s ≢ err out_of_fuel) where
    fold_arguments_ends :
        (args : List (Text × ℕ)) (s : S) → I s → fold_arguments step args s ≢ err out_of_fuel
    unfolding fold_arguments
    fold_arguments_ends [] s i = ok-ne-err
    fold_arguments_ends ((key, a) ∷ args) s i =
        >>=-ne-err (step a s) _ (ends a s i) (λ t e. fold_arguments_ends args t (keeps a s t i e))

    ranked_ends :
        (fuel : ℕ) (types : Types) (rank : ℕ → ℕ) (t : ℕ) (s : S)
        → ((u p : ℕ) → (types u).parent ≡ some p → rank p < rank u)
        → rank t < fuel
        → I s
        → fold_types step fuel types (some t) s ≢ err out_of_fuel
    unfolding fold_types
    ranked_ends zero types rank t s lower lt i = elim lt [ ]
    ranked_ends (suc fuel) types rank t s lower lt i =
        >>=-ne-err (fold_arguments step (types t).arguments s) _
          (fold_arguments_ends (types t).arguments s i)
          (λ u e. elim (Option-cases (types t).parent) [
            | inl top ↦ rw top (alone fuel u)
            | inr (p, up) ↦ rw up (
                ranked_ends fuel types rank p u lower (omega (arith, lower t p up))
                  (fold_arguments-invariant (types t).arguments s u i e))
          ])
      where
        alone : (n : ℕ) (w : S) → fold_types step n types none w ≢ err out_of_fuel
        alone zero w = ok-ne-err
        alone (suc n) w = ok-ne-err

    pub fold_types_ends :
        (fuel : ℕ) (types : Types) (t : ℕ) (s : S)
        → Ranks types fuel
        → I s
        → fold_types step fuel types (some t) s ≢ err out_of_fuel
    fold_types_ends fuel types t s r = ranked_ends fuel types r.rank t s r.lower (r.low t)
