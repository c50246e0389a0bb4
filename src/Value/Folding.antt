-- ===== src/Value/Folding.antt =====
-- The two nested loops of `MapValue::_generate` and `MapValue::_validate`: over a type and its parents,
-- and over the arguments of each. The order of the arguments of a type is that of its list.
pub mod Ends
use experimaestro.Prelude.{
  ℕ, zero, suc, ◌≡◌, sym, subst, Option, none, some, List, [], ◌∷◌, Text, All, Option-cases, inl,
  inr,
}
use experimaestro.Errors.{Result, ok, err, out_of_fuel, ◌>>=◌, >>=-eq-ok, ok-injective, err-ne-ok}
use experimaestro.Types.{Types}
use experimaestro.Types.Hierarchy.{Above, Above-some, Above-none}

module _ {S : Type 0} (step : ℕ → S → Result S) where
  -- `for (auto entry : type->arguments())`
  unfoldable pub fold_arguments : List (Text × ℕ) → S → Result S
  fold_arguments [] s = ok s
  fold_arguments ((key, a) ∷ more) s = step a s >>= fold_arguments more

  -- `for (auto type = _type; type; type = type->parentType())`, on fuel.
  unfoldable pub fold_types : ℕ → Types → Option ℕ → S → Result S
  unfolding fold_arguments
  fold_types fuel types none s = ok s
  fold_types zero types (some t) s = err out_of_fuel
  fold_types (suc fuel) types (some t) s =
      fold_arguments (types t).arguments s >>= fold_types fuel types (types t).parent

  -- What the step for an argument gives, and no step takes away, holds of all arguments in the end.
  module _ (P : ℕ → S → Type 0) (gives : (a : ℕ) (s t : S) → step a s ≡ ok t → P a t)
      (keeps : (a b : ℕ) (s t : S) → step a s ≡ ok t → P b s → P b t) where
    fold_arguments-keeps :
        (args : List (Text × ℕ)) (b : ℕ) (s t : S) → fold_arguments args s ≡ ok t → P b s → P b t
    unfolding fold_arguments
    fold_arguments-keeps [] b s t e h = subst (P b) (ok-injective e) h
    fold_arguments-keeps ((key, a) ∷ args) b s t e h =
        let (u, first, rest) = >>=-eq-ok (step a s) (fold_arguments args) e in
        fold_arguments-keeps args b u t rest (keeps a b s u first h)

    fold_arguments-gives :
        (args : List (Text × ℕ)) (s t : S) → fold_arguments args s ≡ ok t → All (λ e. P e.1 t) args
    unfolding fold_arguments
    fold_arguments-gives [] s t e = tt
    fold_arguments-gives ((key, a) ∷ args) s t e =
        let (u, first, rest) = >>=-eq-ok (step a s) (fold_arguments args) e in
        (
          fold_arguments-keeps args a u t rest (gives a s u first),
          fold_arguments-gives args u t rest,
        )

    fold_types-keeps :
        (fuel : ℕ) (types : Types) (o : Option ℕ) (b : ℕ) (s t : S)
        → fold_types fuel types o s ≡ ok t
        → P b s
        → P b t
    unfolding fold_types
    fold_types-keeps zero types none b s t e h = subst (P b) (ok-injective e) h
    fold_types-keeps (suc fuel) types none b s t e h = subst (P b) (ok-injective e) h
    fold_types-keeps zero types (some x) b s t e h = absurd (err-ne-ok e)
    fold_types-keeps (suc fuel) types (some x) b s t e h =
        let (u, first, rest) = >>=-eq-ok (fold_arguments (types x).arguments s) _ e in
        fold_types-keeps fuel types (types x).parent b u t rest
          (fold_arguments-keeps (types x).arguments b s u first h)

    All-keeps :
        (fuel : ℕ) (types : Types) (o : Option ℕ) (args : List (Text × ℕ)) (s t : S)
        → fold_types fuel types o s ≡ ok t
        → All (λ e. P e.1 s) args
        → All (λ e. P e.1 t) args
    All-keeps fuel types o [] s t e h = tt
    All-keeps fuel types o (a ∷ args) s t e h =
        (fold_types-keeps fuel types o a.1 s t e h.0, All-keeps fuel types o args s t e h.1)

    pub fold_types-gives :
        (fuel : ℕ) (types : Types) (x : ℕ) (s t : S)
        → fold_types fuel types (some x) s ≡ ok t
        → (u : ℕ) → Above types u x
        → All (λ e. P e.1 t) (types u).arguments
    unfolding fold_types
    fold_types-gives zero types x s t e u above = absurd (err-ne-ok e)
    fold_types-gives (suc fuel) types x s t e u above =
        let (w, first, rest) = >>=-eq-ok (fold_arguments (types x).arguments s) _ e in
        let own =
          All-keeps fuel types (types x).parent (types x).arguments w t rest
            (fold_arguments-gives (types x).arguments s w first) in
        elim (Option-cases (types x).parent) [
          | inl top ↦
              subst (λ y. All (λ e. P e.1 t) (types y).arguments)
                (sym (Above-none types u x top above)) own
          | inr (p, q) ↦ elim (Above-some types u x p q above) [
            | inl same ↦ subst (λ y. All (λ e. P e.1 t) (types y).arguments) (sym same) own
            | inr higher ↦
                fold_types-gives fuel types p w t
                  (subst (λ o. fold_types fuel types o w ≡ ok t) q rest) u higher
          ]
        ]
