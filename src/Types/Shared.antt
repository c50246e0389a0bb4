-- ===== src/Types/Shared.antt =====
-- What `lca` gives when neither type is above the other.
use experimaestro.Prelude.{
  ℕ, zero, suc, ◌<◌, ◌≡◌, ◌⊎◌, ◌↔◌, inl, inr, refl, sym, ap, ◌∙◌, true, none, some, List, [], ◌∷◌,
  Text, text_eq, text_eq_iff, any, arith, Bool-cases, Option-cases, true-ne-false,
}
use experimaestro.Errors.{Result, ok, ◌>>=◌}
use experimaestro.Types.{Types, any_type, same, names_above, lca}
use experimaestro.Types.Hierarchy.{
  Above, itself, up, IsFounded, Above-some, Above-none, first_above-cases,
}

abbrev pub IsNamed : Types → Text → ℕ → Type 0
IsNamed types n t = (u : ℕ) × Above types u t × ((types u).name ≡ n)

-- The names collected are those of the types above.
pub record Collects (types : Types) (t : ℕ) (r : Result (List Text)) : Type 0 where
  pub names : List Text
  pub collected : r ≡ ok names
  pub named : (n : Text) → (any (text_eq n) names ≡ true) ↔ IsNamed types n t

module _ (types : Types) (founded : IsFounded types) where
  one_name :
      (t : ℕ) (n : Text)
      → (types t).parent ≡ none
      → (any (text_eq n) ((types t).name ∷ []) ≡ true) ↔ IsNamed types n t
  one_name t n top = (
    (λ h. (t, itself, sym ((text_eq_iff n (types t).name).0 (ground (arith, h))))),
    (λ (u, a, e). rw (
        (text_eq_iff n (types t).name).1
          (sym e ∙ ap (λ x. (types x).name) (Above-none types u t top a)))),
  )

  more_names :
      (t p : ℕ) (n : Text) (names : List Text)
      → (types t).parent ≡ some p
      → (any (text_eq n) names ≡ true) ↔ IsNamed types n p
      → (any (text_eq n) ((types t).name ∷ names) ≡ true) ↔ IsNamed types n t
  more_names t p n names e h = (
    (λ q. elim (Bool-cases (text_eq n (types t).name)) [
      | inl here ↦ (t, itself, sym ((text_eq_iff n (types t).name).0 here))
      | inr there ↦ let (u, a, m) = h.0 (rw there at q) in (u, up e a, m)
    ]),
    (λ (u, a, m). elim (Bool-cases (text_eq n (types t).name)) [
      | inl here ↦ rw here
      | inr there ↦ elim (Above-some types u t p e a) [
        | inl q ↦ absurd (
            true-ne-false
              (sym ((text_eq_iff n (types t).name).1 (sym m ∙ ap (λ x. (types x).name) q)) ∙ there))
        | inr b ↦ rw there (h.1 (u, b, m))
      ]
    ]),
  )

  names_above-Collects :
      (fuel t : ℕ) → t < fuel → Collects types t (names_above fuel types (some t))
  unfolding names_above
  names_above-Collects zero t lt = elim lt [ ]
  names_above-Collects (suc fuel) t lt = elim (Option-cases (types t).parent) [
    | inl top ↦ record {
      names = (types t).name ∷ [];
      collected = rw (top, names_above) (alone fuel);
      named = λ n. one_name t n top;
    }
    | inr (p, e) ↦
        let rest = names_above-Collects fuel p (omega (arith, founded t p e)) in
        record {
          names = (types t).name ∷ rest.names;
          collected = rw (e, names_above) (rw rest.collected);
          named = λ n. more_names t p n rest.names e (rest.named n);
        }
  ]
    where
      alone :
          (n : ℕ)
          → (names_above n types none >>= λ rest. ok ((types t).name ∷ rest))
            ≡ ok ((types t).name ∷ [])
      alone zero = refl
      alone (suc n) = refl

-- With types numbered so that a parent comes before its children and fuel beyond both types, where
-- no type above `a` has the name of `b`, `lca` ends, and gives a type above `b` whose name is that
-- of a type above `a`, or `any` when there is none.
lca-IsNamed :
    (types : Types) (fuel a b : ℕ)
    → IsFounded types
    → a < fuel
    → b < fuel
    → ¬ IsNamed types (types b).name a
    → ((r : ℕ) × (lca fuel types a b ≡ ok r) × Above types r b × IsNamed types (types r).name a)
      ⊎ ((lca fuel types a b ≡ ok any_type)
          × ((u : ℕ) → Above types u b → ¬ IsNamed types (types u).name a))
unfolding lca same
lca-IsNamed types fuel a b founded below below' apart =
    let names = names_above-Collects types founded fuel a below in
    elim (first_above-cases types founded fuel (λ u. same types u b) a below) [
      | inl (u, f) ↦
          absurd (apart (u, f.above, (text_eq_iff (types u).name (types b).name).0 f.passes))
      | inr f ↦
          elim (first_above-cases types founded fuel (λ u. any (text_eq (types u).name) names.names)
            b below') [
              | inl (r, g) ↦ inl (
                r,
                rw (f.missing, lca) (rw names.collected (rw g.found)),
                g.above,
                (names.named (types r).name).0 g.passes,
              )
              | inr g ↦ inr (
                rw (f.missing, lca) (rw names.collected (rw g.missing)),
                (λ u a h. true-ne-false (sym ((names.named (types u).name).1 h) ∙ g.fails u a)),
              )
            ]
    ]
