-- ===== src/Types/Hierarchy.antt =====
-- What `accepts` and `lca` decide about the types above a type.
use experimaestro.Prelude.{
  ℕ, zero, suc, ◌<◌, ◌≡◌, ◌≢◌, ◌⊎◌, ◌↔◌, inl, inr, refl, sym, ap, ◌∙◌, subst, Bool, true, false,
  Option, none, some, Text, text_eq, text_eq_iff, arith, Bool-cases, Option-cases, true-ne-false,
}
use experimaestro.Errors.{Result, ok}
use experimaestro.Types.{
  Types, any_name, integer_name, real_name, same, first_above, is_castable, accepts, lca,
}

-- `u` is `t` or one of its parents.
pub data Above (types : Types) (u : ℕ) : ℕ → Type 0 where
  itself : Above types u u
  up : {t p : ℕ} → (types t).parent ≡ some p → Above types u p → Above types u t

-- Types are numbered in the order of their creation: a parent comes before its children.
abbrev pub IsFounded : Types → Type 0
IsFounded types = (t p : ℕ) → (types t).parent ≡ some p → p < t

pub record IsFirst (types : Types) (test : ℕ → Bool) (t : ℕ) (r : Result (Option ℕ)) (u : ℕ)
    : Type 0 where
  pub found : r ≡ ok (some u)
  pub above : Above types u t
  pub passes : test u ≡ true

pub record IsAbsent (types : Types) (test : ℕ → Bool) (t : ℕ) (r : Result (Option ℕ)) : Type 0 where
  pub missing : r ≡ ok none
  pub fails : (u : ℕ) → Above types u t → test u ≡ false

pub Above-none : (types : Types) (u t : ℕ) → (types t).parent ≡ none → Above types u t → u ≡ t
Above-none types u t e itself = refl
Above-none types u t e (up q a) = absurd (none-ne-some (sym e ∙ q))
  where
    none-ne-some : {p : ℕ} → none ≢ some p
    none-ne-some h = cc

pub Above-some :
    (types : Types) (u t p : ℕ)
    → (types t).parent ≡ some p
    → Above types u t
    → (u ≡ t) ⊎ Above types u p
Above-some types u t p e itself = inl refl
Above-some types u t p e (up q a) = inr (subst (λ x. Above types u x) (same_parent (sym q ∙ e)) a)
  where
    same_parent : {x y : ℕ} → some x ≡ some y → x ≡ y
    same_parent h = cc

module _ (types : Types) (founded : IsFounded types) where
  pub first_above-cases :
      (fuel : ℕ) (test : ℕ → Bool) (t : ℕ)
      → t < fuel
      → ((u : ℕ) × IsFirst types test t (first_above fuel types test (some t)) u)
        ⊎ IsAbsent types test t (first_above fuel types test (some t))
  unfolding first_above
  first_above-cases zero test t lt = elim lt [ ]
  first_above-cases (suc fuel) test t lt = elim (Bool-cases (test t)) [
    | inl good ↦ inl (t, record { found = rw (good, first_above); above = itself; passes = good })
    | inr bad ↦ elim (Option-cases (types t).parent) [
      | inl top ↦ inr (record {
        missing = rw (bad, top, first_above) (alone fuel);
        fails = λ u a. ap test (Above-none types u t top a) ∙ bad;
      })
      | inr (p, e) ↦ elim (first_above-cases fuel test p (omega (arith, founded t p e))) [
        | inl (u, f) ↦ inl (
          u,
          record {
            found = rw (bad, e, first_above) f.found;
            above = up e f.above;
            passes = f.passes;
          },
        )
        | inr f ↦ inr (record {
          missing = rw (bad, e, first_above) f.missing;
          fails = λ u a. elim (Above-some types u t p e a) [
            | inl q ↦ ap test q ∙ bad
            | inr b ↦ f.fails u b
          ];
        })
      ]
    ]
  ]
    where
      alone : (n : ℕ) → first_above n types test none ≡ ok none
      alone zero = refl
      alone (suc n) = refl

-- What a type is to accept.
abbrev pub Fits : Types → ℕ → ℕ → Type 0
Fits types t other =
    ((types t).name ≡ any_name)
    ⊎ (((u : ℕ) × Above types u other × ((types u).name ≡ (types t).name))
        ⊎ (((types t).name ≡ real_name) × ((types other).name ≡ integer_name)))

castable_iff :
    (to from : Text) → (is_castable to from ≡ true) ↔ ((to ≡ real_name) × (from ≡ integer_name))
unfolding is_castable
castable_iff to from = ground (arith, text_eq_iff to real_name, text_eq_iff from integer_name)

-- With types numbered so that a parent comes before its children and fuel beyond the other type,
-- `accepts` ends, and accepts exactly what it should: any type for `any`, a type that has the name
-- or a parent of the name, and `integer` for `real`.
pub accepts-Fits :
    (types : Types) (fuel t other : ℕ)
    → IsFounded types
    → other < fuel
    → (b : Bool) × (accepts fuel types t other ≡ ok b) × ((b ≡ true) ↔ Fits types t other)
unfolding accepts same
accepts-Fits types fuel t other founded lt = elim (Bool-cases (text_eq (types t).name any_name)) [
  | inl top ↦ (
    true,
    rw (top, accepts),
    ((λ _. inl ((text_eq_iff (types t).name any_name).0 top)), (λ _. refl)),
  )
  | inr named ↦ elim (first_above-cases types founded fuel (λ u. same types u t) other lt) [
    | inl (u, f) ↦ (
      true,
      rw (named, accepts) (rw f.found),
      (
        (λ _. inr (inl (u, f.above, (text_eq_iff (types u).name (types t).name).0 f.passes))),
        (λ _. refl),
      ),
    )
    | inr f ↦ (
      is_castable (types t).name (types other).name,
      rw (named, accepts) (rw f.missing),
      (
        (λ c. inr (inr ((castable_iff (types t).name (types other).name).0 c))),
        (λ h. elim h [
          | inl e ↦ absurd (true-ne-false (sym ((text_eq_iff (types t).name any_name).1 e) ∙ named))
          | inr (inl (u, a, e)) ↦
              absurd (
                true-ne-false (sym ((text_eq_iff (types u).name (types t).name).1 e) ∙ f.fails u a))
          | inr (inr c) ↦ (castable_iff (types t).name (types other).name).1 c
        ]),
      ),
    )
  ]
]

-- With types numbered so that a parent comes before its children and fuel beyond `a`, where `b`
-- itself is above `a`, `lca` gives `a`, the lower of the two.
lca-Above :
    (types : Types) (fuel a b : ℕ)
    → IsFounded types
    → a < fuel
    → Above types b a
    → lca fuel types a b ≡ ok a
unfolding lca same
lca-Above types fuel a b founded lt above =
    elim (first_above-cases types founded fuel (λ u. same types u b) a lt) [
      | inl (u, f) ↦ rw (f.found, lca)
      | inr f ↦ absurd (
          true-ne-false
            (sym ((text_eq_iff (types b).name (types b).name).1 refl) ∙ f.fails b above))
    ]
