-- ===== src/Register/Loading/Claims.antt =====
-- New types and the claims of `Register::load` on them, which keep the register.
use mathlib.Core.Option.{some-injective, none-ne-some}
use experimaestro.Prelude.{
  ℕ, List, [], ◌<◌, ◌≡◌, ◌≢◌, ◌⊎◌, refl, sym, ap, ◌∙◌, subst, Bool, true, false, Option, none, some,
  Text, text_eq, text_eq_iff, text_eq_refl, lookup, lookup-insert, insert, arith, inl, inr,
  Bool-cases, Option-cases, true-ne-false,
}
use experimaestro.Errors.{ok, err, runtime_error, ok-injective, err-ne-ok}
use experimaestro.Scheduler.{update, update_elim, update_ne, update_self}
use experimaestro.Types.{TypeInfo}
use experimaestro.Register.{is_array_name}
use experimaestro.Register.Store.{Store, new_type, claim_type, type_or_placeholder}
use experimaestro.Register.Loading.Objects.{Good, Good-refl}

lookup-insert_cases :
    (name other : Text) (t k : ℕ) (m : List (Text × ℕ))
    → lookup other (insert name t m) ≡ some k
    → ((name ≡ other) × (t ≡ k)) ⊎ (lookup other m ≡ some k)
lookup-insert_cases name other t k m e = elim (Bool-cases (text_eq name other)) [
  | inl same ↦ inl (
    (text_eq_iff name other).0 same,
    some-injective t k (rw (lookup-insert name other t m, same) at e),
  )
  | inr apart ↦ inr (rw (lookup-insert name other t m, apart) at e)
]

lookup-insert_ne :
    (name other : Text) (t : ℕ) (m : List (Text × ℕ))
    → name ≢ other
    → lookup other (insert name t m) ≡ lookup other m
lookup-insert_ne name other t m ne = elim (Bool-cases (text_eq name other)) [
  | inl same ↦ absurd (ne ((text_eq_iff name other).0 same))
  | inr apart ↦ rw (lookup-insert name other t m, apart)
]

abbrev new_info : Text → TypeInfo
new_info name = record { name = name; parent = none; arguments = []; can_ignore = false }

module _ {D : Type 0} where
  -- A new type whose name is free, or has brackets at its end.
  pub new_type-Good :
      (name : Text) (placeholder : Bool) (s : Store D)
      → (lookup name s.names ≡ none) ⊎ (is_array_name name ≡ true)
      → Good s (new_type name placeholder s).1
  unfolding new_type
  new_type-Good name placeholder s free c = (
    record {
      named = λ other k e. elim (lookup-insert_cases name other s.count k s.names e) [
        | inl (n, t) ↦
            subst (λ j. (update s.types s.count (new_info name) j).name ≡ other) t
              (ap (λ i. i.name) (update_self s.types s.count (new_info name)) ∙ n)
        | inr old ↦
            ap (λ i. i.name)
              (update_ne s.types s.count (new_info name) k (omega (arith, c.taken other k old)))
            ∙ c.named other k old
      ];
      taken = λ other k e. elim (lookup-insert_cases name other s.count k s.names e) [
        | inl (n, t) ↦ omega (arith, t)
        | inr old ↦ omega (arith, c.taken other k old)
      ];
    },
    record {
      larger = omega arith;
      more = omega arith;
      same_type = λ k lt e _. update_ne s.types s.count (new_info name) k (omega (arith, lt));
      same_argument = λ n lt. refl;
      defined = λ k lt e. update_ne s.placeholder s.count placeholder k (omega (arith, lt)) ∙ e;
      same_name = λ k lt.
          ap (λ i. i.name) (update_ne s.types s.count (new_info name) k (omega (arith, lt)));
      found = λ other k a e.
          lookup-insert_ne name other s.count s.names (λ n. elim free [
            | inl absent ↦ none-ne-some k (sym absent ∙ ap (λ x. lookup x s.names) n ∙ e)
            | inr brackets ↦ true-ne-false (sym brackets ∙ ap is_array_name n ∙ a)
          ])
          ∙ e;
    },
  )

  -- A type of the name, which was not defined, with a store in which it is.
  abbrev pub Claims : Text → Store D → ℕ × Store D → Type 0
  Claims name s (t, s') =
      Good s s'
      × ((lookup name s'.names ≡ some t) × (s'.placeholder t ≡ false))
      × ((k : ℕ) → k < s.count → s.placeholder k ≡ false → t ≢ k)

  settle-Good :
      (t : ℕ) (s : Store D) → Good s (record s { placeholder = update s.placeholder t false })
  settle-Good t s c = (
    record { named = c.named; taken = c.taken },
    record {
      larger = omega arith;
      more = omega arith;
      same_type = λ k lt e _. refl;
      same_argument = λ n lt. refl;
      defined = λ k lt e. update_elim s.placeholder t false (λ b. b ≡ false) k (λ _. refl) (λ _. e);
      same_name = λ k lt. refl;
      found = λ name k a e. e;
    },
  )

  pub claim_type-Claims :
      (name : Text) (s : Store D) (p : ℕ × Store D) → claim_type name s ≡ ok p → Claims name s p
  unfolding claim_type new_type
  claim_type-Claims name s p e = elim (Option-cases (lookup name s.names)) [
    | inl absent ↦ subst (Claims name s) (ok-injective (rw (absent, claim_type) at e)) (
      new_type-Good name false s (inl absent),
      (
        rw (lookup-insert name name s.count s.names, text_eq_refl name) refl,
        update_self s.placeholder s.count false,
      ),
      λ k lt e. omega (arith, lt),
    )
    | inr (k, there) ↦ elim (Bool-cases (s.placeholder k)) [
      | inr defined ↦ absurd (err-ne-ok (rw (there, defined, claim_type) at e))
      | inl waiting ↦ subst (Claims name s) (ok-injective (rw (there, waiting, claim_type) at e)) (
        settle-Good k s,
        (there, update_self s.placeholder k false),
        λ n lt e q. true-ne-false (sym waiting ∙ ap s.placeholder q ∙ e),
      )
    ]
  ]

  -- A type that is defined cannot be claimed.
  pub claim_type-defined :
      (name : Text) (s : Store D) (t : ℕ)
      → lookup name s.names ≡ some t
      → s.placeholder t ≡ false
      → claim_type name s ≡ err runtime_error
  unfolding claim_type
  claim_type-defined name s t there defined = rw (there, claim_type) (rw defined refl)

  -- A type that was not found under a name is made, where the name is free or has brackets.
  pub type_or_placeholder-Good :
      (found : Option ℕ) (name : Text) (s : Store D)
      → (found ≡ none → (lookup name s.names ≡ none) ⊎ (is_array_name name ≡ true))
      → Good s (type_or_placeholder found name s).1
  unfolding type_or_placeholder
  type_or_placeholder-Good none name s free = new_type-Good name true s (free refl)
  type_or_placeholder-Good (some t) name s free = Good-refl s

  -- A type is put under its name again, as the last statement for a type does.
  pub rename-Good :
      (name : Text) (t : ℕ) (s : Store D)
      → (s.types t).name ≡ name
      → t < s.count
      → (is_array_name name ≡ false → lookup name s.names ≡ some t)
      → Good s (record s { names = insert (s.types t).name t s.names })
  rename-Good name t s named low there c = (
    record {
      named = λ other k e. elim (lookup-insert_cases (s.types t).name other t k s.names e) [
        | inl (n, same) ↦ ap (λ j. (s.types j).name) (sym same) ∙ n
        | inr old ↦ c.named other k old
      ];
      taken = λ other k e. elim (lookup-insert_cases (s.types t).name other t k s.names e) [
        | inl (n, same) ↦ omega (arith, same, low)
        | inr old ↦ c.taken other k old
      ];
    },
    record {
      larger = omega arith;
      more = omega arith;
      same_type = λ k lt e _. refl;
      same_argument = λ n lt. refl;
      defined = λ k lt e. e;
      same_name = λ k lt. refl;
      found = λ other k plain e. elim (Bool-cases (text_eq (s.types t).name other)) [
        | inl same ↦
            let is_name = sym named ∙ (text_eq_iff (s.types t).name other).0 same in
            rw (lookup-insert (s.types t).name other t s.names, same)
              (sym (there (ap is_array_name is_name ∙ plain))
                ∙ ap (λ n. lookup n s.names) is_name
                ∙ e)
        | inr apart ↦ rw (lookup-insert (s.types t).name other t s.names, apart) e
      ];
    },
  )
