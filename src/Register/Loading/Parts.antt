-- ===== src/Register/Loading/Parts.antt =====
-- What the steps of `Register::load` for one type keep of the register.
use experimaestro.Prelude.{
  ℕ, zero, suc, ◌≡◌, ◌⊎◌, [], refl, ap, ◌∙◌, subst, true, Option, none, some, Text, codes, lookup,
  inl, inr, arith, Bool-cases,
}
use experimaestro.Errors.{Result, ok, >>=-eq-ok, ok-injective, err-ne-ok}
use experimaestro.Scalar.Json.{Json, json_string, Members, no_member, member}
use experimaestro.Scheduler.{update, update_ne}
use experimaestro.Command.{count_member, get_text}
use experimaestro.Types.{parent_type, add_argument}
use experimaestro.Value.{Value}
use experimaestro.Value.Arguments.{
  Argument, create as new_argument, set_constant, set_default_value, set_required, set_type,
}
use experimaestro.Register.{Register, is_array_name, get_type}
use experimaestro.Register.Store.{
  Store, at_member, text_or, bool_or, type_or_placeholder, change_type, load_parent,
}
use experimaestro.Register.Loading.{
  load_value, put_generator, load_contents, load_definition, load_description, put_argument,
  load_argument, load_arguments, load_properties,
}
use experimaestro.Register.Loading.Objects.{
  Good, GoodBut, weaken, Good-refl, Good-trans, Good-beside, change_type-Good,
}
use experimaestro.Register.Loading.Claims.{type_or_placeholder-Good}

pub get_type-none :
    (fuel : ℕ) (array_of : ℕ → ℕ) (name : Text) (r : Register)
    → get_type fuel array_of name r ≡ ok none
    → (lookup name r ≡ none) ⊎ (is_array_name name ≡ true)
unfolding get_type
get_type-none zero array_of name r e = absurd (err-ne-ok e)
get_type-none (suc fuel) array_of name r e = elim (Bool-cases (is_array_name name)) [
  | inl brackets ↦ inr brackets
  | inr plain ↦ inl (ok-injective (rw (plain, get_type) at e))
]

module _ {D : Type 0} (fuel : ℕ) (array_of : ℕ → ℕ)
    (create : Json D → Store D → Result (Value D × Store D))
    (creates : (e : Json D) (s : Store D) (p : Value D × Store D)
      → create e s ≡ ok p
      → Good s p.1) where
  pub load_parent-Good :
      (t : ℕ) (e : Json D) (s s' : Store D) → load_parent t e s ≡ ok s' → GoodBut (some t) s s'
  unfolding load_parent parent_type
  load_parent-Good t e s s' h = elim (Bool-cases (count_member (codes "parent") e)) [
    | inr orphan ↦
        subst (GoodBut (some t) s) (ok-injective (rw (orphan, load_parent) at h))
          (weaken (some t) s s (Good-refl s))
    | inl child ↦
        let (value, first, h1) =
          >>=-eq-ok (at_member (codes "parent") e) _ (rw (child, load_parent) at h) in
        let (name, second, h2) = >>=-eq-ok (get_text value) _ h1 in
        let p = type_or_placeholder (lookup name s.names) name s in
        subst (GoodBut (some t) s) (ok-injective h2) (
          Good-trans s p.1 (change_type t (parent_type p.0) p.1)
            (weaken (some t) s p.1 (type_or_placeholder-Good (lookup name s.names) name s inl))
            (change_type-Good t (parent_type p.0) p.1 (λ i. refl)))
  ]

  load_value-Good :
      (tested read : Text) (put : Option (Value D) → Argument D → Argument D) (value : Json D)
      (a : Argument D) (s : Store D) (p : Argument D × Store D)
      → load_value fuel array_of create tested read put value (a, s) ≡ ok p
      → Good s p.1
  unfolding load_value
  load_value-Good tested read put value a s p h = elim (Bool-cases (count_member tested value)) [
    | inr absent ↦
        subst (λ q. Good s q.1) (ok-injective (rw (absent, load_value) at h)) (Good-refl s)
    | inl there ↦
        let (e, first, h1) = >>=-eq-ok (at_member read value) _ (rw (there, load_value) at h) in
        let (q, second, h2) = >>=-eq-ok (create e s) _ h1 in
        subst (λ r. Good s r.1) (ok-injective h2) (creates e s q second)
  ]

  load_contents-Good :
      (value : Json D) (a : Argument D) (s : Store D) (p : Argument D × Store D)
      → load_contents fuel array_of create value a s ≡ ok p
      → Good s p.1
  unfolding load_contents
  load_contents-Good value a s p h =
      let default = codes "default" in
      let constant = codes "constant" in
      let (q, first, h1) =
        >>=-eq-ok (load_value fuel array_of create default default set_default_value value (a, s)) _
          h in
      let (r, second, h2) =
        >>=-eq-ok (load_value fuel array_of create constant default set_constant value (q.0, q.1)) _
          h1 in
      let (b, _, h3) = >>=-eq-ok (put_generator fuel array_of create value r.0) _ h2 in
      subst (λ x. Good s x.1) (ok-injective h3)
        (Good-trans s q.1 r.1 (load_value-Good default default set_default_value value a s q first)
          (load_value-Good constant default set_constant value q.0 q.1 r second))

  load_definition-Good :
      (value : Json D) (a : Argument D) (s : Store D) (p : Text × Argument D × Store D)
      → load_definition fuel array_of create value a s ≡ ok p
      → Good s p.2
  unfolding load_definition
  load_definition-Good value a s p h = elim (Bool-cases (count_member (codes "type") value)) [
    | inr absent ↦ absurd (err-ne-ok (rw (absent, load_definition) at h))
    | inl there ↦
        let (kind, _, h1) =
          >>=-eq-ok (at_member (codes "type") value) _ (rw (there, load_definition) at h) in
        let (type, _, h2) = >>=-eq-ok (get_text kind) _ h1 in
        let (help, _, h3) = >>=-eq-ok (text_or (codes "help") [] value) _ h2 in
        let (required, _, h4) = >>=-eq-ok (bool_or (codes "required") true value) _ h3 in
        let (q, first, h5) =
          >>=-eq-ok (load_contents fuel array_of create value (set_required required a) s) _ h4 in
        subst (λ x. Good s x.2) (ok-injective h5)
          (load_contents-Good value (set_required required a) s q first)
  ]

  load_description-Good :
      (value : Json D) (a : Argument D) (s : Store D) (p : Text × Argument D × Store D)
      → load_description fuel array_of create value a s ≡ ok p
      → Good s p.2
  unfolding load_description
  load_description-Good (json_string type) a s p h =
      subst (λ x. Good s x.2) (ok-injective h) (Good-refl s)
  load_description-Good value a s p h = load_definition-Good value a s p h

  put_argument-Good :
      (t : ℕ) (name : Text) (type : ℕ) (a : Argument D) (s : Store D)
      → GoodBut (some t) s (put_argument fuel array_of create t name type a s)
  unfolding put_argument add_argument
  put_argument-Good t name type a s =
      let s1 = record s {
        arguments = update s.arguments s.argument_count (set_type (some type) a);
        argument_count = suc s.argument_count;
      } in
      Good-trans s s1 _
        (weaken (some t) s s1 (
          Good-beside s s1.arguments s1.argument_count s.tasks (omega arith) (λ k lt.
            update_ne s.arguments s.argument_count (set_type (some type) a) k (omega (arith, lt)))))
        (change_type-Good t (add_argument name s.argument_count) s1 (λ i. refl))

  pub load_argument-Good :
      (t : ℕ) (name : Text) (value : Json D) (s s' : Store D)
      → load_argument fuel array_of create t name value s ≡ ok s'
      → GoodBut (some t) s s'
  unfolding load_argument
  load_argument-Good t name value s s' h =
      let (p, first, h1) =
        >>=-eq-ok (load_description fuel array_of create value (new_argument name) s) _ h in
      let (found, second, h2) = >>=-eq-ok (get_type fuel array_of p.0 p.2.names) _ h1 in
      let q = type_or_placeholder found p.0 p.2 in
      subst (GoodBut (some t) s) (ok-injective h2) (
        Good-trans s p.2 _
          (weaken (some t) s p.2 (load_description-Good value (new_argument name) s p first))
          (Good-trans p.2 q.1 _
            (weaken (some t) p.2 q.1 (
              type_or_placeholder-Good found p.0 p.2
                (λ e. get_type-none fuel array_of p.0 p.2.names (second ∙ ap ok e))))
            (put_argument-Good t name q.0 p.1 q.1)))

  pub load_arguments-Good :
      (t : ℕ) (ms : Members D) (s s' : Store D)
      → load_arguments fuel array_of create t ms s ≡ ok s'
      → GoodBut (some t) s s'
  unfolding load_arguments
  load_arguments-Good t no_member s s' h =
      subst (GoodBut (some t) s) (ok-injective h) (weaken (some t) s s (Good-refl s))
  load_arguments-Good t (member name value rest) s s' h =
      let (u, first, more) = >>=-eq-ok (load_argument fuel array_of create t name value s) _ h in
      Good-trans s u s' (load_argument-Good t name value s u first)
        (load_arguments-Good t rest u s' more)

  pub load_properties-Good :
      (ms : Members D) (s s' : Store D)
      → load_properties fuel array_of create ms s ≡ ok s'
      → Good s s'
  unfolding load_properties
  load_properties-Good no_member s s' h = subst (Good s) (ok-injective h) (Good-refl s)
  load_properties-Good (member name value rest) s s' h =
      let (p, first, more) = >>=-eq-ok (create value s) _ h in
      Good-trans s p.1 s' (creates value s p first) (load_properties-Good rest p.1 s' more)
