-- ===== src/Register/Creation/Keeping.antt =====
-- `Value::create` keeps the register: it only adds placeholders.
use experimaestro.Prelude.{
  ℕ, ◌≡◌, subst, Option, codes, ap, ◌∙◌, [], Bool-cases, Option-cases, inl, inr,
}
use experimaestro.Errors.{Result, ok, >>=-eq-ok, ok-injective, ◌>>=◌}
use experimaestro.Scalar.{Numbers}
use experimaestro.Scalar.Json.{
  Json, null, discarded, json_string, json_boolean, number_integer, number_unsigned, number_float,
  object, array, Members, no_member, member, Elements, no_element, element, from_json,
}
use experimaestro.Command.{get_text, get_member}
use experimaestro.Types.{any_type}
use experimaestro.Value.{Value, Values, no_value}
use experimaestro.Register.{get_type}
use experimaestro.Register.Store.{Store}
use experimaestro.Register.Creation.{
  type_of_object, on_map, fill_restricted, is_own_key, fill_member, push_back, create,
  create_members, create_elements,
}
use experimaestro.Register.Loading.Objects.{Good, Good-refl, Good-trans}
use experimaestro.Register.Loading.Claims.{type_or_placeholder-Good}
use experimaestro.Register.Loading.Parts.{get_type-none}

type_of_object-Good :
    {D : Type 0} (fuel : ℕ) (array_of : ℕ → ℕ) (members : Members D) (s : Store D) (p : ℕ × Store D)
    → type_of_object fuel array_of members s ≡ ok p
    → Good s p.1
unfolding type_of_object
type_of_object-Good fuel array_of members s p e =
    elim (Option-cases (get_member (codes "$type") members)) [
      | inl untyped ↦
          subst (λ q. Good s q.1) (ok-injective (rw (untyped, type_of_object) at e)) (Good-refl s)
      | inr (kind, typed) ↦
          let (name, _, e1) = >>=-eq-ok (get_text kind) _ (rw (typed, type_of_object) at e) in
          let (found, first, e2) = >>=-eq-ok (get_type fuel array_of name s.names) _ e1 in
          subst (λ q. Good s q.1) (ok-injective e2)
            (type_or_placeholder-Good found name s
              (λ n. get_type-none fuel array_of name s.names (first ∙ ap ok n)))
    ]

module _ (m : Numbers) (fuel : ℕ) (array_of : ℕ → ℕ) (component_of : ℕ → Option ℕ)
    (dummy_job : Json m.Double → Result ℕ) where
  plain-Good :
      (e : Json m.Double) (s : Store m.Double) (p : Value m.Double × Store m.Double)
      → (from_json m e >>= λ content. ok (Value.scalar 0 [] content, s)) ≡ ok p
      → Good s p.1
  plain-Good e s p h =
      let (content, _, last) = >>=-eq-ok (from_json m e) _ h in
      subst (λ q. Good s q.1) (ok-injective last) (Good-refl s)

  mutual
    unfolding create

    pub json-Good :
        (e : Json m.Double) (s : Store m.Double) (p : Value m.Double × Store m.Double)
        → create m fuel array_of component_of dummy_job e s ≡ ok p
        → Good s p.1
    json-Good (object members) s p h =
        let (q, first, h1) = >>=-eq-ok (type_of_object fuel array_of members s) _ h in
        Good-trans s q.1 p.1 (type_of_object-Good fuel array_of members s q first)
          (members-Good q.0 members _ q.1 p h1)
    json-Good (array elements) s p h = elements-Good elements any_type no_value s p h
    json-Good null s p h = plain-Good null s p h
    json-Good discarded s p h = plain-Good discarded s p h
    json-Good (json_string value) s p h = plain-Good (json_string value) s p h
    json-Good (json_boolean value) s p h = plain-Good (json_boolean value) s p h
    json-Good (number_integer value) s p h = plain-Good (number_integer value) s p h
    json-Good (number_unsigned value) s p h = plain-Good (number_unsigned value) s p h
    json-Good (number_float value) s p h = plain-Good (number_float value) s p h

    members-Good :
        (t : ℕ) (ms : Members m.Double) (v : Value m.Double) (s : Store m.Double)
        (p : Value m.Double × Store m.Double)
        → create_members m fuel array_of component_of dummy_job t ms v s ≡ ok p
        → Good s p.1
    members-Good t no_member v s p h = subst (λ q. Good s q.1) (ok-injective h) (Good-refl s)
    members-Good t (member key e rest) v s p h =
        elim (Bool-cases (is_own_key m fuel array_of component_of dummy_job key)) [
          | inl own ↦
              let (w, _, h1) =
                >>=-eq-ok (fill_restricted m fuel array_of component_of dummy_job t key e v s) _
                  (rw (own, create) at h) in
              members-Good t rest w s p h1
          | inr other ↦
              let (_, _, h1) = >>=-eq-ok (on_map (λ i. i) v) _ (rw (other, create) at h) in
              let (q, first, h2) =
                >>=-eq-ok (create m fuel array_of component_of dummy_job e s) _ h1 in
              let (w, _, h3) =
                >>=-eq-ok (fill_member m fuel array_of component_of dummy_job t key q.0 v q.1) _
                  h2 in
              Good-trans s q.1 p.1 (json-Good e s q first) (members-Good t rest w q.1 p h3)
        ]

    elements-Good :
        (es : Elements m.Double) (component : ℕ) (vs : Values m.Double) (s : Store m.Double)
        (p : Value m.Double × Store m.Double)
        → create_elements m fuel array_of component_of dummy_job es component vs s ≡ ok p
        → Good s p.1
    elements-Good no_element component vs s p h =
        subst (λ q. Good s q.1) (ok-injective h) (Good-refl s)
    elements-Good (element e rest) component vs s p h =
        let (q, first, h1) = >>=-eq-ok (create m fuel array_of component_of dummy_job e s) _ h in
        let (r, _, h2) =
          >>=-eq-ok (push_back m fuel array_of component_of dummy_job q.0 component vs q.1) _ h1 in
        Good-trans s q.1 p.1 (json-Good e s q first) (elements-Good rest r.0 r.1 q.1 p h2)
