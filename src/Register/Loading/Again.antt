-- ===== src/Register/Loading/Again.antt =====
-- `Register::load`, and a register that is loaded twice.
use experimaestro.Prelude.{
  ℕ, ◌≡◌, refl, ◌∙◌, subst, false, Option, some, Text, codes, text_eq_iff, lookup, lookup-insert,
  insert, arith, inl, inr, Bool-cases,
}
use experimaestro.Errors.{Result, ok, err, runtime_error, >>=-eq-ok, ok-injective, err-ne-ok}
use experimaestro.Scalar.Json.{Json, object, Members, no_member, member}
use experimaestro.Command.{count_member, get_text, load, empty_line}
use experimaestro.Value.{Value}
use experimaestro.Register.{is_array_name, get_type}
use experimaestro.Register.Store.{Store, at_member, members_or, claim_type, load_parent, new_task}
use experimaestro.Register.Loading.{
  load_arguments, load_properties, load_description_text, load_type, load_types, load_command_of,
  load_task, load_tasks, asserted, load_register,
}
use experimaestro.Register.Loading.Objects.{
  IsConsistent, Good, GoodBut, weaken, Good-refl, Good-trans, Good-trans_open, Good-beside,
}
use experimaestro.Register.Loading.Claims.{
  Claims, claim_type-Claims, claim_type-defined, rename-Good,
}
use experimaestro.Register.Loading.Parts.{
  load_parent-Good, load_arguments-Good, load_properties-Good,
}

module _ {D : Type 0} (fuel : ℕ) (array_of : ℕ → ℕ)
    (create : Json D → Store D → Result (Value D × Store D))
    (creates : (e : Json D) (s : Store D) (p : Value D × Store D)
      → create e s ≡ ok p
      → Good s p.1) where
  -- A name without brackets is defined.
  abbrev IsDefined : Text → Store D → Type 0
  IsDefined name s = (t : ℕ) × (lookup name s.names ≡ some t) × (s.placeholder t ≡ false)

  Good-IsDefined :
      (name : Text) (s s' : Store D)
      → is_array_name name ≡ false
      → IsConsistent s
      → Good s s'
      → IsDefined name s
      → IsDefined name s'
  Good-IsDefined name s s' plain c good (t, there, settled) =
      let (c', x) = good c in
      (t, x.found name t plain there, x.defined t (c.taken name t there) settled)

  abbrev Loaded : Text → Store D → Store D → Type 0
  Loaded name s s' = Good s s' × (is_array_name name ≡ false → IsConsistent s → IsDefined name s')

  -- The last statement for a type that was claimed, when the others have kept the register.
  close :
      (name : Text) (s : Store D) (p : ℕ × Store D) (s4 : Store D)
      → Claims name s p
      → GoodBut (some p.0) p.1 s4
      → Loaded name s (record s4 { names = insert (s4.types p.0).name p.0 s4.names })
  close name s p s4 (claimed, (there, settled), new) parts = (
    (λ c.
        let (c1, _) = claimed c in
        let (c4, x) = parts c1 in
        Good-trans_open p.0 s p.1 _ new claimed
          (Good-trans p.1 s4 _ parts (
            weaken (some p.0) s4 _ (
              rename-Good name p.0 s4
                (x.same_name p.0 (c1.taken name p.0 there) ∙ c1.named name p.0 there)
                (omega (arith, x.larger, c1.taken name p.0 there))
                (λ plain. x.found name p.0 plain there))))
          c),
    (λ plain c.
        let (c1, _) = claimed c in
        let (c4, x) = parts c1 in
        let is_name = x.same_name p.0 (c1.taken name p.0 there) ∙ c1.named name p.0 there in
        (
          p.0,
          rw
              (
                lookup-insert (s4.types p.0).name name p.0 s4.names,
                (text_eq_iff (s4.types p.0).name name).1 is_name,
              )
              refl,
          x.defined p.0 (c1.taken name p.0 there) settled,
        )),
  )

  load_type-Good :
      (name : Text) (e : Json D) (s s' : Store D)
      → load_type fuel array_of create name e s ≡ ok s'
      → Good s s' × (is_array_name name ≡ false → IsConsistent s → IsDefined name s')
  unfolding load_type
  load_type-Good name (object members) s s' h =
      let (p, first, h1) = >>=-eq-ok (claim_type name s) _ h in
      let (_, _, h2) =
        >>=-eq-ok (load_description_text fuel array_of create (object members)) _ h1 in
      let (s2, second, h3) = >>=-eq-ok (load_parent p.0 (object members) p.1) _ h2 in
      let (properties, _, h4) = >>=-eq-ok (members_or (codes "properties") (object members)) _ h3 in
      let (s3, third, h5) = >>=-eq-ok (load_properties fuel array_of create properties s2) _ h4 in
      let (arguments, _, h6) = >>=-eq-ok (members_or (codes "arguments") (object members)) _ h5 in
      let (s4, fourth, last) =
        >>=-eq-ok (load_arguments fuel array_of create p.0 arguments s3) _ h6 in
      let claims = claim_type-Claims name s p first in
      let parts =
        Good-trans p.1 s2 s4
          (load_parent-Good fuel array_of create creates p.0 (object members) p.1 s2 second)
          (Good-trans s2 s3 s4
            (weaken (some p.0) s2 s3
              (load_properties-Good fuel array_of create creates properties s2 s3 third))
            (load_arguments-Good fuel array_of create creates p.0 arguments s3 s4 fourth)) in
      subst (Loaded name s) (ok-injective last) (close name s p s4 claims parts)
  load_type-Good name e s s' h = absurd (err-ne-ok h)

  load_types-Good :
      (ms : Members D) (s s' : Store D) → load_types fuel array_of create ms s ≡ ok s' → Good s s'
  unfolding load_types
  load_types-Good no_member s s' h = subst (Good s) (ok-injective h) (Good-refl s)
  load_types-Good (member name e rest) s s' h =
      let (u, first, more) = >>=-eq-ok (load_type fuel array_of create name e s) _ h in
      Good-trans s u s' (load_type-Good name e s u first).0 (load_types-Good rest u s' more)

  load_command_of-Good :
      (name : Text) (type : Option ℕ) (e : Json D) (s s' : Store D)
      → load_command_of fuel array_of create name type e s ≡ ok s'
      → Good s s'
  unfolding load_command_of
  load_command_of-Good name type e s s' h = elim (Bool-cases (count_member (codes "command") e)) [
    | inr missing ↦ absurd (err-ne-ok (rw (missing, load_command_of) at h))
    | inl there ↦
        let (c, _, h1) =
          >>=-eq-ok (at_member (codes "command") e) _ (rw (there, load_command_of) at h) in
        let (command, _, h2) = >>=-eq-ok (load c empty_line) _ h1 in
        let (task, _, h3) = >>=-eq-ok (new_task type command) _ h2 in
        subst (Good s) (ok-injective h3) (
          Good-beside s s.arguments s.argument_count (insert name task s.tasks) (omega arith)
            (λ k lt. refl))
  ]

  load_task-Good :
      (name : Text) (e : Json D) (s s' : Store D)
      → load_task fuel array_of create name e s ≡ ok s'
      → Good s s'
  unfolding load_task
  load_task-Good name e s s' h = elim (Bool-cases (count_member (codes "type") e)) [
    | inr untyped ↦ absurd (err-ne-ok (rw (untyped, load_task) at h))
    | inl typed ↦
        let (kind, _, h1) = >>=-eq-ok (at_member (codes "type") e) _ (rw (typed, load_task) at h) in
        let (type_name, _, h2) = >>=-eq-ok (get_text kind) _ h1 in
        let (type, _, h3) = >>=-eq-ok (get_type fuel array_of type_name s.names) _ h2 in
        load_command_of-Good name type e s s' h3
  ]

  load_tasks-Good :
      (ms : Members D) (s s' : Store D) → load_tasks fuel array_of create ms s ≡ ok s' → Good s s'
  unfolding load_tasks
  load_tasks-Good no_member s s' h = subst (Good s) (ok-injective h) (Good-refl s)
  load_tasks-Good (member name e rest) s s' h =
      let (u, first, more) = >>=-eq-ok (load_task fuel array_of create name e s) _ h in
      Good-trans s u s' (load_task-Good name e s u first) (load_tasks-Good rest u s' more)

  -- `load` keeps every type of a consistent register under its own name, with a number that is taken,
  -- when the creation of values does; so do the numbers and names of the types that are there stay,
  -- but for names with brackets at their ends, and a type that is defined stays so, with its parent and
  -- its arguments.
  pub load_register-Good :
      (j : Json D) (s s' : Store D) → load_register fuel array_of create j s ≡ ok s' → Good s s'
  unfolding load_register
  load_register-Good j s s' h =
      let (types, _, h1) = >>=-eq-ok (at_member (codes "types") j) _ h in
      let (entries, _, h2) = >>=-eq-ok (asserted fuel array_of create types) _ h1 in
      let (u, first, h3) = >>=-eq-ok (load_types fuel array_of create entries s) _ h2 in
      let (tasks, _, h4) = >>=-eq-ok (at_member (codes "tasks") j) _ h3 in
      let (others, _, h5) = >>=-eq-ok (asserted fuel array_of create tasks) _ h4 in
      Good-trans s u s' (load_types-Good entries s u first) (load_tasks-Good others u s' h5)

  -- What a type that could be loaded into one register does to one where it is defined.
  load_type-defined :
      (name : Text) (e : Json D) (s s1 s' : Store D)
      → load_type fuel array_of create name e s ≡ ok s1
      → IsDefined name s'
      → load_type fuel array_of create name e s' ≡ err runtime_error
  unfolding load_type
  load_type-defined name (object members) s s1 s' h (t, there, settled) =
      rw (claim_type-defined name s' t there settled) refl
  load_type-defined name e s s1 s' h d = absurd (err-ne-ok h)

  -- After a register with at least one type has been loaded, when the first type has no brackets at
  -- the end of its name, to load it again throws: the type was already defined.
  pub load_register_again :
      (j : Json D) (name : Text) (e : Json D) (rest : Members D) (s s' : Store D)
      → IsConsistent s
      → is_array_name name ≡ false
      → at_member (codes "types") j ≡ ok (object (member name e rest))
      → load_register fuel array_of create j s ≡ ok s'
      → load_register fuel array_of create j s' ≡ err runtime_error
  unfolding load_register load_types asserted
  load_register_again j name e rest s s' c plain listed h =
      let (u, first, h1) =
        >>=-eq-ok (load_types fuel array_of create (member name e rest) s) _ (rw listed at h) in
      let (v, one, more) = >>=-eq-ok (load_type fuel array_of create name e s) _ first in
      let (tasks, _, h2) = >>=-eq-ok (at_member (codes "tasks") j) _ h1 in
      let (others, _, h3) = >>=-eq-ok (asserted fuel array_of create tasks) _ h2 in
      let (good, defined) = load_type-Good name e s v one in
      let later =
        Good-IsDefined name v s' plain (good c).0
          (Good-trans v u s' (load_types-Good rest v u more) (load_tasks-Good others u s' h3))
          (defined plain c) in
      rw listed (rw (load_type-defined name e s v s' one later, load_types) refl)
