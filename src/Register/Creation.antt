-- ===== src/Register/Creation.antt =====
-- `Value::create` of src/xpm.cpp: a value from its JSON, with the register that it leaves, since types that
-- are not known become placeholders. The job that a DummyJob stands for is a parameter, and so is the
-- component of an array type.
pub mod Keeping
use experimaestro.Prelude.{
  ℕ, Bool, true, false, ◌||◌, Option, none, some, [], Text, codes, text_eq, lookup, leb, ◌==◌, ◌&&◌,
  if◌then◌else◌,
}
use experimaestro.Errors.{Result, ok, err, argument_error, json_error, ◌>>=◌}
use experimaestro.Scalar
use experimaestro.Scalar.{
  Numbers, Scalar, is_null, type_boolean, type_integer, type_real, type_string, type_path,
}
use experimaestro.Scalar.Casts.{Target, any, simple, other, cast}
use experimaestro.Scalar.Json.{
  Json, object, array, Members, no_member, member, Elements, no_element, element, from_json,
}
use experimaestro.Command.{get_text, get_member}
use experimaestro.Types.{any_type, boolean_type, integer_type, real_type, string_type, accepts, lca}
use experimaestro.Value
use experimaestro.Value.{MapInfo, Value, Values, no_value, next_value, no_entry}
use experimaestro.Value.Arguments.{Schema}
use experimaestro.Value.Maps.{type_of, type_of_scalar, set}
use experimaestro.Register.{get_type}
use experimaestro.Register.Store.{Store, type_or_placeholder}

-- The numbers of the simple types, which are those of scalars.
unfoldable pub is_simple : ℕ → Bool
is_simple t = leb 1 t && leb t 5

-- The `SimpleType` that `cast` asks for.
unfoldable pub target_of : ℕ → Target
unfolding is_simple
target_of t =
    if t == boolean_type
    then simple type_boolean
    else if t == integer_type
    then simple type_integer
    else if t == real_type
    then simple type_real
    else if t == string_type
    then simple type_string
    else if is_simple t
    then simple type_path
    else if t == any_type
    then any
    else other

-- `catch(...)` around the cast, which throws another exception.
unfoldable pub or_argument_error {ℓ} : {A : Type ℓ} → Result A → Result A
or_argument_error (ok a) = ok a
or_argument_error (err e) = err argument_error

module _ {D : Type 0} where
  -- The value before its members are read: a scalar, an array or a map.
  unfoldable pub new_value : (ℕ → Option ℕ) → ℕ → Bool → Value D
  unfolding is_simple
  new_value component_of t has_value =
      if is_simple t || has_value then Value.scalar 0 [] Scalar.unset else elim (component_of t) [
        | some c ↦ Value.array 0 (record { own = []; tag_context = [] }) c no_value
        | none ↦
            Value.map 0 (record { own = []; tag_context = [] })
              (record { type = t; job = none; task = none }) no_entry
      ]

  -- `p->asMap()->...`
  unfoldable pub on_map : (MapInfo → MapInfo) → Value D → Result (Value D)
  on_map f (Value.map flags x i entries) = ok (Value.map flags x (f i) entries)
  on_map f _ = err argument_error

  -- `if (jsonValue.count(KEY_TYPE) > 0)`
  unfoldable pub type_of_object : ℕ → (ℕ → ℕ) → Members D → Store D → Result (ℕ × Store D)
  unfolding get_member get_text get_type type_or_placeholder
  type_of_object fuel array_of members s = elim (get_member (codes "$type") members) [
    | none ↦ ok (any_type, s)
    | some kind ↦ (do
      name ← get_text kind
      found ← get_type fuel array_of name s.names
      ok (type_or_placeholder found name s))
  ]

  unfoldable pub has_member : Text → Members D → Bool
  unfolding get_member
  has_member key members = elim (get_member key members) [ none ↦ false | some _ ↦ true ]

  -- What the model of the store gives to the operations on values.
  unfoldable pub schema_of : (ℕ → ℕ) → Store D → Schema D
  schema_of array_of s = record { types = s.types; array_of = array_of; arguments = s.arguments }

-- `_array.push_back`
unfoldable pub append_value : {D : Type 0} → Values D → Value D → Values D
append_value no_value w = next_value w no_value
append_value (next_value u rest) w = next_value u (append_value rest w)

module _ (m : Numbers) (fuel : ℕ) (array_of : ℕ → ℕ) (component_of : ℕ → Option ℕ)
    (dummy_job : Json m.Double → Result ℕ) where
  -- The scalar of "$value": null, of a type that is accepted, or cast to the type.
  unfoldable pub fitting : ℕ → Scalar m.Double → Store m.Double → Result (Scalar m.Double)
  unfolding type_of_scalar target_of or_argument_error
  fitting t value s = if is_null value then ok value else (do
    accepted ← accepts fuel s.types t (type_of_scalar value)
    if accepted then ok value else or_argument_error (cast m value (target_of t)))

  -- `p->asScalar()->_value = value`
  unfoldable pub fill_scalar :
      ℕ → Json m.Double → Value m.Double → Store m.Double → Result (Value m.Double)
  unfolding fitting
  fill_scalar t e (Value.scalar flags tag content) s = do
    value ← from_json m e
    value' ← fitting t value s
    ok (Value.scalar flags tag value')
  fill_scalar t e _ s = err argument_error

  -- `getTask` of the text, which may find none.
  unfoldable pub fill_task :
      ℕ → Json m.Double → Value m.Double → Store m.Double → Result (Value m.Double)
  unfolding on_map get_text lookup
  fill_task t e p s = do
    p' ← on_map (λ i. record i { type = t }) p
    name ← get_text e
    on_map
        (λ i. record i { task = elim (lookup name s.tasks) [ none ↦ none | some _ ↦ some name ] })
        p'

  unfoldable pub fill_job : Json m.Double → Value m.Double → Result (Value m.Double)
  unfolding on_map
  fill_job e p = do
    p' ← on_map (λ i. i) p
    j ← dummy_job e
    on_map (λ i. record i { job = some j }) p'

  -- The members with a key of their own; the others are for `set`.
  unfoldable pub fill_restricted :
      ℕ → Text → Json m.Double → Value m.Double → Store m.Double → Result (Value m.Double)
  unfolding fill_scalar fill_task fill_job
  fill_restricted t key e p s =
      if text_eq key (codes "$value")
      then fill_scalar t e p s
      else if text_eq key (codes "$job")
      then fill_job e p
      else if text_eq key (codes "$task")
      then fill_task t e p s
      else ok p

  unfoldable pub is_own_key : Text → Bool
  is_own_key key =
      text_eq key (codes "$value")
      || (text_eq key (codes "$type")
          || (text_eq key (codes "$job") || text_eq key (codes "$task")))

  -- `p->asMap()->set(it.key(), ...)`, with the type set before.
  unfoldable pub fill_member :
      ℕ → Text → Value m.Double → Value m.Double → Store m.Double → Result (Value m.Double)
  unfolding on_map set schema_of
  fill_member t key v p s = do
    p' ← on_map (λ i. record i { type = t }) p
    r ← set m (schema_of array_of s) key v p'
    ok r.0

  -- `push_back`, which takes the first type, and then the lowest above both.
  unfoldable pub push_back :
      Value m.Double → ℕ → Values m.Double → Store m.Double → Result (ℕ × Values m.Double)
  unfolding type_of lca schema_of append_value
  push_back v component no_value s = ok (type_of (schema_of array_of s) v, next_value v no_value)
  push_back v component (next_value u rest) s = do
    c ← lca fuel s.types component (type_of (schema_of array_of s) v)
    ok (c, next_value u (append_value rest v))

  -- `create`, the loop over the members of an object, and that over the elements of an array.
  unfoldable mutual
    unfolding type_of_object new_value has_member fill_restricted fill_member push_back is_own_key

    pub create : Json m.Double → Store m.Double → Result (Value m.Double × Store m.Double)
    create (object members) s = do
      (t, s') ← type_of_object fuel array_of members s
      create_members t members (new_value component_of t (has_member (codes "$value") members)) s'
    create (array elements) s = create_elements elements any_type no_value s
    create e s = from_json m e >>= λ content. ok (Value.scalar 0 [] content, s)

    pub create_members :
        ℕ
        → Members m.Double
        → Value m.Double
        → Store m.Double
        → Result (Value m.Double × Store m.Double)
    create_members t no_member p s = ok (p, s)
    create_members t (member key e rest) p s =
        let nested = create e s in
        if is_own_key key
        then (fill_restricted t key e p s >>= λ p'. create_members t rest p' s)
        else (do
          _ ← on_map (λ i. i) p
          (v, s') ← nested
          p' ← fill_member t key v p s'
          create_members t rest p' s')

    pub create_elements :
        Elements m.Double
        → ℕ
        → Values m.Double
        → Store m.Double
        → Result (Value m.Double × Store m.Double)
    create_elements no_element component vs s =
        ok (Value.array 0 (record { own = []; tag_context = [] }) component vs, s)
    create_elements (element e rest) component vs s = do
      (v, s') ← create e s
      (c, vs') ← push_back v component vs s'
      create_elements rest c vs' s'
