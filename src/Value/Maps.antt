-- ===== src/Value/Maps.antt =====
-- `MapValue` of src/xpm.cpp as a map: `hasKey`, `get`, `set`, with `equals` and the types of values.
-- A copy of a value has the same flags and contents, so it is the value itself here.
pub mod Setting
pub mod Levels
use experimaestro.Prelude.{
  ℕ, Bool, true, false, ◌||◌, Option, none, some, Text, codes, text_eq, text_lt, lookup,
  if◌then◌else◌,
}
use experimaestro.Errors.{
  Result, ok, err, sealed_error, argument_error, out_of_range, not_implemented_error, ◌>>=◌,
}
use experimaestro.Scalar
use experimaestro.Scalar.{Numbers, Scalar, unset, none, boolean, integer, real, string, path}
use experimaestro.Types.{any_type, boolean_type, integer_type, real_type, string_type, path_type}
use experimaestro.Value.{
  Flag, sealed, default, ignore, get_flag, set_flag, Value, scalar, array, map, Values, no_value,
  next_value, Entries, no_entry, next_entry,
}
use experimaestro.Value.Arguments.{Argument, Schema, default_value}

-- `Scalar::type`
unfoldable pub type_of_scalar : {D : Type 0} → Scalar D → ℕ
type_of_scalar unset = any_type
type_of_scalar Scalar.none = any_type
type_of_scalar (boolean _) = boolean_type
type_of_scalar (integer _) = integer_type
type_of_scalar (real _) = real_type
type_of_scalar (string _) = string_type
type_of_scalar (path _) = path_type

module _ {D : Type 0} where
  -- `type()`: that of an array is made from `_ctype`.
  unfoldable pub type_of : Schema D → Value D → ℕ
  unfolding type_of_scalar
  type_of schema (scalar flags tag content) = type_of_scalar content
  type_of schema (array flags x component elements) = schema.array_of component
  type_of schema (map flags x i entries) = i.type

  -- `value->set(flag, b)`
  unfoldable pub mark : Flag → Bool → Value D → Value D
  unfolding set_flag
  mark f b (scalar flags tag content) = scalar (set_flag f b flags) tag content
  mark f b (array flags x c elements) = array (set_flag f b flags) x c elements
  mark f b (map flags x i entries) = map (set_flag f b flags) x i entries

  -- `_map.find`
  unfoldable pub find : Text → Entries D → Option (Value D)
  find key no_entry = none
  find key (next_entry k v rest) =
      let found = find key rest in if text_eq k key then some v else found

  unfoldable pub has_key : Text → Entries D → Bool
  unfolding find
  has_key key entries = elim (find key entries) [ none ↦ false | some _ ↦ true ]

  unfoldable pub get : Text → Entries D → Result (Value D)
  unfolding find
  get key entries = elim (find key entries) [ none ↦ err out_of_range | some v ↦ ok v ]

  -- `_map[key] = value`, in the order of the keys.
  unfoldable pub put : Text → Value D → Entries D → Entries D
  put key v no_entry = next_entry key v no_entry
  put key v (next_entry k w rest) =
      let behind = put key v rest in
      if text_eq k key
      then next_entry key v rest
      else if text_lt key k
      then next_entry key v (next_entry k w rest)
      else next_entry k w behind

-- `RESTRICTED_KEYS`
unfoldable pub is_restricted : Text → Bool
is_restricted key =
    text_eq key (codes "$type")
    || (text_eq key (codes "$task") || (text_eq key (codes "$value") || text_eq key (codes "$job")))

unfoldable pub same_size : {D : Type 0} → Values D → Values D → Bool
same_size no_value no_value = true
same_size (next_value _ a) (next_value _ b) = same_size a b
same_size _ _ = false

-- `equals` of the three classes.
module _ (m : Numbers) where
  unfoldable mutual
    unfolding same_size

    pub equals : Value m.Double → Value m.Double → Result Bool
    equals (scalar _ _ a) (scalar _ _ b) = Scalar.equals m a b
    equals (scalar _ _ a) _ = ok false
    equals (array _ _ _ a) (array _ _ _ b) =
        let within = equal_elements a b in if same_size a b then within else ok false
    equals (array _ _ _ a) _ = ok false
    equals (map _ _ _ _) _ = err not_implemented_error

    pub equal_elements : Values m.Double → Values m.Double → Result Bool
    equal_elements (next_value v a) (next_value w b) =
        let rest = equal_elements a b in equals v w >>= λ e. if e then rest else ok false
    equal_elements _ _ = ok true

module _ (m : Numbers) (schema : Schema m.Double) where
  -- The flags that `set` gives to a value by the argument of its key.
  unfoldable pub marked : Argument m.Double → Value m.Double → Result (Value m.Double)
  unfolding default_value mark
  marked a v = do
    is_default ← elim (default_value a) [ none ↦ ok false | some d ↦ equals m d v ]
    let v' = if is_default then mark default true v else v
    ok (if a.is_ignored then mark ignore true v' else v')

  unfoldable pub marked_for : Text → ℕ → Value m.Double → Result (Value m.Double)
  unfolding marked
  marked_for key type v = elim (lookup key (schema.types type).arguments) [
    | none ↦ ok v
    | some a ↦ marked (schema.arguments a) v
  ]

  -- `MapValue::set`: the map, and the value that the method returns. The iterator of `find` still
  -- stands at the key, so that it shows the new value. A value that is no map is refused by `asMap`.
  unfoldable pub set :
      Text → Value m.Double → Value m.Double → Result (Value m.Double × Option (Value m.Double))
  unfolding is_restricted marked_for has_key put
  set key v (map flags x i entries) =
      if get_flag sealed flags
      then err sealed_error
      else if is_restricted key
      then err argument_error
      else (do
        v' ← marked_for key i.type v
        ok (map flags x i (put key v' entries), (if has_key key entries then some v' else none)))
  set key v _ = err argument_error
