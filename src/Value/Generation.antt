-- ===== src/Value/Generation.antt =====
-- `generate` of src/xpm.cpp. What a generator gives is a parameter: it depends on the workspace and on
-- the value at the bottom of the stack of the context.
pub mod Completing
pub mod Ends
use experimaestro.Prelude.{ℕ, Bool, true, false, Option, some, none, [], Text, if◌then◌else◌}
use experimaestro.Errors.{Result, ok, err, exception, argument_error, ◌>>=◌}
use experimaestro.Scalar
use experimaestro.Scalar.{Numbers, Scalar}
use experimaestro.Value.{
  sealed, default, generated, ignore, get_flag, Value, scalar, array, map, Values, no_value,
  next_value, Entries, no_entry, next_entry,
}
use experimaestro.Value.Arguments.{Argument, Schema, default_value, constant}
use experimaestro.Value.Maps.{has_key, mark, set}
use experimaestro.Value.Folding.{fold_types}

-- The map after `set`, whose result is not looked at.
unfoldable pub put_value :
    (m : Numbers)
    → Schema m.Double
    → Text
    → Value m.Double
    → Value m.Double
    → Result (Value m.Double)
unfolding set
put_value m schema key v target = set m schema key v target >>= λ r. ok r.0

unfoldable pub holds : {D : Type 0} → Text → Value D → Bool
unfolding has_key
holds key (map flags x i entries) = has_key key entries
holds key _ = false

module _ (m : Numbers) (schema : Schema m.Double) (produce : Text → Result (Value m.Double)) where
  -- The last two cases of the body of the loops: a constant, and nothing for what is not required.
  unfoldable pub generate_constant : Argument m.Double → Value m.Double → Result (Value m.Double)
  unfolding constant mark put_value
  generate_constant a target = elim (constant a) [
    | some c ↦ put_value m schema a.name (mark ignore false (mark default false c)) target
    | none ↦
        if a.is_required
        then ok target
        else put_value m schema a.name (mark default true (scalar 0 [] Scalar.none)) target
  ]

  unfoldable pub generate_default : Argument m.Double → Value m.Double → Result (Value m.Double)
  unfolding default_value mark put_value generate_constant
  generate_default a target = elim (default_value a) [
    | some d ↦ put_value m schema a.name (mark ignore a.is_ignored (mark default true d)) target
    | none ↦ generate_constant a target
  ]

  -- The body of the loops of `MapValue::_generate`.
  unfoldable pub generate_argument : ℕ → Value m.Double → Result (Value m.Double)
  unfolding holds generate_default put_value
  generate_argument k target =
      let a : Argument m.Double = schema.arguments k in
      if holds a.name target then ok target else elim a.generator [
        | some g ↦ (produce g >>= λ v. put_value m schema a.name v target)
        | none ↦ generate_default a target
      ]

  -- `MapValue::_generate`
  unfoldable pub generate_own : ℕ → ℕ → Value m.Double → Result (Value m.Double)
  unfolding generate_argument fold_types
  generate_own fuel type target = fold_types generate_argument fuel schema.types (some type) target

  -- `Value::generate`: nothing when it is done, an error when the value is sealed, else the children
  -- and then the value itself.
  unfoldable mutual
    pub generate : ℕ → Value m.Double → Result (Value m.Double)
    generate fuel (scalar flags tag content) =
        if get_flag generated flags
        then ok (scalar flags tag content)
        else if get_flag sealed flags
        then err exception
        else ok (mark generated true (scalar flags tag content))
    generate fuel (array flags x c elements) =
        let children = generate_elements fuel elements in
        if get_flag generated flags
        then ok (array flags x c elements)
        else if get_flag sealed flags
        then err exception
        else (children >>= λ vs. ok (mark generated true (array flags x c vs)))
    generate fuel (map flags x i entries) =
        let children = generate_entries fuel entries in
        if get_flag generated flags
        then ok (map flags x i entries)
        else if get_flag sealed flags
        then err exception
        else (do
          es ← children
          v ← generate_own fuel i.type (map flags x i es)
          ok (mark generated true v))

    pub generate_elements : ℕ → Values m.Double → Result (Values m.Double)
    generate_elements fuel no_value = ok no_value
    generate_elements fuel (next_value v rest) =
        let behind = generate_elements fuel rest in
        generate fuel v >>= λ w. behind >>= λ ws. ok (next_value w ws)

    pub generate_entries : ℕ → Entries m.Double → Result (Entries m.Double)
    generate_entries fuel no_entry = ok no_entry
    generate_entries fuel (next_entry key v rest) =
        let behind = generate_entries fuel rest in
        generate fuel v >>= λ w. behind >>= λ ws. ok (next_entry key w ws)
