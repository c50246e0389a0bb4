-- ===== src/Value/Validation.antt =====
-- `validate` of src/xpm.cpp, on fuel: one unit for each level of the values, since the values of a map
-- are found by the names of its arguments.
pub mod Seen
pub mod Provided
pub mod Ends
pub mod Answers
use experimaestro.Prelude.{
  ℕ, zero, suc, Bool, true, false, Option, none, some, [], ◌∷◌, Text, codes, ◌++◌, if◌then◌else◌,
}
use experimaestro.Errors.{Result, ok, err, parameter_error, out_of_fuel, rethrow, ◌>>=◌}
use experimaestro.Scalar.{Numbers, is_null}
use experimaestro.Types.{Types, accepts}
use experimaestro.Value.{
  validated, get_flag, flags_of, Value, scalar, array, map, Values, no_value, next_value, Entries,
}
use experimaestro.Value.Arguments.{Argument, Schema, type_of_argument}
use experimaestro.Value.Maps.{find, put, mark, type_of}
use experimaestro.Value.Folding.{fold_types}

-- `value->isScalar() && value->asScalar()->null()`
unfoldable pub is_nothing : {D : Type 0} → Value D → Bool
is_nothing (scalar flags tag content) = is_null content
is_nothing _ = false

-- `Type::toString`
unfoldable pub type_text : Types → ℕ → Text
type_text types t = codes "type(" ++ ((types t).name ++ codes ")")

module _ (m : Numbers) (schema : Schema m.Double) where
  unfoldable pub not_given : ℕ → Argument m.Double → Entries m.Double → Result (Entries m.Double)
  unfolding type_text
  not_given type a entries =
      if a.is_required
      then err (
          parameter_error
            (codes "Argument "
              ++ (a.name
                  ++ (codes " was required but not given for " ++ type_text schema.types type)))
            [])
      else ok entries

  -- What a map does with the value of an argument: its type, then its own validation.
  unfoldable pub check_value :
      ℕ
      → (Value m.Double → Result (Value m.Double))
      → Argument m.Double
      → Value m.Double
      → Entries m.Double
      → Result (Entries m.Double)
  unfolding type_of_argument type_of type_text put
  check_value fuel inner a v entries = do
    accepted ← accepts fuel schema.types (type_of_argument a) (type_of schema v)
    if accepted
        then (rethrow a.name (inner v) >>= λ w. ok (put a.name w entries))
        else err (
            parameter_error
              (codes "type is "
                ++ (type_text schema.types (type_of schema v)
                    ++ (codes ", but requested type was "
                        ++ type_text schema.types (type_of_argument a))))
              (a.name ∷ []))

  -- The body of the loops of `MapValue::_validate`.
  unfoldable pub validate_argument :
      ℕ
      → (Value m.Double → Result (Value m.Double))
      → ℕ
      → ℕ
      → Entries m.Double
      → Result (Entries m.Double)
  unfolding not_given check_value find is_nothing
  validate_argument fuel inner type k entries =
      let a : Argument m.Double = schema.arguments k in
      elim (find a.name entries) [
        | none ↦ not_given type a entries
        | some v ↦
            if is_nothing v then not_given type a entries else check_value fuel inner a v entries
      ]

  -- `ArrayValue::_validate`, from an index on.
  unfoldable pub validate_elements :
      (Value m.Double → Result (Value m.Double)) → ℕ → Values m.Double → Result (Values m.Double)
  validate_elements inner i no_value = ok no_value
  validate_elements inner i (next_value v rest) = do
    w ← rethrow (codes "[" ++ (m.long_text i ++ codes "]")) (inner v)
    ws ← validate_elements inner (suc i) rest
    ok (next_value w ws)

  -- `_validate` of the three classes.
  unfoldable pub validate_own :
      ℕ → (Value m.Double → Result (Value m.Double)) → Value m.Double → Result (Value m.Double)
  unfolding validate_elements validate_argument fold_types
  validate_own fuel inner (scalar flags tag content) = ok (scalar flags tag content)
  validate_own fuel inner (array flags x c elements) =
      validate_elements inner 0 elements >>= λ vs. ok (array flags x c vs)
  validate_own fuel inner (map flags x i entries) =
      fold_types (validate_argument fuel inner i.type) fuel schema.types (some i.type) entries
      >>= λ es. ok (map flags x i es)

  -- `Value::validate`; the first number bounds the levels, the second the parents of a type.
  unfoldable pub validate : ℕ → ℕ → Value m.Double → Result (Value m.Double)
  unfolding validate_own mark flags_of
  validate zero fuel v = err out_of_fuel
  validate (suc levels) fuel v =
      let done : Value m.Double → Result (Value m.Double) = λ w. ok (mark validated true w) in
      let own : Result (Value m.Double) = validate_own fuel (validate levels fuel) v >>= done in
      if get_flag validated (flags_of v) then ok v else own
