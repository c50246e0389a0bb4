-- ===== src/Value/Arguments.antt =====
-- `Argument` of src/xpm.cpp, and the store of types and arguments that values refer to.
use experimaestro.Prelude.{ℕ, Bool, true, false, Option, none, some, Text, if◌then◌else◌}
use experimaestro.Types.{Types, any_type}
use experimaestro.Value.{Value}

-- `value` is the default, or the constant when `is_constant` is set; a generator is its name.
pub record Argument (D : Type 0) : Type 0 where
  pub name : Text
  pub type : Option ℕ
  pub is_required : Bool
  pub is_ignored : Bool
  pub is_constant : Bool
  pub value : Option (Value D)
  pub generator : Option Text

module _ {D : Type 0} where
  -- `Argument::Argument(std::string const &)`
  unfoldable pub create : Text → Argument D
  create name = record {
    name = name;
    type = some any_type;
    is_required = true;
    is_ignored = false;
    is_constant = false;
    value = none;
    generator = none;
  }

  unfoldable pub set_required : Bool → Argument D → Argument D
  set_required required a = record a { is_required = required }

  unfoldable pub set_ignored : Bool → Argument D → Argument D
  set_ignored ignored a = record a { is_ignored = ignored }

  -- `constant(ptr<Value> const &)`
  unfoldable pub set_constant : Option (Value D) → Argument D → Argument D
  set_constant constant a = record a {
    is_constant = elim constant [ none ↦ false | some _ ↦ true ];
    value = constant;
  }

  unfoldable pub constant : Argument D → Option (Value D)
  constant a = if a.is_constant then a.value else none

  -- `defaultValue(ptr<Value> const &)`
  unfoldable pub set_default_value : Option (Value D) → Argument D → Argument D
  set_default_value default a = record a {
    value = default;
    is_required = false;
    is_constant = false;
  }

  unfoldable pub default_value : Argument D → Option (Value D)
  default_value a = if a.is_constant then none else a.value

  unfoldable pub set_generator : Option Text → Argument D → Argument D
  set_generator generator a = record a { generator = generator }

  unfoldable pub set_type : Option ℕ → Argument D → Argument D
  set_type type a = record a { type = type }

  -- `type()`, which is `AnyType` without a type.
  unfoldable pub type_of_argument : Argument D → ℕ
  type_of_argument a = elim a.type [ none ↦ any_type | some t ↦ t ]

-- The store: the types, the type of the arrays of a type (`ArrayType`), and the arguments.
pub record Schema (D : Type 0) : Type 0 where
  pub types : Types
  pub array_of : ℕ → ℕ
  pub arguments : ℕ → Argument D
