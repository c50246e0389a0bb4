-- ===== src/Value.antt =====
-- The values of src/xpm.cpp and include/public/xpm/xpm.hpp as a tree: their flags, `seal`, `tags`. A
-- value is taken to be held in one place only, as `MapValue::set` arranges by a copy.
pub mod Flags
pub mod Sealing
pub mod Tags
pub mod Arguments
pub mod Maps
pub mod Folding
pub mod Generation
pub mod Validation
pub mod Digest
pub mod Dependencies
pub mod Configuration
pub mod Locating
use experimaestro.Prelude.{
  ℕ, ◌+◌, ◌-◌, ◌/◌, ◌%◌, Bool, true, false, Option, none, some, List, [], ◌∷◌, ◌++◌, Text, codes,
  lookup, insert, ◌==◌, if◌then◌else◌,
}
use experimaestro.Errors.{Result, ok, err, assertion_error, ◌>>=◌}
use experimaestro.Scalar.{Scalar}

pub data Flag : Type 0 where
  sealed default validated generated ignore : Flag

-- The bit of a flag.
unfoldable pub bit : Flag → ℕ
bit sealed = 1
bit default = 2
bit validated = 4
bit generated = 8
bit ignore = 16

-- `flag & _flags`, for a flag of one bit.
unfoldable pub get_flag : Flag → ℕ → Bool
unfolding bit
get_flag f flags = (flags / bit f) % 2 == 1

-- `_flags |= flag` and `_flags &= ~flag`.
unfoldable pub set_flag : Flag → Bool → ℕ → ℕ
unfolding bit get_flag
set_flag f true flags = if get_flag f flags then flags else flags + bit f
set_flag f false flags = if get_flag f flags then flags - bit f else flags

-- What arrays and maps share: the tags of `ComplexValue`.
pub record Complex (D : Type 0) : Type 0 where
  pub own : List (Text × Scalar D)
  pub tag_context : Text

-- The attributes of a `MapValue`, but its object: a job is its number, a task its identifier.
pub record MapInfo : Type 0 where
  pub type : ℕ
  pub job : Option ℕ
  pub task : Option Text

-- `ScalarValue`, `ArrayValue` and `MapValue`; `component` is `_ctype`.
mutual
  pub data Value (D : Type 0) : Type 0 where
    scalar : (flags : ℕ) (tag : Text) (content : Scalar D) → Value D
    array : (flags : ℕ) (complex : Complex D) (component : ℕ) (elements : Values D) → Value D
    map : (flags : ℕ) (complex : Complex D) (info : MapInfo) (entries : Entries D) → Value D

  pub data Values (D : Type 0) : Type 0 where
    no_value : Values D
    next_value : (v : Value D) (rest : Values D) → Values D

  pub data Entries (D : Type 0) : Type 0 where
    no_entry : Entries D
    next_entry : (key : Text) (v : Value D) (rest : Entries D) → Entries D

unfoldable pub flags_of : {D : Type 0} → Value D → ℕ
flags_of (scalar flags _ _) = flags
flags_of (array flags _ _ _) = flags
flags_of (map flags _ _ _) = flags

unfoldable pub is_sealed : {D : Type 0} → Value D → Bool
unfolding get_flag flags_of
is_sealed v = get_flag sealed (flags_of v)

-- `seal`: nothing when the value is sealed, else its children and then itself.
unfoldable mutual
  pub seal : {D : Type 0} → Value D → Value D
  seal (scalar flags tag content) =
      if get_flag sealed flags
      then scalar flags tag content
      else scalar (set_flag sealed true flags) tag content
  seal (array flags x c elements) =
      let children = seal_elements elements in
      if get_flag sealed flags
      then array flags x c elements
      else array (set_flag sealed true flags) x c children
  seal (map flags x i entries) =
      let children = seal_entries entries in
      if get_flag sealed flags
      then map flags x i entries
      else map (set_flag sealed true flags) x i children

  pub seal_elements : {D : Type 0} → Values D → Values D
  seal_elements no_value = no_value
  seal_elements (next_value v rest) = next_value (seal v) (seal_elements rest)

  pub seal_entries : {D : Type 0} → Entries D → Entries D
  seal_entries no_entry = no_entry
  seal_entries (next_entry key v rest) = next_entry key (seal v) (seal_entries rest)

-- `tags.insert`, which refuses a key that is there.
unfoldable pub insert_tag :
    {D : Type 0} → Text → Scalar D → List (Text × Scalar D) → Result (List (Text × Scalar D))
insert_tag name s tags = elim (lookup name tags) [
  | none ↦ ok (tags ++ (name, s) ∷ [])
  | some _ ↦ err assertion_error
]

-- The loop over the own tags of a complex value.
unfoldable pub insert_own :
    {D : Type 0}
    → Text
    → List (Text × Scalar D)
    → List (Text × Scalar D)
    → Result (List (Text × Scalar D))
insert_own context [] tags = ok tags
insert_own context ((name, s) ∷ own) tags =
    insert_tag (context ++ name) s tags >>= insert_own context own

unfoldable pub inner_context : Text → Text → Text
inner_context context [] = context
inner_context context (c ∷ tag_context) = context ++ ((c ∷ tag_context) ++ codes "/")

-- `retrieveTags`
unfoldable mutual
  pub retrieve_tags :
      {D : Type 0} → Text → Value D → List (Text × Scalar D) → Result (List (Text × Scalar D))
  retrieve_tags context (scalar flags [] content) tags = ok tags
  retrieve_tags context (scalar flags (c ∷ tag) content) tags =
      insert_tag (context ++ (c ∷ tag)) content tags
  retrieve_tags context (array flags x c elements) tags =
      let inner = inner_context context x.tag_context in
      retrieve_elements inner elements tags >>= insert_own inner x.own
  retrieve_tags context (map flags x i entries) tags =
      let inner = inner_context context x.tag_context in
      retrieve_entries inner entries tags >>= insert_own inner x.own

  pub retrieve_elements :
      {D : Type 0} → Text → Values D → List (Text × Scalar D) → Result (List (Text × Scalar D))
  retrieve_elements context no_value tags = ok tags
  retrieve_elements context (next_value v rest) tags =
      retrieve_tags context v tags >>= retrieve_elements context rest

  pub retrieve_entries :
      {D : Type 0} → Text → Entries D → List (Text × Scalar D) → Result (List (Text × Scalar D))
  retrieve_entries context no_entry tags = ok tags
  retrieve_entries context (next_entry key v rest) tags =
      retrieve_tags context v tags >>= retrieve_entries context rest

-- `tags()`
unfoldable pub tags_of : {D : Type 0} → Value D → Result (List (Text × Scalar D))
unfolding retrieve_tags
tags_of v = retrieve_tags [] v []
