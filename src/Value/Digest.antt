-- ===== src/Value/Digest.antt =====
-- `canIgnore`, `updateDigest`, `digest` and `uniqueIdentifier` of src/xpm.cpp, and `Scalar::updateDigest`
-- of src/scalar.cpp. A digest is updated by bytes, which follow each other here; what SHA-1 makes of
-- them, and the bytes of an object in memory, are parameters.
pub mod Ignoring
pub mod Identifiers
use experimaestro.Prelude.{
  ℕ, suc, ◌+◌, ◌/◌, ◌%◌, Bool, true, false, ◌||◌, Option, none, some, List, [], ◌∷◌, ◌++◌, Text,
  ltb, if◌then◌else◌,
}
use experimaestro.Scalar
use experimaestro.Scalar.{Scalar, unset, none, boolean, integer, real, string, path}
use experimaestro.Value.{
  ignore, default, get_flag, flags_of, MapInfo, Value, scalar, array, map, Values, no_value,
  next_value, Entries, no_entry, next_entry,
}
use experimaestro.Value.Arguments.{Schema}
use experimaestro.Value.Maps.{type_of}

-- SHA-1, the bytes of a number in an object of a size, and those of a double.
pub record Hash (D : Type 0) : Type 0 where
  pub sha1 : Text → Text
  pub bytes : ℕ → ℕ → Text
  pub double_bytes : D → Text

-- `canIgnore`
unfoldable pub can_ignore : {D : Type 0} → Schema D → Value D → Bool
unfolding get_flag flags_of type_of
can_ignore schema v =
    get_flag ignore (flags_of v)
    || ((schema.types (type_of schema v)).can_ignore || get_flag default (flags_of v))

-- `Scalar::updateDigest`: the tag, in the order of `ScalarType`, and the value.
unfoldable pub scalar_bytes : {D : Type 0} → Hash D → Scalar D → Text
scalar_bytes h unset = h.bytes 1 0
scalar_bytes h Scalar.none = h.bytes 1 1
scalar_bytes h (boolean true) = h.bytes 1 6 ++ h.bytes 1 1
scalar_bytes h (boolean false) = h.bytes 1 6 ++ h.bytes 1 0
scalar_bytes h (integer n) = h.bytes 1 2 ++ h.bytes 8 n
scalar_bytes h (real x) = h.bytes 1 3 ++ h.double_bytes x
scalar_bytes h (string s) = h.bytes 1 4 ++ s
scalar_bytes h (path s) = h.bytes 1 5 ++ s

unfoldable pub size : {D : Type 0} → Values D → ℕ
size no_value = 0
size (next_value v rest) = suc (size rest)

module _ {D : Type 0} (schema : Schema D) (h : Hash D) where
  -- What `MapValue::updateDigest` starts with: the name of the type and the task.
  unfoldable pub info_bytes : MapInfo → Text
  info_bytes i = (schema.types i.type).name ++ elim i.task [ some task ↦ task | none ↦ h.bytes 4 0 ]

  -- The bytes that `updateDigest` adds.
  unfoldable mutual
    unfolding scalar_bytes info_bytes size can_ignore

    pub update_digest : Value D → Text
    update_digest (scalar flags tag content) = scalar_bytes h content
    update_digest (array flags x c elements) =
        h.bytes 1 1 ++ (h.bytes 8 (size elements) ++ digest_elements elements)
    update_digest (map flags x i entries) = info_bytes i ++ digest_entries entries

    pub digest_elements : Values D → Text
    digest_elements no_value = []
    digest_elements (next_value v rest) = update_digest v ++ digest_elements rest

    pub digest_entries : Entries D → Text
    digest_entries no_entry = []
    digest_entries (next_entry key v rest) =
        let own = update_digest v in
        let behind = digest_entries rest in
        if can_ignore schema v then behind else key ++ (h.sha1 own ++ behind)

  -- `digest`
  unfoldable pub digest : Value D → Text
  unfolding update_digest
  digest v = h.sha1 (update_digest v)

-- `%02x` of a byte.
unfoldable pub hex_digit : ℕ → ℕ
hex_digit n = if ltb n 10 then 48 + n else 87 + n

unfoldable pub hex : Text → Text
unfolding hex_digit
hex [] = []
hex (b ∷ bytes) = hex_digit (b / 16) ∷ hex_digit (b % 16) ∷ hex bytes

-- `uniqueIdentifier`
unfoldable pub unique_identifier : {D : Type 0} → Schema D → Hash D → Value D → Text
unfolding digest hex
unique_identifier schema h v = hex (digest schema h v)
