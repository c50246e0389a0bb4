-- ===== src/Value/Digest/Ignoring.antt =====
-- What the identifier of a value does not depend on.
use experimaestro.Prelude.{
  ◌≡◌, refl, ap, true, some, Text, ◌++◌, append_assoc, text_eq, text_lt, Bool-cases, inl, inr, ℕ,
}
use experimaestro.Value.{Complex, MapInfo, Value, map, Entries, no_entry, next_entry}
use experimaestro.Value.Arguments.{Schema}
use experimaestro.Value.Maps.{find, put}
use experimaestro.Value.Digest.{
  Hash, can_ignore, info_bytes, update_digest, digest_entries, digest, hex, unique_identifier,
}

module _ {D : Type 0} (schema : Schema D) (h : Hash D) where
  digest_entries-put :
      (key : Text) (v : Value D) (entries : Entries D)
      → can_ignore schema v ≡ true
      → ((w : Value D) → find key entries ≡ some w → can_ignore schema w ≡ true)
      → digest_entries schema h (put key v entries) ≡ digest_entries schema h entries
  unfolding digest_entries put find
  digest_entries-put key v no_entry i old = rw (i, digest_entries)
  digest_entries-put key v (next_entry k w rest) i old = elim (Bool-cases (text_eq k key)) [
    | inl same ↦ rw (same, i, old w (rw same refl), digest_entries) refl
    | inr apart ↦ elim (Bool-cases (text_lt key k)) [
      | inl before ↦ rw (apart, before, i, digest_entries) refl
      | inr behind ↦
          let rest_same = digest_entries-put key v rest i (λ u e. old u (rw apart e)) in
          rw (apart, behind, digest_entries, rest_same) refl
    ]
  ]

  -- When a value that can be ignored is put under a key of a map that had no value there, or one that can
  -- be ignored too, the identifier of the map stays what it was. Its flags and its tags play no part.
  pub unique_identifier-put :
      (key : Text) (v : Value D) (flags flags' : ℕ) (x x' : Complex D) (i : MapInfo)
      (entries : Entries D)
      → can_ignore schema v ≡ true
      → ((w : Value D) → find key entries ≡ some w → can_ignore schema w ≡ true)
      → unique_identifier schema h (map flags x i (put key v entries))
        ≡ unique_identifier schema h (map flags' x' i entries)
  unfolding unique_identifier digest update_digest
  unique_identifier-put key v flags flags' x x' i entries ignored old =
      ap (λ t. hex (h.sha1 (info_bytes schema h i ++ t)))
        (digest_entries-put key v entries ignored old)

  -- Nothing separates the name of the type of a map from that of its task: when one type's name is
  -- another's with some text behind it, a map of the first with a task, and a map of the second with the
  -- task that has this text before its name, have the same identifier if they have the same entries.
  unique_identifier-info :
      (flags : ℕ) (x : Complex D) (i j : MapInfo) (text task : Text) (entries : Entries D)
      → (schema.types i.type).name ≡ (schema.types j.type).name ++ text
      → i.task ≡ some task
      → j.task ≡ some (text ++ task)
      → unique_identifier schema h (map flags x i entries)
        ≡ unique_identifier schema h (map flags x j entries)
  unfolding unique_identifier digest update_digest info_bytes
  unique_identifier-info flags x i j text task entries longer one two =
      ap (λ t. hex (h.sha1 (t ++ digest_entries schema h entries)))
        (rw (longer, one, two) (append_assoc (schema.types j.type).name text task))
