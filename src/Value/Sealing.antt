-- ===== src/Value/Sealing.antt =====
-- What `seal` leaves of a tree of values.
use experimaestro.Prelude.{ℕ, ◌≡◌, true, Bool-cases, inl, inr}
use experimaestro.Value.{
  sealed, get_flag, set_flag, Value, scalar, array, map, Values, no_value, next_value, Entries,
  no_entry, next_entry, is_sealed, flags_of, seal, seal_elements, seal_entries,
}
use experimaestro.Value.Flags.{get_flag-set_flag}

-- The value and all that it holds are sealed.
unfoldable mutual
  pub IsAllSealed : {D : Type 0} → Value D → Type 0
  IsAllSealed (scalar flags tag content) = get_flag sealed flags ≡ true
  IsAllSealed (array flags own c elements) = (get_flag sealed flags ≡ true) × AreAllSealed elements
  IsAllSealed (map flags own c entries) = (get_flag sealed flags ≡ true) × AreEntriesSealed entries

  pub AreAllSealed : {D : Type 0} → Values D → Type 0
  AreAllSealed no_value = Unit
  AreAllSealed (next_value v rest) = IsAllSealed v × AreAllSealed rest

  pub AreEntriesSealed : {D : Type 0} → Entries D → Type 0
  AreEntriesSealed no_entry = Unit
  AreEntriesSealed (next_entry key v rest) = IsAllSealed v × AreEntriesSealed rest

-- What a sealed value holds is sealed, here and below.
unfoldable mutual
  unfolding IsAllSealed

  pub IsClosed : {D : Type 0} → Value D → Type 0
  IsClosed (scalar flags tag content) = Unit
  IsClosed (array flags own c elements) =
      (get_flag sealed flags ≡ true → AreAllSealed elements) × AreClosed elements
  IsClosed (map flags own c entries) =
      (get_flag sealed flags ≡ true → AreEntriesSealed entries) × AreEntriesClosed entries

  pub AreClosed : {D : Type 0} → Values D → Type 0
  AreClosed no_value = Unit
  AreClosed (next_value v rest) = IsClosed v × AreClosed rest

  pub AreEntriesClosed : {D : Type 0} → Entries D → Type 0
  AreEntriesClosed no_entry = Unit
  AreEntriesClosed (next_entry key v rest) = IsClosed v × AreEntriesClosed rest

set_sealed : (flags : ℕ) → get_flag sealed (set_flag sealed true flags) ≡ true
set_sealed flags = (get_flag-set_flag sealed sealed true flags).0

mutual
  unfolding seal IsAllSealed IsClosed

  seal_all : {D : Type 0} (v : Value D) → IsClosed v → IsAllSealed (seal v)
  seal_all (scalar flags tag content) h = elim (Bool-cases (get_flag sealed flags)) [
    | inl whole ↦ rw whole whole
    | inr loose ↦ rw loose (set_sealed flags)
  ]
  seal_all (array flags own c elements) h = elim (Bool-cases (get_flag sealed flags)) [
    | inl whole ↦ rw whole (whole, h.0 whole)
    | inr loose ↦ rw loose (set_sealed flags, seal_elements_all elements h.1)
  ]
  seal_all (map flags own c entries) h = elim (Bool-cases (get_flag sealed flags)) [
    | inl whole ↦ rw whole (whole, h.0 whole)
    | inr loose ↦ rw loose (set_sealed flags, seal_entries_all entries h.1)
  ]

  seal_elements_all : {D : Type 0} (vs : Values D) → AreClosed vs → AreAllSealed (seal_elements vs)
  seal_elements_all no_value h = tt
  seal_elements_all (next_value v rest) h = (seal_all v h.0, seal_elements_all rest h.1)

  seal_entries_all :
      {D : Type 0} (es : Entries D) → AreEntriesClosed es → AreEntriesSealed (seal_entries es)
  seal_entries_all no_entry h = tt
  seal_entries_all (next_entry key v rest) h = (seal_all v h.0, seal_entries_all rest h.1)

seal_again : {D : Type 0} (v : Value D) → is_sealed v ≡ true → seal v ≡ v
unfolding seal is_sealed flags_of
seal_again (scalar flags tag content) h = rw h
seal_again (array flags own c elements) h = rw h
seal_again (map flags own c entries) h = rw h

-- In a tree where what a sealed value holds is sealed, `seal` seals the value and all that it holds;
-- a second `seal` changes nothing.
pub seal-IsAllSealed :
    {D : Type 0} (v : Value D) → IsClosed v → IsAllSealed (seal v) × (seal (seal v) ≡ seal v)
unfolding IsAllSealed is_sealed flags_of
seal-IsAllSealed v h = (seal_all v h, seal_again (seal v) (all_is_sealed (seal v) (seal_all v h)))
  where
    all_is_sealed : {D : Type 0} (v : Value D) → IsAllSealed v → is_sealed v ≡ true
    all_is_sealed (scalar flags tag content) h = h
    all_is_sealed (array flags own c elements) h = h.0
    all_is_sealed (map flags own c entries) h = h.0
