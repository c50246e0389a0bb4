-- ===== src/Value/Maps/Levels.antt =====
-- How many levels of arrays and maps a value has.
use mathlib.Core.Option.{some-injective}
use experimaestro.Prelude.{
  ℕ, zero, suc, ◌≡◌, inl, inr, some, Bool, Text, text_eq, text_lt, Bool-cases, arith, subst,
}
use experimaestro.Value.{
  Flag, Value, scalar, array, map, Values, no_value, next_value, Entries, no_entry, next_entry,
}
use experimaestro.Value.Maps.{find, put, mark}

module _ {D : Type 0} where
  -- A value of at most `n` levels; a scalar has one.
  unfoldable mutual
    pub IsShallow : ℕ → Value D → Type 0
    IsShallow zero v = ⊥
    IsShallow (suc n) (scalar flags tag content) = Unit {0}
    IsShallow (suc n) (array flags x c elements) = ElementsShallow n elements
    IsShallow (suc n) (map flags x i entries) = EntriesShallow n entries

    pub ElementsShallow : ℕ → Values D → Type 0
    ElementsShallow n no_value = Unit {0}
    ElementsShallow n (next_value v rest) = IsShallow n v × ElementsShallow n rest

    pub EntriesShallow : ℕ → Entries D → Type 0
    EntriesShallow n no_entry = Unit {0}
    EntriesShallow n (next_entry key v rest) = IsShallow n v × EntriesShallow n rest

  pub find-Shallow :
      (n : ℕ) (key : Text) (es : Entries D) (v : Value D)
      → EntriesShallow n es
      → find key es ≡ some v
      → IsShallow n v
  unfolding find EntriesShallow
  find-Shallow n key no_entry v s e = ground arith
  find-Shallow n key (next_entry k w rest) v s e = elim (Bool-cases (text_eq k key)) [
    | inl same ↦ subst (IsShallow n) (some-injective _ _ (rw (same, find) at e)) s.0
    | inr apart ↦ find-Shallow n key rest v s.1 (rw (apart, find) at e)
  ]

  pub put-Shallow :
      (n : ℕ) (key : Text) (w : Value D) (es : Entries D)
      → IsShallow n w
      → EntriesShallow n es
      → EntriesShallow n (put key w es)
  unfolding put EntriesShallow
  put-Shallow n key w no_entry h s = (h, tt)
  put-Shallow n key w (next_entry k v rest) h s = elim (Bool-cases (text_eq k key)) [
    | inl same ↦ rw (same, put) (h, s.1)
    | inr apart ↦ elim (Bool-cases (text_lt key k)) [
      | inl before ↦ rw (apart, before, put) (h, s)
      | inr behind ↦ rw (apart, behind, put) (s.0, put-Shallow n key w rest h s.1)
    ]
  ]

  pub mark-Shallow :
      (n : ℕ) (f : Flag) (b : Bool) (v : Value D) → IsShallow n v → IsShallow n (mark f b v)
  unfolding mark IsShallow
  mark-Shallow zero f b v s = s
  mark-Shallow (suc n) f b (scalar flags tag content) s = tt
  mark-Shallow (suc n) f b (array flags x c elements) s = s
  mark-Shallow (suc n) f b (map flags x i entries) s = s
