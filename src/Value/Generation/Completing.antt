-- ===== src/Value/Generation/Completing.antt =====
-- Which arguments a map has after `generate`.
use experimaestro.Prelude.{
  ℕ, ◌≡◌, ◌⊎◌, inl, inr, refl, sym, ◌∙◌, subst, true, false, none, Text, text_eq, text_eq_refl, All,
  List, [], ◌∷◌, Bool-cases, Option-cases,
}
use experimaestro.Errors.{Result, ok, >>=-eq-ok, ok-injective, err-ne-ok}
use experimaestro.Scalar.{Numbers}
use experimaestro.Types.Hierarchy.{Above}
use experimaestro.Value.{
  sealed, generated, get_flag, Complex, MapInfo, Value, scalar, array, map, Entries,
}
use experimaestro.Value.Arguments.{Argument, Schema, default_value, constant}
use experimaestro.Value.Maps.{has_key, put, mark, set}
use experimaestro.Value.Maps.Setting.{find-put, set-IsSetting}
use experimaestro.Value.Folding.{fold_types-gives}
use experimaestro.Value.Generation.{
  put_value, holds, generate_constant, generate_default, generate_argument, generate_own, generate,
  generate_entries,
}

-- A map has a value for the argument, or nothing says which: it is required, and has no generator, no
-- default and no constant.
abbrev pub IsGiven : {D : Type 0} → Argument D → Value D → Type 0
IsGiven a v =
    (holds a.name v ≡ true)
    ⊎ ((a.generator ≡ none)
        × (default_value a ≡ none)
        × (constant a ≡ none)
        × (a.is_required ≡ true))

has_key-put :
    {D : Type 0} (key other : Text) (v : Value D) (entries : Entries D)
    → (has_key key (put key v entries) ≡ true)
      × (has_key other entries ≡ true → has_key other (put key v entries) ≡ true)
unfolding has_key
has_key-put key other v entries = (
  rw (find-put key key v entries, text_eq_refl key, has_key),
  (λ h. elim (Bool-cases (text_eq key other)) [
    | inl same ↦ rw (find-put key other v entries, same, has_key)
    | inr apart ↦ rw (find-put key other v entries, apart, has_key) h
  ]),
)

holds-mark :
    {D : Type 0} (key : Text) (v : Value D) → holds key (mark generated true v) ≡ holds key v
unfolding holds mark
holds-mark key (scalar flags tag content) = refl
holds-mark key (array flags x c elements) = refl
holds-mark key (map flags x i entries) = refl

All-mark :
    (m : Numbers) (schema : Schema m.Double) (v : Value m.Double) (args : List (Text × ℕ))
    → All (λ e. IsGiven (schema.arguments e.1) v) args
    → All (λ e. IsGiven (schema.arguments e.1) (mark generated true v)) args
All-mark m schema v [] h = tt
All-mark m schema v ((key, k) ∷ args) h = (marked h.0, All-mark m schema v args h.1)
  where
    marked : IsGiven (schema.arguments k) v → IsGiven (schema.arguments k) (mark generated true v)
    marked (inl there) = inl (holds-mark (schema.arguments k).name v ∙ there)
    marked (inr nothing) = inr nothing

module _ (m : Numbers) (schema : Schema m.Double) where
  holds-put_value :
      (key other : Text) (v s t : Value m.Double)
      → put_value m schema key v s ≡ ok t
      → (holds key t ≡ true) × (holds other s ≡ true → holds other t ≡ true)
  unfolding holds put_value
  holds-put_value key other v (map flags x i entries) t e =
      let ((u, r), first, last) = >>=-eq-ok (set m schema key v (map flags x i entries)) _ e in
      let s = set-IsSetting m schema key v flags x i entries u r first in
      subst (λ w. (holds key w ≡ true) × (has_key other entries ≡ true → holds other w ≡ true))
        (sym s.result ∙ ok-injective last) (has_key-put key other s.entry entries)
  holds-put_value key other v (scalar flags tag content) t e = absurd (err-ne-ok (unfold set in e))
  holds-put_value key other v (array flags x c elements) t e = absurd (err-ne-ok (unfold set in e))

  module _ (produce : Text → Result (Value m.Double)) where
    -- What one step for an argument does: nothing, or one `set` of its name.
    data Filled (a : Argument m.Double) (s : Value m.Double) : Value m.Double → Type 0 where
      kept : IsGiven a s → Filled a s s
      filled :
          {t : Value m.Double} (v : Value m.Double)
          → put_value m schema a.name v s ≡ ok t
          → Filled a s t

    kept_as : (a : Argument m.Double) (s t : Value m.Double) → s ≡ t → IsGiven a s → Filled a s t
    kept_as a s t e g = subst (Filled a s) e (kept g)

    constant_fills :
        (a : Argument m.Double) (s t : Value m.Double)
        → a.generator ≡ none
        → default_value a ≡ none
        → generate_constant m schema produce a s ≡ ok t
        → Filled a s t
    unfolding generate_constant
    constant_fills a s t g d e = elim (Option-cases (constant a)) [
      | inr (c, q) ↦ filled _ (rw (q, generate_constant) at e)
      | inl q ↦ elim (Bool-cases a.is_required) [
        | inl r ↦
            kept_as a s t (ok-injective (rw (q, r, generate_constant) at e)) (inr (g, d, q, r))
        | inr r ↦ filled _ (rw (q, r, generate_constant) at e)
      ]
    ]

    default_fills :
        (a : Argument m.Double) (s t : Value m.Double)
        → a.generator ≡ none
        → generate_default m schema produce a s ≡ ok t
        → Filled a s t
    unfolding generate_default
    default_fills a s t g e = elim (Option-cases (default_value a)) [
      | inr (d, q) ↦ filled _ (rw (q, generate_default) at e)
      | inl q ↦ constant_fills a s t g q (rw (q, generate_default) at e)
    ]

    argument_fills :
        (k : ℕ) (s t : Value m.Double)
        → generate_argument m schema produce k s ≡ ok t
        → Filled (schema.arguments k) s t
    unfolding generate_argument
    argument_fills k s t e = elim (Bool-cases (holds (schema.arguments k).name s)) [
      | inl there ↦
          kept_as (schema.arguments k) s t (ok-injective (rw (there, generate_argument) at e))
            (inl there)
      | inr absent ↦ elim (Option-cases (schema.arguments k).generator) [
        | inr (g, q) ↦
            let (v, _, last) = >>=-eq-ok (produce g) _ (rw (absent, q, generate_argument) at e) in
            filled v last
        | inl q ↦ default_fills (schema.arguments k) s t q (rw (absent, q, generate_argument) at e)
      ]
    ]

    Filled-gives : (a : Argument m.Double) (s t : Value m.Double) → Filled a s t → IsGiven a t
    Filled-gives a s t (kept g) = g
    Filled-gives a s t (filled v e) = inl (holds-put_value a.name a.name v s t e).0

    Filled-keeps :
        (a b : Argument m.Double) (s t : Value m.Double) → Filled a s t → IsGiven b s → IsGiven b t
    Filled-keeps a b s t (kept g) h = h
    Filled-keeps a b s t (filled v e) (inl h) = inl ((holds-put_value a.name b.name v s t e).1 h)
    Filled-keeps a b s t (filled v e) (inr h) = inr h

    generate_own-IsGiven :
        (fuel type : ℕ) (s t : Value m.Double)
        → generate_own m schema produce fuel type s ≡ ok t
        → (u : ℕ) → Above schema.types u type
        → All (λ e. IsGiven (schema.arguments e.1) t) (schema.types u).arguments
    unfolding generate_own
    generate_own-IsGiven fuel type s t e =
        fold_types-gives (generate_argument m schema produce)
          (λ k v. IsGiven (schema.arguments k) v)
          (λ k v w h. Filled-gives (schema.arguments k) v w (argument_fills k v w h))
          (λ k l v w h g.
            Filled-keeps (schema.arguments k) (schema.arguments l) v w (argument_fills k v w h) g)
          fuel schema.types type s t e

    -- When `generate` returns for a map that was not generated, the map has a value for every argument
    -- of its type and of all parents, but for those that are required and that nothing provides.
    pub generate-IsGiven :
        (fuel flags : ℕ) (x : Complex m.Double) (i : MapInfo) (entries : Entries m.Double)
        (t : Value m.Double) (u : ℕ)
        → get_flag generated flags ≡ false
        → generate m schema produce fuel (map flags x i entries) ≡ ok t
        → Above schema.types u i.type
        → All (λ e. IsGiven (schema.arguments e.1) t) (schema.types u).arguments
    unfolding generate
    generate-IsGiven fuel flags x i entries t u new e above =
        elim (Bool-cases (get_flag sealed flags)) [
          | inl closed ↦ absurd (err-ne-ok (rw (new, closed) at e))
          | inr loose ↦
              let (es, _, rest) =
                >>=-eq-ok (generate_entries m schema produce fuel entries) _
                  (rw (new, loose) at e) in
              let (v, own, last) =
                >>=-eq-ok (generate_own m schema produce fuel i.type (map flags x i es)) _ rest in
              subst (λ w. All (λ e. IsGiven (schema.arguments e.1) w) (schema.types u).arguments)
                (ok-injective last)
                (All-mark m schema v (schema.types u).arguments
                  (generate_own-IsGiven fuel i.type (map flags x i es) v own u above))
        ]
