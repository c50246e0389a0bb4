-- ===== src/Value/Tags.antt =====
-- The tags of a tree of values.
use experimaestro.Prelude.{
  ◌≡◌, refl, sym, ◌∙◌, false, List, [], ◌∷◌, ◌++◌, Text, text_eq, All, inl, inr,
}
use experimaestro.Errors.{Result, Result-cases, ok, ◌>>=◌}
use experimaestro.Scalar.{Scalar}
use experimaestro.Value.{
  Value, scalar, array, map, Values, no_value, next_value, Entries, no_entry, next_entry,
  insert_tag, insert_own, inner_context, retrieve_tags, retrieve_elements, retrieve_entries,
}

module _ {D : Type 0} where
  -- The own tags with their context before them.
  unfoldable pub prefixed : Text → List (Text × Scalar D) → List (Text × Scalar D)
  prefixed context [] = []
  prefixed context ((name, s) ∷ own) = (context ++ name, s) ∷ prefixed context own

  -- Every tag in the tree with its context, children first.
  unfoldable mutual
    unfolding prefixed

    pub all_tags : Text → Value D → List (Text × Scalar D)
    all_tags context (scalar flags [] content) = []
    all_tags context (scalar flags (c ∷ tag) content) = (context ++ (c ∷ tag), content) ∷ []
    all_tags context (array flags x c elements) =
        element_tags (inner_context context x.tag_context) elements
        ++ prefixed (inner_context context x.tag_context) x.own
    all_tags context (map flags x c entries) =
        entry_tags (inner_context context x.tag_context) entries
        ++ prefixed (inner_context context x.tag_context) x.own

    pub element_tags : Text → Values D → List (Text × Scalar D)
    element_tags context no_value = []
    element_tags context (next_value v rest) = all_tags context v ++ element_tags context rest

    pub entry_tags : Text → Entries D → List (Text × Scalar D)
    entry_tags context no_entry = []
    entry_tags context (next_entry key v rest) = all_tags context v ++ entry_tags context rest

  -- Insertions one after the other.
  unfoldable pub insert_all :
      List (Text × Scalar D) → List (Text × Scalar D) → Result (List (Text × Scalar D))
  insert_all [] tags = ok tags
  insert_all ((name, s) ∷ more) tags = insert_tag name s tags >>= insert_all more

  insert_all-append :
      (xs ys tags : List (Text × Scalar D))
      → insert_all (xs ++ ys) tags ≡ (insert_all xs tags >>= insert_all ys)
  unfolding insert_all
  insert_all-append [] ys tags = refl
  insert_all-append ((name, s) ∷ xs) ys tags = elim (Result-cases (insert_tag name s tags)) [
    | inl (t, e) ↦ rw e (insert_all-append xs ys t)
    | inr (x, e) ↦ rw e
  ]

  insert_own-prefixed :
      (context : Text) (own tags : List (Text × Scalar D))
      → insert_own context own tags ≡ insert_all (prefixed context own) tags
  unfolding insert_own insert_all prefixed
  insert_own-prefixed context [] tags = refl
  insert_own-prefixed context ((name, s) ∷ own) tags =
      elim (Result-cases (insert_tag (context ++ name) s tags)) [
        | inl (t, e) ↦ rw e (insert_own-prefixed context own t)
        | inr (x, e) ↦ rw e
      ]

  -- Two runs of insertions, the first known by its list.
  both_inserted :
      (r : Result (List (Text × Scalar D)))
      (f : List (Text × Scalar D) → Result (List (Text × Scalar D)))
      (xs ys tags : List (Text × Scalar D))
      → r ≡ insert_all xs tags
      → ((t : List (Text × Scalar D)) → f t ≡ insert_all ys t)
      → (r >>= f) ≡ insert_all (xs ++ ys) tags
  both_inserted r f xs ys tags e h = elim (Result-cases r) [
    | inl (t, q) ↦ rw q (h t ∙ sym (insert_all-append xs ys tags ∙ rw (sym e ∙ q)))
    | inr (x, q) ↦ rw q (sym (insert_all-append xs ys tags ∙ rw (sym e ∙ q)))
  ]

  single :
      (name : Text) (s : Scalar D) (tags : List (Text × Scalar D))
      → insert_tag name s tags ≡ insert_all ((name, s) ∷ []) tags
  unfolding insert_all
  single name s tags = elim (Result-cases (insert_tag name s tags)) [
    | inl (t, e) ↦ rw e
    | inr (x, e) ↦ rw e
  ]

  mutual
    unfolding retrieve_tags all_tags insert_all

    retrieve_tags-all_tags :
        (context : Text) (v : Value D) (tags : List (Text × Scalar D))
        → retrieve_tags context v tags ≡ insert_all (all_tags context v) tags
    retrieve_tags-all_tags context (scalar flags [] content) tags = refl
    retrieve_tags-all_tags context (scalar flags (c ∷ tag) content) tags =
        single (context ++ (c ∷ tag)) content tags
    retrieve_tags-all_tags context (array flags x c elements) tags =
        both_inserted _ _ _ _ tags (retrieve_elements-tags _ elements tags)
          (insert_own-prefixed _ x.own)
    retrieve_tags-all_tags context (map flags x c entries) tags =
        both_inserted _ _ _ _ tags (retrieve_entries-tags _ entries tags)
          (insert_own-prefixed _ x.own)

    retrieve_elements-tags :
        (context : Text) (vs : Values D) (tags : List (Text × Scalar D))
        → retrieve_elements context vs tags ≡ insert_all (element_tags context vs) tags
    retrieve_elements-tags context no_value tags = refl
    retrieve_elements-tags context (next_value v rest) tags =
        both_inserted _ _ _ _ tags (retrieve_tags-all_tags context v tags)
          (retrieve_elements-tags context rest)

    retrieve_entries-tags :
        (context : Text) (es : Entries D) (tags : List (Text × Scalar D))
        → retrieve_entries context es tags ≡ insert_all (entry_tags context es) tags
    retrieve_entries-tags context no_entry tags = refl
    retrieve_entries-tags context (next_entry key v rest) tags =
        both_inserted _ _ _ _ tags (retrieve_tags-all_tags context v tags)
          (retrieve_entries-tags context rest)

  -- No name stands twice.
  abbrev pub IsDistinct : List (Text × Scalar D) → Type 0
  IsDistinct [] = Unit
  IsDistinct ((name, s) ∷ more) = All (λ e. text_eq name e.0 ≡ false) more × IsDistinct more
