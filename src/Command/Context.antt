-- ===== src/Command/Context.antt =====
-- `CommandContext::getAuxiliaryFile` of src/commandline.cpp. `{:02d}` of the formatting library is a
-- parameter; a count is a number here, below the bound of an `int`.
use experimaestro.Prelude.{
  ℕ, suc, ◌≡◌, ◌≢◌, ◌≤◌, ◌<◌, refl, ap, ◌∙◌, none, some, List, [], ◌∷◌, ◌++◌, Text, codes, All,
  All-map, lookup, insert, arith, text_eq, text_eq_iff, lookup-insert, append_cancel,
  append_separator, drop, Bool-cases, inl, inr, if◌then◌else◌,
}
use experimaestro.Path.{FilePath, resolve, dot, slash}

pub record CommandContext : Type 0 where
  pub folder : FilePath
  pub name : Text
  pub counts : List (Text × ℕ)

-- `counts[reference]`, which is 0 for a new key.
unfoldable pub count_of : Text → CommandContext → ℕ
unfolding lookup
count_of reference c = elim (lookup reference c.counts) [ none ↦ 0 | some n ↦ n ]

-- `fmt::format("{}_{:02d}.{}{}", name, count, prefix, suffix)`
unfoldable pub file_name : (ℕ → Text) → Text → ℕ → Text → Text
file_name digits name count ending = name ++ (codes "_" ++ (digits count ++ (codes "." ++ ending)))

-- `getAuxiliaryFile`, with the context that it leaves.
unfoldable pub auxiliary_file :
    (ℕ → Text) → Text → Text → CommandContext → FilePath × CommandContext
unfolding count_of file_name insert resolve
auxiliary_file digits prefix suffix c =
    let reference = c.name ++ (codes "." ++ (prefix ++ suffix)) in
    let count = suc (count_of reference c) in
    (
      resolve c.folder (file_name digits c.name count (prefix ++ suffix) ∷ []),
      record c { counts = insert reference count c.counts },
    )

-- The files of some requests, one after the other.
unfoldable pub auxiliary_files : (ℕ → Text) → List (Text × Text) → CommandContext → List FilePath
unfolding auxiliary_file
auxiliary_files digits [] c = []
auxiliary_files digits ((prefix, suffix) ∷ requests) c =
    let (file, c') = auxiliary_file digits prefix suffix c in
    file ∷ auxiliary_files digits requests c'

-- What the formatting of a count has: no dot, and different texts for different counts.
pub record IsFormat (digits : ℕ → Text) : Type 0 where
  pub undotted : (n : ℕ) → All (λ b. b ≢ dot) (digits n)
  pub injective : (m n : ℕ) → digits m ≡ digits n → m ≡ n

abbrev pub AreDistinct : List FilePath → Type 0
AreDistinct [] = Unit {0}
AreDistinct (f ∷ fs) = All (λ g. f ≢ g) fs × AreDistinct fs

module _ (digits : ℕ → Text) (format : IsFormat digits) where
  pub resolve_injective :
      (folder : FilePath) (a b : Text) → resolve folder (a ∷ []) ≡ resolve folder (b ∷ []) → a ≡ b
  unfolding resolve
  resolve_injective folder a b e =
      ap (drop 1) (append_cancel _ (slash ∷ a) (slash ∷ b) (ap (λ p. p.path) e))

  file_name_injective :
      (name : Text) (m n : ℕ) (e f : Text)
      → file_name digits name m e ≡ file_name digits name n f
      → (m ≡ n) × (e ≡ f)
  unfolding file_name
  file_name_injective name m n e f h =
      let (same, rest) =
        append_separator dot (digits m) (digits n) e f (format.undotted m) (format.undotted n)
          (append_cancel (codes "_") _ _ (append_cancel name _ _ h)) in
      (format.injective m n same, rest)

  pub reference_of : CommandContext → Text → Text
  reference_of c ending = c.name ++ (codes "." ++ ending)

  -- A file with a count above the one that a context has for its ending.
  pub record IsLater (c : CommandContext) (f : FilePath) : Type 0 where
    pub ending : Text
    pub count : ℕ
    pub is_file : f ≡ resolve c.folder (file_name digits c.name count ending ∷ [])
    pub above : count_of (reference_of c ending) c < count

  count_of-insert :
      (c : CommandContext) (k j : Text) (n : ℕ)
      → count_of j (record c { counts = insert k n c.counts })
        ≡ (if text_eq k j then n else count_of j c)
  unfolding count_of
  count_of-insert c k j n =
      rw (count_of, lookup-insert k j n c.counts)
        (elim (Bool-cases (text_eq k j)) [
          | inl same ↦ rw (same, count_of) refl
          | inr apart ↦ rw (apart, count_of) refl
        ])

  -- A new count is above the old one, and no other changes.
  count_of-le :
      (c : CommandContext) (k j : Text) (n : ℕ)
      → n ≡ suc (count_of k c)
      → count_of j c ≤ count_of j (record c { counts = insert k n c.counts })
  count_of-le c k j n e = elim (Bool-cases (text_eq k j)) [
    | inl same ↦
        let key : k ≡ j = (text_eq_iff k j).0 same in
        rw (count_of-insert c k j n, same) (omega (arith, e, ap (λ t. count_of t c) key))
    | inr apart ↦ rw (count_of-insert c k j n, apart) (omega arith)
  ]

  after : CommandContext → Text → CommandContext
  after c ending = record c {
    counts = insert (reference_of c ending) (suc (count_of (reference_of c ending) c)) c.counts;
  }

  file_of : CommandContext → Text → FilePath
  file_of c ending =
      resolve c.folder
        (file_name digits c.name (suc (count_of (reference_of c ending) c)) ending ∷ [])

  pub auxiliary_files-IsLater :
      (requests : List (Text × Text)) (c : CommandContext)
      → All (IsLater c) (auxiliary_files digits requests c)
  unfolding auxiliary_files auxiliary_file after reference_of
  auxiliary_files-IsLater [] c = tt
  auxiliary_files-IsLater ((p, s) ∷ requests) c = (
    record { ending = p ++ s; count = _; is_file = refl; above = omega arith },
    All-map (auxiliary_files digits requests _)
        (λ f l. record {
          ending = l.ending;
          count = l.count;
          is_file = l.is_file;
          above = omega (
            arith,
            l.above,
            count_of-le c (reference_of c (p ++ s)) (reference_of c l.ending) _ refl,
          );
        })
        (auxiliary_files-IsLater requests (after c (p ++ s))),
  )

  file_of-distinct :
      (c : CommandContext) (ending : Text) (f : FilePath)
      → IsLater (after c ending) f
      → file_of c ending ≢ f
  unfolding reference_of after file_of
  file_of-distinct c ending f l e = absurd (omega (arith, l.above, same_count, counted))
    where
      names : (suc (count_of (reference_of c ending) c) ≡ l.count) × (ending ≡ l.ending)
      names =
          file_name_injective c.name _ l.count ending l.ending
            (resolve_injective c.folder _ _ (e ∙ l.is_file))

      same_count : suc (count_of (reference_of c ending) c) ≡ l.count
      same_count = names.0

      counted :
          count_of (reference_of c l.ending) (after c ending)
          ≡ suc (count_of (reference_of c ending) c)
      counted =
          rw
            (
              count_of-insert c (reference_of c ending) (reference_of c l.ending) _,
              (text_eq_iff (reference_of c ending) (reference_of c l.ending)).1
                  (ap (reference_of c) names.1),
            )
            refl

  -- Where the formatting of counts has no dot and gives different texts for different counts, the
  -- files that a context gives for a sequence of requests are all different, whatever their prefixes and
  -- suffixes.
  pub auxiliary_files-AreDistinct :
      (requests : List (Text × Text)) (c : CommandContext)
      → AreDistinct (auxiliary_files digits requests c)
  unfolding auxiliary_files auxiliary_file file_of after reference_of
  auxiliary_files-AreDistinct [] c = tt
  auxiliary_files-AreDistinct ((p, s) ∷ requests) c = (
    All-map (auxiliary_files digits requests _) (file_of-distinct c (p ++ s))
        (auxiliary_files-IsLater requests (after c (p ++ s))),
    auxiliary_files-AreDistinct requests (after c (p ++ s)),
  )
