-- ===== src/Path/Extensions.antt =====
-- `withExtension`.
use experimaestro.Prelude.{
  ℕ, suc, ◌≡◌, ap, none, some, [], ◌∷◌, ◌++◌, Text, length, ◌+◌, append_assoc, take, take-append,
  arith, Option-cases, inl, inr,
}
use mathlib.Core.List.{tail}
use experimaestro.Path.{FilePath, with_extension, slash, dot}
use experimaestro.Path.Search.{
  Free, find_from-append, find-cons_ne, take-add-length, find_from, find-Free, find-append, rfind,
  rfind-append,
}

abbrev entry : Text → Text → Text → FilePath
entry share dir base = record { share = share; path = dir ++ slash ∷ base }

take_past : (base rest : Text) → take (1 + length base) (slash ∷ (base ++ rest)) ≡ slash ∷ base
take_past base rest = rw (one-add (length base)) (ap (◌∷◌ slash) (take-append base rest))
  where
    one-add : (n : ℕ) → 1 + n ≡ suc n
    one-add n = omega arith

module _ (share : Text) (dir : Text) where
  abbrev pub kept : Text → Text → FilePath
  kept base extension = record { share = share; path = dir ++ slash ∷ (base ++ extension) }

  undotted : (base : Text) → Free dot base → find_from dot (length dir) (dir ++ slash ∷ base) ≡ none
  undotted base h =
      find_from-append dot dir (slash ∷ base)
        (find-cons_ne dot slash base (omega arith) (find-Free dot base h))

  first_dot :
      (base old : Text)
      → Free dot base
      → find_from dot (length dir) (dir ++ slash ∷ (base ++ dot ∷ old))
        ≡ some (length dir + (1 + length base))
  first_dot base old h =
      find_from-append dot dir (slash ∷ (base ++ dot ∷ old))
        (find-cons_ne dot slash (base ++ dot ∷ old) (omega arith) (find-append dot base old h))

  -- Behind the last slash, a name without a dot gets the dot and the extension.
  with_extension-undotted :
      (base extension : Text)
      → Free slash base
      → Free dot base
      → with_extension (entry share dir base) extension
        ≡ record { share = share; path = (dir ++ slash ∷ base) ++ (dot ∷ extension) }
  unfolding with_extension
  with_extension-undotted base extension flat h =
      rw (rfind-append slash dir base flat, undotted base h, with_extension)

  dotted_path :
      (base old extension : Text)
      → let path = take (length dir + (1 + length base)) (dir ++ slash ∷ (base ++ dot ∷ old)) in
        record { share = share; path = path ++ extension } ≡ kept base extension
  dotted_path base old extension = rw (
    take-add-length dir (slash ∷ (base ++ dot ∷ old)) (1 + length base),
    take_past base (dot ∷ old),
    append_assoc,
  )

  -- Behind the last slash, in a name with a dot everything from its first dot on is replaced by the
  -- bare extension, without a dot.
  with_extension-dotted :
      (base old extension : Text)
      → Free slash (base ++ dot ∷ old)
      → Free dot base
      → with_extension (entry share dir (base ++ dot ∷ old)) extension ≡ kept base extension
  unfolding with_extension
  with_extension-dotted base old extension flat h =
      rw (rfind-append slash dir (base ++ dot ∷ old) flat, first_dot base old h, with_extension)
        (dotted_path base old extension)

append-injective : (xs : Text) {ys zs : Text} → xs ++ ys ≡ xs ++ zs → ys ≡ zs
append-injective [] e = e
append-injective (x ∷ xs) e = append-injective xs (ap tail e)

-- Two extensions of one path give one path only if they are the same, whether the name has a dot or
-- not.
with_extension-injective :
    (p : FilePath) (e e' : Text) → with_extension p e ≡ with_extension p e' → e ≡ e'
unfolding with_extension
with_extension-injective p e e' h = elim (Option-cases (find_from dot (start p) p.path)) [
  | inl q ↦ ap tail (append-injective p.path (rw (q, with_extension) at (ap path_of h)))
  | inr (pos, q) ↦ append-injective (take pos p.path) (rw (q, with_extension) at (ap path_of h))
]
  where
    path_of : FilePath → Text
    path_of q = q.path

    start : FilePath → ℕ
    start q = elim (rfind slash q.path) [ none ↦ 0 | some i ↦ i ]
