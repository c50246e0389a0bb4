-- ===== src/Path/Children.antt =====
-- `operator/` against `parent` and `name`.
use experimaestro.Prelude.{
  ℕ, ◌≡◌, ◌≢◌, refl, ap, [], ◌∷◌, ◌++◌, Text, codes, text_eq, text_eq_iff, take-append, Bool-cases,
  inl, inr, if◌then◌else◌,
}
use experimaestro.Path.{FilePath, child, resolve, parent, name, slash, is_root}
use experimaestro.Path.Search.{Free, drop-suc-length, rfind-append}

abbrev pub entry : Text → Text → Text → FilePath
entry share dir base = record { share = share; path = dir ++ slash ∷ base }

name-entry : (share dir base : Text) → Free slash base → name (entry share dir base) ≡ base
unfolding name
name-entry share dir base h =
    rw (rfind-append slash dir base h, name) (drop-suc-length dir base slash)

parent-top :
    (share base : Text)
    → Free slash base
    → parent (entry share [] base) ≡ record { share = share; path = codes "/" }
unfolding parent
parent-top share base h = rw (rfind-append slash [] base h, parent)

parent-entry :
    (share : Text) (x : ℕ) (dir base : Text)
    → Free slash base
    → parent (entry share (x ∷ dir) base) ≡ record { share = share; path = x ∷ dir }
unfolding parent
parent-entry share x dir base h =
    rw (rfind-append slash (x ∷ dir) base h, parent)
      (ap (λ t. record { share = share; path = x ∷ t }) (take-append dir (slash ∷ base)))

-- The text that `child` puts before the slash.
abbrev stem : Text → Text
stem path = if text_eq path (codes "/") then [] else path

child_lem : (p : FilePath) (f : Text) → child p f ≡ entry p.share (stem p.path) f
unfolding child resolve is_root
child_lem p f = refl

parent-stem :
    (share path f : Text)
    → Free slash f
    → path ≢ []
    → parent (entry share (stem path) f) ≡ record { share = share; path = path }
parent-stem share [] f h e = absurd (e refl)
parent-stem share (x ∷ xs) f h e = elim (Bool-cases (text_eq (x ∷ xs) (codes "/"))) [
  | inl top ↦ rw (top, (text_eq_iff (x ∷ xs) (codes "/")).0 top) (parent-top share f h)
  | inr below ↦ rw below (parent-entry share x xs f h)
]

-- Going up from an entry of a directory leads back to it, for every directory with a non-empty path
-- (the root too) and every name without a slash; and the name of the entry is that name.
pub parent-child :
    (p : FilePath) (f : Text)
    → Free slash f
    → p.path ≢ []
    → (parent (child p f) ≡ p) × (name (child p f) ≡ f)
parent-child p f h e = rw child_lem (parent-stem p.share p.path f h e, name-entry _ _ f h)
