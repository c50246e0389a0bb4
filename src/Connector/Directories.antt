-- ===== src/Connector/Directories.antt =====
-- What `mkdirs` leaves behind, and when it ends.
use experimaestro.Prelude.{
  ℕ, zero, suc, ◌≤◌, ◌<◌, ◌≡◌, ◌≢◌, refl, Bool, true, false, Option, none, some, [], ◌∷◌, Text,
  codes, length, take, arith, Option-cases, ◌⊎◌, inl, inr,
}
use experimaestro.Errors.{Result, ok, err, out_of_fuel, ◌>>=◌, >>=-eq-ok}
use experimaestro.Path.{FilePath, parent, slash}
use experimaestro.Path.Search.{rfind, rfind-Free, Free}
use experimaestro.Connector.{FileType, unexisting, directory, Machine, mkdirs, by_type}

-- What is relied on of a machine: `mkdir` returns only when there is a directory.
pub record Makes (m : Machine) : Type 0 where
  pub made : (p : FilePath) (w w' : m.World) → m.mkdir p w ≡ ok w' → m.file_type p w' ≡ directory

module _ (m : Machine) (laws : Makes m) where
  open m use {World, file_type, mkdir}

  makes :
      (p : FilePath) (r : Result World) {w' : World}
      → (r >>= mkdir p) ≡ ok w'
      → file_type p w' ≡ directory
  makes p r h = let (w, _, e) = >>=-eq-ok r (mkdir p) h in laws.made p w _ e

  by_type_makes :
      (t : FileType) (p : FilePath) (error_exists : Bool) (w : World) (r : Result World)
      {w' : World}
      → file_type p w ≡ t
      → by_type m t p error_exists w r ≡ ok w'
      → file_type p w' ≡ directory
  unfolding by_type
  by_type_makes directory p e w r q h = ground arith
  by_type_makes unexisting p e w r q h = makes p r h
  by_type_makes _ p true w r q h = ground arith
  by_type_makes _ p false w r q h = makes p r h

  -- On a machine whose `mkdir` returns only when there is a directory, the path is a directory when
  -- `mkdirs` returns, whatever stood there before and whatever the two flags.
  mkdirs_makes :
      (n : ℕ) (p : FilePath) (create_parents error_exists : Bool) (w w' : World)
      → mkdirs m n p create_parents error_exists w ≡ ok w'
      → file_type p w' ≡ directory
  unfolding mkdirs
  mkdirs_makes zero p c e w w' h = ground arith
  mkdirs_makes (suc n) p c e w w' h = by_type_makes (file_type p w) p e w _ refl h

rfind-lt-length : (c : ℕ) (s : Text) (i : ℕ) → rfind c s ≡ some i → i < length s
unfolding rfind
rfind-lt-length c [] i h = ground arith
rfind-lt-length c (x ∷ xs) i h = elim (Option-cases (rfind c xs)) [
  | inl e ↦ ground arith
  | inr (k, e) ↦ let lt = rfind-lt-length c xs k e in ground (arith, lt)
]

rfind-head : (c : ℕ) (s : Text) → rfind c (c ∷ s) ≢ none
unfolding rfind
rfind-head c s h = ground arith

length-take-le : (n : ℕ) (s : Text) → length (take n s) ≤ n
length-take-le zero s = omega arith
length-take-le (suc n) [] = omega arith
length-take-le (suc n) (x ∷ xs) = omega (arith, length-take-le n xs)

abbrev at : Text → Text → FilePath
at share path = record { share = share; path = path }

-- The parent of an absolute path is the root, or a shorter absolute path.
parent_cases :
    (share s : Text) (r : Option ℕ)
    → rfind slash (slash ∷ s) ≡ r
    → (parent (at share (slash ∷ s)) ≡ at share (codes "/"))
      ⊎ ((t : Text) × (parent (at share (slash ∷ s)) ≡ at share (slash ∷ t))
          × (length t < length s))
unfolding parent
parent_cases share s none e = absurd (rfind-head slash s e)
parent_cases share s (some zero) e = inl (rw (e, parent))
parent_cases share s (some (suc k)) e = inr (
  take k s,
  rw (e, parent),
  omega (arith, rfind-lt-length slash (slash ∷ s) (suc k) e, length-take-le k s),
)

-- What is relied on of a machine: the root is a directory, whatever share it is of, and `mkdir`
-- itself returns.
pub record Rooted (m : Machine) : Type 0 where
  pub root_directory :
      (share : Text) (w : m.World) → m.file_type (at share (codes "/")) w ≡ directory
  pub returns : (p : FilePath) (w : m.World) → m.mkdir p w ≢ err out_of_fuel

module _ (m : Machine) (laws : Rooted m) where
  open m use {World, file_type, mkdir}

  by_type_returns :
      (t : FileType) (p : FilePath) (error_exists : Bool) (w : World) (r : Result World)
      → r ≢ err out_of_fuel
      → by_type m t p error_exists w r ≢ err out_of_fuel
  unfolding by_type
  by_type_returns directory p e w r h = ground arith
  by_type_returns unexisting p e w (ok w') h = laws.returns p w'
  by_type_returns unexisting p e w (err x) h = h
  by_type_returns _ p true w r h = ground arith
  by_type_returns _ p false w (ok w') h = laws.returns p w'
  by_type_returns _ p false w (err x) h = h

  mkdirs_root :
      (n : ℕ) (share : Text) (c e : Bool) (w : World)
      → mkdirs m (suc n) (at share (codes "/")) c e w ≢ err out_of_fuel
  unfolding mkdirs by_type
  mkdirs_root n share c e w = rw (laws.root_directory share w, mkdirs) (ground arith)

  -- On a machine whose root is a directory and whose `mkdir` returns, `mkdirs` of an absolute path
  -- ends: as many units of fuel as the path has bytes are enough.
  pub mkdirs_ends :
      (n : ℕ) (share s : Text) (create_parents error_exists : Bool) (w : World)
      → length s < n
      → mkdirs m n (at share (slash ∷ s)) create_parents error_exists w ≢ err out_of_fuel
  unfolding mkdirs
  mkdirs_ends zero share s c e w h = elim h [ ]
  mkdirs_ends (suc n) share [] c e w h = mkdirs_root n share c e w
  mkdirs_ends (suc n) share (x ∷ s) false e w h =
      by_type_returns (file_type (at share (slash ∷ x ∷ s)) w) _ e w (ok w) (ground arith)
  mkdirs_ends (suc zero) share (x ∷ s) true e w h = absurd (omega arith)
  mkdirs_ends (suc (suc n)) share (x ∷ s) true e w h =
      by_type_returns (file_type (at share (slash ∷ x ∷ s)) w) _ e w _
        (elim (parent_cases share (x ∷ s) _ refl) [
          | inl top ↦ rw top (mkdirs_root n share true false w)
          | inr (t, below, lt) ↦ rw below (mkdirs_ends (suc n) share t true false w (omega arith))
        ])

module _ (m : Machine) where
  open m use {World, file_type}

  -- With parents to be made, `mkdirs` of a path of one name without a slash that does not exist
  -- takes any amount of fuel: the path is its own parent.
  mkdirs_diverges :
      (n : ℕ) (share name : Text) (error_exists : Bool) (w : World)
      → Free slash name
      → file_type (at share name) w ≡ unexisting
      → mkdirs m n (at share name) true error_exists w ≡ err out_of_fuel
  unfolding mkdirs by_type parent
  mkdirs_diverges zero share name e w h u = refl
  mkdirs_diverges (suc n) share name e w h u =
      rw (u, top, mkdirs, mkdirs_diverges n share name false w h u)
    where
      top : parent (at share name) ≡ at share name
      top = rw (rfind-Free slash name h, parent)
