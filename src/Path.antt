-- ===== src/Path.antt =====
-- The paths of src/filesystem.cpp and include/public/xpm/filesystem.hpp.
pub mod Search
pub mod Children
pub mod Extensions
pub mod Relative
use experimaestro.Prelude.{
  ℕ, zero, suc, ◌+◌, Bool, true, false, not, Option, none, some, List, [], ◌∷◌, ◌++◌, Text, codes,
  text_eq, take, drop, ◌==◌, if◌then◌else◌, foldl,
}
use experimaestro.Path.Search.{find_from, rfind}
use experimaestro.Errors.{Result, ok, err, logic_error}

pub record FilePath : Type 0 where
  pub share : Text
  pub path : Text

abbrev pub slash : ℕ
slash = b'/'

abbrev pub dot : ℕ
dot = b'.'

-- `Path::Path()` and `Path::Path(std::string const &)`
unfoldable pub root : FilePath
root = record { share = []; path = codes "/" }

unfoldable pub local : Text → FilePath
local path = record { share = []; path = path }

unfoldable pub is_root : FilePath → Bool
is_root p = text_eq p.path (codes "/")

-- The constructors from a parent and a list of names, by `std::accumulate`.
unfoldable pub resolve : FilePath → List Text → FilePath
unfolding is_root
resolve parent relative = record {
  share = parent.share;
  path =
      foldl (λ s piece. s ++ (slash ∷ piece)) (if is_root parent then [] else parent.path) relative;
}

-- `operator/`
unfoldable pub child : FilePath → Text → FilePath
unfolding resolve
child p filename = resolve p (filename ∷ [])

unfoldable pub parent : FilePath → FilePath
parent p = elim (rfind slash p.path) [
  | none ↦ p
  | some zero ↦ record p { path = codes "/" }
  | some (suc i) ↦ record p { path = take (suc i) p.path }
]

unfoldable pub with_extension : FilePath → Text → FilePath
with_extension p extension =
    let start : ℕ = elim (rfind slash p.path) [ none ↦ 0 | some i ↦ i ] in
    record p {
      path = elim (find_from dot start p.path) [
        | none ↦ p.path ++ (dot ∷ extension)
        | some pos ↦ take pos p.path ++ extension
      ];
    }

unfoldable pub to_string : FilePath → Text
to_string p = elim p.share [ [] ↦ p.path | _ ↦ p.share ++ (codes ":" ++ p.path) ]

unfoldable pub name : FilePath → Text
name p = elim (rfind slash p.path) [ none ↦ p.path | some pos ↦ drop (suc pos) p.path ]

-- `_path[0]` of an empty text is the terminating zero.
unfoldable pub is_relative : FilePath → Bool
is_relative p = elim p.path [ [] ↦ true | c ∷ _ ↦ not (c == slash) ]

unfoldable pub is_local : FilePath → Bool
is_local p = elim p.share [ [] ↦ true | _ ↦ false ]

unfoldable pub local_path : FilePath → Result Text
unfolding is_local
local_path p = if is_local p then ok p.path else err logic_error
