-- ===== src/Connector.antt =====
-- `Connector::mkdirs` and `Connector::resolve` of src/connectors/connectors.cpp. What a connector does
-- on its machine (`fileType`, `mkdir`) is a parameter, over an abstract state of the machine.
pub mod Directories
use experimaestro.Prelude.{
  ℕ, zero, suc, ◌+◌, ◌≡◌, Bool, true, false, Option, none, some, List, [], ◌∷◌, ◌++◌, Text, codes,
  lookup, length, drop, ◌==◌, if◌then◌else◌,
}
use experimaestro.Errors.{Result, ok, err, io_error, out_of_fuel, ◌>>=◌}
use experimaestro.Path.{FilePath, parent, is_local, slash}

pub data FileType : Type 0 where
  unexisting file directory pipe other : FileType

pub record Machine : Type 1 where
  pub World : Type 0
  pub file_type : FilePath → World → FileType
  pub mkdir : FilePath → World → Result World

module _ (m : Machine) where
  open m use {World, file_type, mkdir}

  -- What `mkdirs` does by the type of the path, given what it does for the parents.
  unfoldable pub by_type : FileType → FilePath → Bool → World → Result World → Result World
  by_type directory path error_exists w parents = if error_exists then err io_error else ok w
  by_type unexisting path error_exists w parents = parents >>= mkdir path
  by_type _ path error_exists w parents =
      if error_exists then err io_error else (parents >>= mkdir path)

  -- `mkdirs`, on fuel: one unit for each directory above.
  unfoldable pub mkdirs : ℕ → FilePath → Bool → Bool → World → Result World
  unfolding by_type
  mkdirs zero path create_parents error_exists w = err out_of_fuel
  mkdirs (suc n) path create_parents error_exists w =
      let parents : Result World = elim create_parents [
        | true ↦ mkdirs n (parent path) true false w
        | false ↦ ok w
      ] in
      by_type (file_type path w) path error_exists w parents

-- A mount: a path of the share's server, and where it is on this machine.
pub record Mapping : Type 0 where
  pub serverpath : Text
  pub localpath : Text

-- `std::mismatch` against the whole server path: what is left of the path behind it.
unfoldable pub strip : Text → Text → Option Text
strip [] path = some path
strip (x ∷ xs) [] = none
strip (x ∷ xs) (y ∷ ys) = elim (x == y) [ true ↦ strip xs ys | false ↦ none ]

resolve_in : List Mapping → Text → Result Text
unfolding strip
resolve_in [] p = err io_error
resolve_in (mapping ∷ rest) p = elim (strip mapping.serverpath p) [
  | some tail ↦ ok (mapping.localpath ++ (slash ∷ tail))
  | none ↦ resolve_in rest p
]

unfoldable pub resolve : List (Text × List Mapping) → FilePath → Result Text
unfolding resolve_in is_local lookup
resolve mounts path = if is_local path then ok path.path else elim (lookup path.share mounts) [
  | none ↦ err io_error
  | some mappings ↦ resolve_in mappings path.path
]
