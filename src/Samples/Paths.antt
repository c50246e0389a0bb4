-- ===== src/Samples/Paths.antt =====
-- Paths of a local machine, and a machine on which every directory exists.
use experimaestro.Prelude.{
  ◌≡◌, ◌≢◌, refl, Bool, true, false, ◌&&◌, ◌||◌, List, [], ◌∷◌, codes, text_eq, any, if◌then◌else◌,
  arith,
}
use experimaestro.Errors.{ok, err, out_of_fuel}
use experimaestro.Path.{FilePath, child, parent, name, local, is_root}
use experimaestro.Path.Children.{parent-child}
use experimaestro.Connector.{directory, unexisting, Machine, mkdirs}
use experimaestro.Connector.Directories.{Rooted, mkdirs_ends}

abbrev tmp : FilePath
tmp = local (codes "/tmp")

parent-child_example :
    (parent (child tmp (codes "job")) ≡ tmp) × (name (child tmp (codes "job")) ≡ codes "job")
unfolding local
parent-child_example =
    parent-child tmp (codes "job") (omega arith, (omega arith, (omega arith, tt))) (λ e. cc)

same_path : FilePath → FilePath → Bool
same_path p q = text_eq p.share q.share && text_eq p.path q.path

-- A machine that keeps the paths of its directories.
abbrev disk : Machine
disk = record {
  World = List FilePath;
  file_type = λ p w. if is_root p || any (same_path p) w then directory else unexisting;
  mkdir = λ p w. ok (p ∷ w);
}

disk-Rooted : Rooted disk
unfolding is_root text_eq
disk-Rooted = record { root_directory = λ share w. refl; returns = λ p w e. cc }

mkdirs_ends_example : mkdirs disk 4 (local (codes "/a/b")) true false [] ≢ err out_of_fuel
unfolding local
mkdirs_ends_example = mkdirs_ends disk disk-Rooted 4 [] (codes "a/b") true false [] (omega arith)
