-- ===== src/Local/Removal.antt =====
-- `LocalConnector::remove` of src/connectors/local_unix.cpp, on the tree of files under a path.
use experimaestro.Prelude.{
  ℕ, ◌≡◌, ◌≢◌, ◌⊎◌, inl, inr, refl, sym, ◌∙◌, Bool, true, false, Option, none, some, Text,
  if◌then◌else◌, true-ne-false,
}
use experimaestro.Errors.{
  Result, Result-cases, Error, ok, err, io_error, standard_exception, err-ne-ok,
}
use experimaestro.Connector.{FileType, unexisting, file, directory, pipe, other}
use experimaestro.Local.Modes.{file_type}

-- A file of some mode, or a directory with its entries but `.` and `..`; whether the machine lets it be
-- removed, and a directory be listed.
mutual
  pub data Node : Type 0 where
    entry : (mode : ℕ) (removable : Bool) → Node
    folder : (readable removable : Bool) (children : Nodes) → Node

  pub data Nodes : Type 0 where
    no_node : Nodes
    next_node : (name : Text) (node : Node) (rest : Nodes) → Nodes

-- What `remove` comes back with, and what it leaves.
pub record Removal : Type 0 where
  pub outcome : Result (Unit {0})
  pub left : Option Node

pub record Removals : Type 0 where
  pub outcomes : Result (Unit {0})
  pub remaining : Nodes

abbrev failed : Node → Removal
failed n = record { outcome = err io_error; left = some n }

abbrev gone : Removal
gone = record { outcome = ok tt; left = none }

-- `unlink` of what `fileType` does not see as a directory. What it sees as one and is none can neither be
-- listed nor removed by `rmdir`.
unfoldable pub unlink : FileType → Bool → Node → Removal
unlink directory removable n = failed n
unlink _ removable n = if removable then gone else failed n

-- `rmdir`, which wants an empty directory.
unfoldable pub rmdir : Bool → Bool → Nodes → Removal
rmdir readable removable no_node =
    if removable then gone else failed (folder readable removable no_node)
rmdir readable removable children = failed (folder readable removable children)

-- The entry that is left, in front of the others.
unfoldable pub keep : Text → Option Node → Nodes → Nodes
keep name none rest = rest
keep name (some n) rest = next_node name n rest

-- The entries after the loop: behind an error the handler throws a copy of it as `std::exception`.
unfoldable pub close_directory : Bool → Bool → Removals → Removal
unfolding rmdir
close_directory readable removable r = elim r.outcomes [
  | ok _ ↦ rmdir readable removable r.remaining
  | err _ ↦ record {
    outcome = err standard_exception;
    left = some (folder readable removable r.remaining);
  }
]

-- The loop goes on behind an entry that is removed.
unfoldable pub go_on : Text → Removal → Nodes → Removals → Removals
unfolding keep
go_on name first rest others = elim first.outcome [
  | ok _ ↦ record { outcomes = others.outcomes; remaining = keep name first.left others.remaining }
  | err e ↦ record { outcomes = err e; remaining = keep name first.left rest }
]

-- `remove`
unfoldable mutual
  unfolding file_type unlink rmdir close_directory go_on

  pub remove : Bool → Node → Removal
  remove recursive (entry mode removable) =
      unlink (file_type (some mode)) removable (entry mode removable)
  remove recursive (folder readable removable children) =
      let entries = remove_entries children in
      if recursive
      then (if readable
          then close_directory readable removable entries
          else failed (folder readable removable children))
      else rmdir readable removable children

  pub remove_entries : Nodes → Removals
  remove_entries no_node = record { outcomes = ok tt; remaining = no_node }
  remove_entries (next_node name node rest) =
      let others = remove_entries rest in
      let first = remove true node in go_on name first rest others

-- Everything of the tree may be removed and listed, and no file in it is taken for a directory.
abbrev mutual
  pub IsRemovable : Node → Type 0
  IsRemovable (entry mode removable) = (removable ≡ true) × (file_type (some mode) ≢ directory)
  IsRemovable (folder readable removable children) =
      (readable ≡ true) × (removable ≡ true) × AreRemovable children

  pub AreRemovable : Nodes → Type 0
  AreRemovable no_node = Unit {0}
  AreRemovable (next_node name node rest) = IsRemovable node × AreRemovable rest

-- The tree is removable and gone, or it is not, and there is an error and a rest.
abbrev pub Answers : Node → Removal → Type 0
Answers n r =
    (IsRemovable n × (r.outcome ≡ ok tt) × (r.left ≡ none))
    ⊎ ((IsRemovable n → ⊥) × (r.outcome ≢ ok tt) × (r.left ≢ none))

abbrev AllAnswer : Nodes → Removals → Type 0
AllAnswer ns r =
    (AreRemovable ns × (r.outcomes ≡ ok tt) × (r.remaining ≡ no_node))
    ⊎ ((AreRemovable ns → ⊥) × ((e : Error) × (r.outcomes ≡ err e)))

some-ne-none : {A : Type 0} {a : A} → some a ≢ none
some-ne-none h = cc

err-ne-done : (r : Result (Unit {0})) (e : Error) → r ≡ err e → r ≢ ok tt
err-ne-done r e h k = err-ne-ok (sym h ∙ k)

plain-Answers :
    (mode : ℕ) (removable : Bool)
    → file_type (some mode) ≢ directory
    → Answers (entry mode removable) (if removable then gone else failed (entry mode removable))
plain-Answers mode true n = inl ((refl, n), refl, refl)
plain-Answers mode false n =
    inr ((λ h. true-ne-false (sym h.0)), err-ne-done _ io_error refl, some-ne-none)

unlink-Answers :
    (t : FileType) (mode : ℕ) (removable : Bool)
    → file_type (some mode) ≡ t
    → Answers (entry mode removable) (unlink t removable (entry mode removable))
unfolding unlink
unlink-Answers directory mode removable e =
    inr ((λ h. h.1 e), err-ne-done _ io_error refl, some-ne-none)
unlink-Answers unexisting mode removable e = plain-Answers mode removable (λ h. cc)
unlink-Answers file mode removable e = plain-Answers mode removable (λ h. cc)
unlink-Answers pipe mode removable e = plain-Answers mode removable (λ h. cc)
unlink-Answers other mode removable e = plain-Answers mode removable (λ h. cc)

-- What `remove` makes of a directory that can be listed, from what the loop makes of its entries.
close_directory-Answers :
    (removable : Bool) (children : Nodes) (r : Removals)
    → AllAnswer children r
    → Answers (folder true removable children) (close_directory true removable r)
unfolding close_directory rmdir
close_directory-Answers true children r (inl (all, e, left)) =
    rw (e, left, close_directory) (inl ((refl, refl, all), refl, refl))
close_directory-Answers false children r (inl (all, e, left)) =
    rw (e, left, close_directory)
      (inr ((λ h. true-ne-false (sym h.1)), err-ne-done _ io_error refl, some-ne-none))
close_directory-Answers removable children r (inr (never, (x, e))) =
    rw (e, close_directory)
      (inr ((λ h. never h.2), err-ne-done _ standard_exception refl, some-ne-none))

go_on-AllAnswer :
    (name : Text) (node : Node) (rest : Nodes) (first : Removal) (others : Removals)
    → Answers node first
    → AllAnswer rest others
    → AllAnswer (next_node name node rest) (go_on name first rest others)
unfolding go_on keep
go_on-AllAnswer name node rest first others (inl (fits, e, absent)) (inl (all, f, left)) =
    rw (e, absent, f, left, go_on) (inl ((fits, all), refl, refl))
go_on-AllAnswer name node rest first others (inl (fits, e, absent)) (inr (never, (x, f))) =
    rw (e, absent, f, go_on) (inr ((λ h. never h.1), (x, refl)))
go_on-AllAnswer name node rest first others (inr (never, e, left)) all =
    elim (Result-cases first.outcome) [
      | inl (u, f) ↦ absurd (e f)
      | inr (x, f) ↦ rw (f, go_on) (inr ((λ h. never h.0), (x, refl)))
    ]

mutual
  unfolding remove

  tree-Answers : (n : Node) → Answers n (remove true n)
  tree-Answers (entry mode removable) = unlink-Answers (file_type (some mode)) mode removable refl
  tree-Answers (folder false removable children) =
      inr ((λ h. true-ne-false (sym h.0)), err-ne-done _ io_error refl, some-ne-none)
  tree-Answers (folder true removable children) =
      close_directory-Answers removable children (remove_entries children)
        (entries-AllAnswer children)

  entries-AllAnswer : (ns : Nodes) → AllAnswer ns (remove_entries ns)
  entries-AllAnswer no_node = inl (tt, refl, refl)
  entries-AllAnswer (next_node name node rest) =
      go_on-AllAnswer name node rest (remove true node) (remove_entries rest) (tree-Answers node)
        (entries-AllAnswer rest)

-- `remove` of a tree with its directories either removes all of it and comes back, which it does just
-- when the machine lets everything in it be listed and removed and no file in it is taken for a
-- directory, or throws and leaves a part of it.
pub remove-Answers : (n : Node) → Answers n (remove true n)
remove-Answers n = tree-Answers n
