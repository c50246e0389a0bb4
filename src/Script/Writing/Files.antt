-- ===== src/Script/Writing/Files.antt =====
-- The files of a script: its own, and those that its command lines leave.
use experimaestro.Prelude.{
  ℕ, ◌≡◌, ◌≢◌, refl, sym, ap, ◌∙◌, subst, List, [], ◌∷◌, ◌++◌, Text, codes, map, All-map,
  append_cancel, none, some, Option, arith,
}
use experimaestro.Errors.{ok, >>=-eq-ok, ok-injective}
use experimaestro.Path
use experimaestro.Path.{FilePath, parent, child, resolve}
use experimaestro.Command.Context.{
  CommandContext, auxiliary_files, file_name, IsFormat, AreDistinct, IsLater, resolve_injective,
  auxiliary_files-IsLater, auxiliary_files-AreDistinct,
}
use experimaestro.Command.Output.{Setting, Output, write, output_line}
use experimaestro.Command.Output.Files.{
  requests_of_parts, Leaves, Leaves-none, Leaves-append, output_line-Leaves,
}
use experimaestro.Script.Writing.{
  Line, Builder, JobFiles, script_path, preamble, cleanup, conclusion, output_optional,
  write_script,
}

-- What the command lines of a builder ask for.
abbrev pub requests_of_optional : Option Line → List (Text × Text)
requests_of_optional none = []
requests_of_optional (some l) = requests_of_parts l.parts

abbrev pub requests_of_builder : Builder → List (Text × Text)
requests_of_builder b =
    requests_of_optional b.preprocess_commands ++ requests_of_parts b.command.parts

-- The context that `write` makes.
abbrev pub script_context : FilePath → CommandContext
script_context path = record { folder = parent path; name = Path.name path; counts = [] }

module _ (s : Setting) where
  output_optional-Leaves :
      (l : Option Line) (o o' : Output)
      → output_optional s l o ≡ ok o'
      → Leaves s (requests_of_optional l) o o'
  unfolding output_optional
  output_optional-Leaves none o o' e =
      subst (Leaves s [] o) (ok-injective e) (Leaves-none s o o refl refl)
  output_optional-Leaves (some l) o o' e = output_line-Leaves s l.own l.parts o o' e

  write_script-files :
      (b : Builder) (j : JobFiles) (path : FilePath) (p : FilePath × Output)
      → write_script s b j path ≡ ok p
      → (p.0 ≡ script_path path)
        × (map (λ f. f.0) p.1.files
            ≡ auxiliary_files s.digits (requests_of_builder b) (script_context path))
  unfolding write_script write
  write_script-files b j path p e =
      let (first, _, e1) = >>=-eq-ok (preamble s b j (parent path)) _ e in
      let o0 : Output = record { out = first; files = []; context = script_context path } in
      let (o, pre, e2) = >>=-eq-ok (output_optional s b.preprocess_commands o0) _ e1 in
      let (middle, _, e3) = >>=-eq-ok (cleanup s b j (parent path)) _ e2 in
      let (o', main, e4) =
        >>=-eq-ok (output_line s b.command.own b.command.parts (write middle o)) _ e3 in
      let (last, _, e5) = >>=-eq-ok (conclusion s j (parent path)) _ e4 in
      let l = output_line-Leaves s b.command.own b.command.parts (write middle o) o' main in
      let both =
        Leaves-append s (requests_of_optional b.preprocess_commands)
          (requests_of_parts b.command.parts) o0 o o'
          (output_optional-Leaves b.preprocess_commands o0 o pre)
          (record { written = l.written; moved = l.moved }) in
      (
        sym (ap (λ q. q.0) (ok-injective e5)),
        sym (ap (λ q. map (λ f. f.0) q.1.files) (ok-injective e5)) ∙ both.written,
      )

  module _ (format : IsFormat s.digits) where
    -- No file of a context has the name of the script.
    script_path-distinct :
        (path f : FilePath) → IsLater s.digits format (script_context path) f → script_path path ≢ f
    unfolding script_path child file_name
    script_path-distinct path f later e =
        let names =
          resolve_injective s.digits format (parent path) (Path.name path ++ codes ".sh") _
            (e ∙ later.is_file) in
        let heads = ap (head 0) (append_cancel (Path.name path) _ _ names) in
        absurd (omega (arith, heads))
      where
        head : ℕ → List ℕ → ℕ
        head d [] = d
        head d (x ∷ xs) = x

    -- Where the formatting of counts has no dot and gives different texts for different counts, the script
    -- of a job and the files that its command lines leave, those before the command included, are all
    -- different: `write` overwrites none of them.
    pub write_script-AreDistinct :
        (b : Builder) (j : JobFiles) (path : FilePath) (p : FilePath × Output)
        → write_script s b j path ≡ ok p
        → AreDistinct (p.0 ∷ map (λ f. f.0) p.1.files)
    write_script-AreDistinct b j path p e =
        let (own, files) = write_script-files b j path p e in
        subst AreDistinct (ap (λ f. f ∷ map (λ g. g.0) p.1.files) (sym own)) (
          subst (λ fs. AreDistinct (script_path path ∷ fs)) (sym files)
            (
              All-map (auxiliary_files s.digits (requests_of_builder b) (script_context path))
                  (script_path-distinct path)
                  (auxiliary_files-IsLater s.digits format (requests_of_builder b)
                    (script_context path)),
              auxiliary_files-AreDistinct s.digits format (requests_of_builder b)
                  (script_context path),
            ))
