-- ===== src/Command/Output/Files.antt =====
-- The files that the output of a command line leaves.
use mathlib.Core.List.{map-append}
use experimaestro.Prelude.{
  ◌≡◌, refl, sym, ap, ◌∙◌, subst, List, [], ◌∷◌, ◌++◌, append-nil, append_assoc, Text, codes, map,
  ℕ, Bool-cases, inl, inr,
}
use experimaestro.Errors.{ok, >>=-eq-ok, ok-injective, err-ne-ok}
use experimaestro.Connector.{resolve}
use experimaestro.Variables.{get, has}
use experimaestro.Command.Transform.{transform}
use experimaestro.Command.{Component, text, content, parameters, path, path_reference}
use experimaestro.Command.Context.{CommandContext, auxiliary_file, auxiliary_files}
use experimaestro.Launcher.Redirections.{Redirect}
use experimaestro.Command.Output.{
  Setting, Output, Part, write, output_file, output_component, output_reference, output_rest,
  output_command, output_part, output_parts, output_line, make_pipes, print_redirections,
  output_input,
}

-- The files that a component asks its context for.
abbrev pub requests_of : Component → List (Text × Text)
requests_of (content key contents) = (key, codes ".input") ∷ []
requests_of parameters = (codes "params", codes ".json") ∷ []
requests_of _ = []

abbrev pub requests_of_command : List Component → List (Text × Text)
requests_of_command [] = []
requests_of_command (c ∷ cs) = requests_of c ++ requests_of_command cs

abbrev pub requests_of_parts : List Part → List (Text × Text)
requests_of_parts [] = []
requests_of_parts (p ∷ ps) = requests_of_command p.command.components ++ requests_of_parts ps

-- The context after some requests.
pub context_after : (ℕ → Text) → List (Text × Text) → CommandContext → CommandContext
unfolding auxiliary_file
context_after digits [] c = c
context_after digits ((prefix, suffix) ∷ rs) c =
    context_after digits rs (auxiliary_file digits prefix suffix c).1

module _ (s : Setting) where
  -- The output of something leaves the files of its requests, in order.
  pub record Leaves (rs : List (Text × Text)) (o o' : Output) : Type 0 where
    pub written :
        map (λ f. f.0) o'.files ≡ map (λ f. f.0) o.files ++ auxiliary_files s.digits rs o.context
    pub moved : o'.context ≡ context_after s.digits rs o.context

  auxiliary_files-append :
      (rs qs : List (Text × Text)) (c : CommandContext)
      → auxiliary_files s.digits (rs ++ qs) c
        ≡ auxiliary_files s.digits rs c ++ auxiliary_files s.digits qs (context_after s.digits rs c)
  unfolding auxiliary_files context_after auxiliary_file
  auxiliary_files-append [] qs c = refl
  auxiliary_files-append ((p, e) ∷ rs) qs c = rw (auxiliary_files-append rs qs _)

  context_after-append :
      (rs qs : List (Text × Text)) (c : CommandContext)
      → context_after s.digits (rs ++ qs) c
        ≡ context_after s.digits qs (context_after s.digits rs c)
  unfolding context_after
  context_after-append [] qs c = refl
  context_after-append ((p, e) ∷ rs) qs c = context_after-append rs qs _

  pub Leaves-none : (o o' : Output) → o'.files ≡ o.files → o'.context ≡ o.context → Leaves [] o o'
  unfolding context_after auxiliary_files
  Leaves-none o o' e c = record { written = ap (map (λ f. f.0)) e ∙ sym (append-nil _); moved = c }

  pub Leaves-append :
      (rs qs : List (Text × Text)) (o o' o'' : Output)
      → Leaves rs o o'
      → Leaves qs o' o''
      → Leaves (rs ++ qs) o o''
  Leaves-append rs qs o o' o'' a b = record {
    written =
        rw (b.written, a.written, a.moved, auxiliary_files-append rs qs o.context, append_assoc);
    moved =
        b.moved
        ∙ ap (context_after s.digits qs) a.moved
        ∙ sym (context_after-append rs qs o.context);
  }

  output_file-Leaves :
      (prefix suffix contents : Text) (o o' : Output)
      → output_file s prefix suffix contents o ≡ ok o'
      → Leaves ((prefix, suffix) ∷ []) o o'
  unfolding output_file write context_after auxiliary_files
  output_file-Leaves prefix suffix contents o o' e =
      let (p, c) = auxiliary_file s.digits prefix suffix o.context in
      let (t, first, last) =
        >>=-eq-ok (resolve s.mounts p)
          (λ t. ok (write t (record o { files = o.files ++ (p, contents) ∷ []; context = c }))) e in
      subst (Leaves ((prefix, suffix) ∷ []) o) (ok-injective last)
        (record { written = map-append (λ f. f.0) o.files ((p, contents) ∷ []); moved = refl })

  output_component-Leaves :
      (c : Component) (o o' : Output) → output_component s c o ≡ ok o' → Leaves (requests_of c) o o'
  unfolding output_component write output_reference
  output_component-Leaves (text value) o o' e =
      let (t, first, last) = >>=-eq-ok (transform s.fuel s.variables value) _ e in
      subst (Leaves [] o) (ok-injective last) (Leaves-none o _ refl refl)
  output_component-Leaves (content key contents) o o' e =
      output_file-Leaves key (codes ".input") contents o o' e
  output_component-Leaves parameters o o' e =
      output_file-Leaves (codes "params") (codes ".json") s.parameters_text o o' e
  output_component-Leaves (path p) o o' e =
      let (t, first, last) = >>=-eq-ok (resolve s.mounts p) _ e in
      subst (Leaves [] o) (ok-injective last) (Leaves-none o _ refl refl)
  output_component-Leaves (path_reference key) o o' e =
      let (known, first, rest) = >>=-eq-ok (has s.fuel key s.variables) _ e in
      elim (Bool-cases known) [
        | inr unknown ↦ absurd (err-ne-ok (rw unknown at rest))
        | inl there ↦
            let (t, second, last) = >>=-eq-ok (get s.fuel key s.variables) _ (rw there at rest) in
            subst (Leaves [] o) (ok-injective last) (Leaves-none o _ refl refl)
      ]

  output_rest-Leaves :
      (cs : List Component) (o o' : Output)
      → output_rest s cs o ≡ ok o'
      → Leaves (requests_of_command cs) o o'
  unfolding output_rest write
  output_rest-Leaves [] o o' e = subst (Leaves [] o) (ok-injective e) (Leaves-none o o refl refl)
  output_rest-Leaves (c ∷ cs) o o' e =
      let (u, first, rest) = >>=-eq-ok (output_component s c (write (codes " ") o)) _ e in
      let l = output_component-Leaves c (write (codes " ") o) u first in
      Leaves-append (requests_of c) (requests_of_command cs) o u o'
        (record { written = l.written; moved = l.moved }) (output_rest-Leaves cs u o' rest)

  output_command-Leaves :
      (cs : List Component) (o o' : Output)
      → output_command s cs o ≡ ok o'
      → Leaves (requests_of_command cs) o o'
  unfolding output_command
  output_command-Leaves [] o o' e = subst (Leaves [] o) (ok-injective e) (Leaves-none o o refl refl)
  output_command-Leaves (c ∷ cs) o o' e =
      let (u, first, rest) = >>=-eq-ok (output_component s c o) _ e in
      Leaves-append (requests_of c) (requests_of_command cs) o u o'
        (output_component-Leaves c o u first) (output_rest-Leaves cs u o' rest)

  output_part-Leaves :
      (own : Redirect) (p : Part) (o o' : Output)
      → output_part s own p o ≡ ok o'
      → Leaves (requests_of_command p.command.components) o o'
  unfolding output_part write
  output_part-Leaves own p o o' e =
      let (_, _, e1) = >>=-eq-ok (make_pipes s o.context.folder p.named.outputs) _ e in
      let (_, _, e2) = >>=-eq-ok (make_pipes s o.context.folder p.named.errors) _ e1 in
      let (_, _, e3) = >>=-eq-ok (output_input s own p o.context.folder) _ e2 in
      let (u, printed, e4) = >>=-eq-ok (output_command s p.command.components _) _ e3 in
      let (_, _, e5) =
        >>=-eq-ok (print_redirections s u.context.folder 1 p.command.output p.named.outputs) _ e4 in
      let (_, _, e6) =
        >>=-eq-ok (print_redirections s u.context.folder 2 p.command.error p.named.errors) _ e5 in
      let l = output_command-Leaves p.command.components _ u printed in
      subst (Leaves (requests_of_command p.command.components) o) (ok-injective e6)
        (record { written = l.written; moved = l.moved })

  output_parts-Leaves :
      (own : Redirect) (ps : List Part) (o o' : Output)
      → output_parts s own ps o ≡ ok o'
      → Leaves (requests_of_parts ps) o o'
  unfolding output_parts
  output_parts-Leaves own [] o o' e =
      subst (Leaves [] o) (ok-injective e) (Leaves-none o o refl refl)
  output_parts-Leaves own (p ∷ ps) o o' e =
      let (u, first, rest) = >>=-eq-ok (output_part s own p o) _ e in
      Leaves-append (requests_of_command p.command.components) (requests_of_parts ps) o u o'
        (output_part-Leaves own p o u first) (output_parts-Leaves own ps u o' rest)

  pub output_line-Leaves :
      (own : Redirect) (ps : List Part) (o o' : Output)
      → output_line s own ps o ≡ ok o'
      → Leaves (requests_of_parts ps) o o'
  unfolding output_line write
  output_line-Leaves own [] o o' e = output_parts-Leaves own [] o o' e
  output_line-Leaves own (p ∷ []) o o' e = output_parts-Leaves own (p ∷ []) o o' e
  output_line-Leaves own (p ∷ q ∷ ps) o o' e =
      let (u, first, last) = >>=-eq-ok (output_parts s own (p ∷ q ∷ ps) _) _ e in
      let l = output_parts-Leaves own (p ∷ q ∷ ps) _ u first in
      subst (Leaves (requests_of_parts (p ∷ q ∷ ps)) o) (ok-injective last)
        (record { written = l.written; moved = l.moved })
