-- ===== src/Command/Output/Inputs.antt =====
-- Where the output of a command line takes the input of its commands from.
use experimaestro.Prelude.{◌≡◌, refl, ap, List, [], ◌∷◌, Text}
use experimaestro.Errors.{◌>>=◌}
use experimaestro.Launcher.Redirections.{Redirect}
use experimaestro.Command.Output.{
  Setting, Output, Part, output_input, output_part, output_parts, output_line,
}

-- The command with an input of the same type and of the given path.
abbrev pub with_input : Text → Part → Part
with_input target p = record p {
  command = record p.command { input = record p.command.input { path = target } };
}

abbrev pub with_inputs : Text → List Part → List Part
with_inputs target [] = []
with_inputs target (p ∷ ps) = with_input target p ∷ with_inputs target ps

module _ (s : Setting) (own : Redirect) (target : Text) where
  output_parts-inputs :
      (ps : List Part) (o : Output)
      → output_parts s own (with_inputs target ps) o ≡ output_parts s own ps o
  unfolding output_parts output_part output_input
  output_parts-inputs [] o = refl
  output_parts-inputs (p ∷ ps) o =
      ap (λ rest. output_part s own p o >>= rest) (λ i x. output_parts-inputs ps x i)

  -- The output of a command line does not depend on the files that the inputs of its commands are
  -- redirected from.
  pub output_line-inputs :
      (ps : List Part) (o : Output)
      → output_line s own (with_inputs target ps) o ≡ output_line s own ps o
  unfolding output_line
  output_line-inputs [] o = refl
  output_line-inputs (p ∷ []) o = output_parts-inputs (p ∷ []) o
  output_line-inputs (p ∷ q ∷ ps) o = rw (output_parts-inputs (p ∷ q ∷ ps) _)
