-- ===== src/Script.antt =====
-- `ShScriptBuilder::protect_quoted` of src/scriptbuilder.cpp, which writes a text between the double
-- quotes of a shell script. The shell is a parameter.
pub mod Writing
use experimaestro.Prelude.{
  ℕ, ◌≡◌, ◌≢◌, refl, ap, ◌∙◌, true, false, ◌||◌, Option, none, some, [], ◌∷◌, Text, ◌==◌,
  if◌then◌else◌, arith, All, Bool-cases, inl, inr,
}

abbrev pub double_quote : ℕ
double_quote = 34

abbrev pub dollar : ℕ
dollar = 36

abbrev pub backslash : ℕ
backslash = 92

abbrev pub backquote : ℕ
backquote = 96

unfoldable pub protect_quoted : Text → Text
protect_quoted [] = []
protect_quoted (c ∷ s) =
    let rest = protect_quoted s in
    if c == double_quote || c == dollar then backslash ∷ c ∷ rest else c ∷ rest

abbrev pub consed : ℕ → Option Text → Option Text
consed c none = none
consed c (some s) = some (c ∷ s)

-- The bytes that a backslash quotes between double quotes.
abbrev pub IsQuoted : ℕ → Type 0
IsQuoted c =
    ((c == double_quote) || ((c == dollar) || ((c == backslash) || (c == backquote)))) ≡ true

-- How a shell reads the text that follows a double quote, up to the end of the text: what it stands
-- for, or none when the text ends the quotation or expands something.
pub record Shell : Type 0 where
  pub read : Text → Option Text
  pub read_end : read [] ≡ some []
  pub read_plain :
      (c : ℕ) (s : Text)
      → ((c == double_quote) || ((c == dollar) || ((c == backslash) || (c == backquote)))) ≡ false
      → read (c ∷ s) ≡ consed c (read s)
  pub read_quoted : (c : ℕ) (s : Text) → IsQuoted c → read (backslash ∷ c ∷ s) ≡ consed c (read s)
  pub read_closed : (s : Text) → read (double_quote ∷ s) ≡ none

module _ (shell : Shell) where
  -- What `protect_quoted` makes of a text without backslashes and backquotes is read back by the
  -- shell as the text.
  pub read-protect_quoted :
      (s : Text)
      → All (λ c. (c ≢ backslash) × (c ≢ backquote)) s
      → shell.read (protect_quoted s) ≡ some s
  unfolding protect_quoted
  read-protect_quoted [] h = shell.read_end
  read-protect_quoted (c ∷ s) h = elim (Bool-cases (c == double_quote || c == dollar)) [
    | inl special ↦
        rw (special, protect_quoted)
          (shell.read_quoted c (protect_quoted s) (ground arith)
            ∙ ap (consed c) (read-protect_quoted s h.1))
    | inr plain ↦
        rw (plain, protect_quoted)
          (shell.read_plain c (protect_quoted s) (ground arith)
            ∙ ap (consed c) (read-protect_quoted s h.1))
  ]

  -- Backslashes are not protected: with a backslash before a double quote the text ends the quotation
  -- that it stands in.
  protect_quoted_escapes :
      (s : Text) → shell.read (protect_quoted (backslash ∷ double_quote ∷ s)) ≡ none
  unfolding protect_quoted
  protect_quoted_escapes s =
      shell.read_quoted backslash (double_quote ∷ protect_quoted s) refl
      ∙ ap (consed backslash) (shell.read_closed (protect_quoted s))
