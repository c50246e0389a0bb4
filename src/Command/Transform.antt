-- ===== src/Command/Transform.antt =====
-- `transform` of src/commandline.cpp, which puts the variables of the workspace in a text, and the
-- regular expression that it looks for.
use experimaestro.Prelude.{
  ℕ, zero, suc, ◌≡◌, ◌≢◌, refl, Bool, true, ◌||◌, ◌&&◌, not, Option, none, some, [], ◌∷◌, ◌++◌,
  Text, length, All, ◌==◌, if◌then◌else◌, arith,
}
use experimaestro.Errors.{Result, ok, err, ◌>>=◌}
use experimaestro.Variables.{Variables, get}
use experimaestro.Path.Search.{Free}

abbrev pub left_brace : ℕ
left_brace = b'{'

abbrev pub right_brace : ℕ
right_brace = b'}'

-- `.` of the regular expression: any byte but the two ends of a line.
unfoldable pub is_dot : ℕ → Bool
is_dot c = not ((c == 10) || (c == 13))

-- `((?:(?!\}\}).)+)\}\}` behind the two braces: the group, up to the next two braces. The text is
-- matched where the first of them stands, so that the group is never given back.
unfoldable pub match_group : Text → Option Text
unfolding is_dot
match_group [] = none
match_group (x ∷ []) = none
match_group (x ∷ y ∷ s) =
    let rest = match_group (y ∷ s) in
    if (x == right_brace) && (y == right_brace)
    then some []
    else if is_dot x
    then (elim rest [ none ↦ none | some key ↦ some (x ∷ key) ])
    else none

-- The expression at the start of a text: its group, which is not empty.
unfoldable pub match_variable : Text → Option Text
unfolding match_group
match_variable (x ∷ y ∷ s) =
    if (x == left_brace) && (y == left_brace)
    then (elim (match_group s) [ none ↦ none | some [] ↦ none | some (c ∷ key) ↦ some (c ∷ key) ])
    else none
match_variable _ = none

-- The text behind `skip` bytes that belong to the last match; `context.get` is on the fuel of the
-- variables.
unfoldable pub transform_from : ℕ → Variables → ℕ → Text → Result Text
unfolding match_variable get
transform_from fuel vars skip [] = ok []
transform_from fuel vars (suc skip) (c ∷ s) = transform_from fuel vars skip s
transform_from fuel vars zero (c ∷ s) =
    let copied = transform_from fuel vars 0 s in
    elim (match_variable (c ∷ s)) [
      | none ↦ (copied >>= λ rest. ok (c ∷ rest))
      | some key ↦ (do
        value ← get fuel key vars
        rest ← transform_from fuel vars (suc (suc (suc (length key)))) s
        ok (value ++ rest))
    ]

unfoldable pub transform : ℕ → Variables → Text → Result Text
unfolding transform_from
transform fuel vars value = transform_from fuel vars 0 value

match_group-append :
    (x : ℕ) (key behind : Text)
    → Free right_brace (x ∷ key)
    → All (λ c. is_dot c ≡ true) (x ∷ key)
    → match_group (x ∷ (key ++ (right_brace ∷ right_brace ∷ behind))) ≡ some (x ∷ key)
unfolding match_group
match_group-append x [] behind h d = ground (arith, d.0, h.0)
match_group-append x (y ∷ key) behind h d =
    ground (arith, d.0, h.0, match_group-append y key behind h.1 d.1)

-- A key between two pairs of braces, and the text behind it.
abbrev pub braced : Text → Text → Text
braced key behind = left_brace ∷ (left_brace ∷ (key ++ (right_brace ∷ (right_brace ∷ behind))))

transform_from-skip :
    (fuel : ℕ) (vars : Variables) (xs behind : Text)
    → transform_from fuel vars (suc (suc (length xs))) (xs ++ (right_brace ∷ right_brace ∷ behind))
      ≡ transform_from fuel vars 0 behind
unfolding transform_from
transform_from-skip fuel vars [] behind = refl
transform_from-skip fuel vars (x ∷ xs) behind = transform_from-skip fuel vars xs behind

match_variable-Free : (c : ℕ) (s : Text) → c ≢ left_brace → match_variable (c ∷ s) ≡ none
unfolding match_variable
match_variable-Free c [] h = refl
match_variable-Free c (y ∷ s) h = ground arith

match_variable-append :
    (x : ℕ) (key behind : Text)
    → Free right_brace (x ∷ key)
    → All (λ c. is_dot c ≡ true) (x ∷ key)
    → match_variable (braced (x ∷ key) behind) ≡ some (x ∷ key)
unfolding match_variable
match_variable-append x key behind h d = rw (match_group-append x key behind h d) refl

consed :
    (x : ℕ) (before : Text) (r q : Result Text)
    → ((r >>= λ value. q >>= λ rest. ok (before ++ (value ++ rest))) >>= λ rest. ok (x ∷ rest))
      ≡ (r >>= λ value. q >>= λ rest. ok (x ∷ (before ++ (value ++ rest))))
consed x before (err e) q = refl
consed x before (ok value) (err e) = refl
consed x before (ok value) (ok rest) = refl

module _ (fuel : ℕ) (vars : Variables) where
  -- A text with no left brace before the two braces of a key, which is not empty and has no right brace
  -- and no end of a line: the key is replaced by the value of the variable, and the text behind it is
  -- transformed in turn.
  pub transform-variable :
      (before : Text) (c : ℕ) (key behind : Text)
      → Free left_brace before
      → Free right_brace (c ∷ key)
      → All (λ b. is_dot b ≡ true) (c ∷ key)
      → transform fuel vars (before ++ braced (c ∷ key) behind) ≡ (
          get fuel (c ∷ key) vars >>= λ value.
          transform fuel vars behind >>= λ rest. ok (before ++ (value ++ rest)))
  unfolding transform transform_from
  transform-variable [] c key behind f h d =
      rw (match_variable-append c key behind h d, transform_from)
        (rw (transform_from-skip fuel vars key behind, transform_from))
  transform-variable (x ∷ before) c key behind f h d =
      rw (match_variable-Free x (before ++ braced (c ∷ key) behind) f.0, transform_from)
        (rw (transform-variable before c key behind f.1 h d)
          (consed x before (get fuel (c ∷ key) vars) (transform fuel vars behind)))
