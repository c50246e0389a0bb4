-- ===== src/Errors/Message.antt =====
-- The text that `parameter_error::what` builds (src/common.cpp) from the path of the argument.
use mathlib.Core.List.{reverse}
use experimaestro.Prelude.{Text, codes, ◌≡◌, refl, ap, List, [], ◌∷◌, ◌++◌, append_assoc}
use experimaestro.Errors.{parameter_error, Result, err, add_path, rethrow}

-- The loop of `what` behind its first round: every further piece after a dot.
dotted : List Text → Text
dotted [] = []
dotted (piece ∷ rest) = codes "." ++ (piece ++ dotted rest)

-- The loop of `what`, from the last piece of the path to the first.
joined : List Text → Text
unfolding dotted
joined [] = []
joined (piece ∷ rest) = piece ++ dotted rest

what : Text → List Text → Text
unfolding joined
what message path =
    codes "Error with parameter " ++ (joined (reverse path) ++ (codes ": " ++ message))

-- The handlers around nested values, the innermost argument first in the list.
rethrow_all : List Text → Result Text → Result Text
rethrow_all [] r = r
rethrow_all (argument ∷ outer) r = rethrow_all outer (rethrow argument r)

rethrow_all-parameter_error :
    (message : Text) (path arguments : List Text)
    → rethrow_all arguments (err (parameter_error message path))
      ≡ err (parameter_error message (path ++ arguments))
unfolding rethrow_all add_path
rethrow_all-parameter_error message path [] =
    ap (λ p. err (parameter_error message p)) (append-nil-path path)
  where
    append-nil-path : (p : List Text) → p ≡ p ++ []
    append-nil-path [] = refl
    append-nil-path (x ∷ xs) = ap (◌∷◌ x) (append-nil-path xs)
rethrow_all-parameter_error message path (a ∷ outer) =
    rw (rethrow_all-parameter_error message (path ++ a ∷ []) outer, append_assoc)
