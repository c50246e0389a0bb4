-- ===== src/Variables/Scopes.antt =====
-- The order in which `find` looks through the scopes of a key.
use experimaestro.Prelude.{
  ℕ, zero, suc, ◌<◌, ◌≡◌, ◌≢◌, refl, Option, none, some, List, [], ◌∷◌, ◌++◌, Text, All, lookup,
  length, take-append, append_assoc, arith, Option-cases, inl, inr,
}
use experimaestro.Errors.{ok, err, out_of_fuel}
use experimaestro.Path.{dot}
use experimaestro.Path.Search.{Free, rfind, rfind-Free, rfind-append, drop-suc-length}
use experimaestro.Variables.{Variables, find, find_from, next_dot, local_name}

-- The scope of a name inside other scopes, the nearest of these first.
unfoldable pub scope : Text → List Text → Text
scope s [] = s
scope s (o ∷ outer) = scope o outer ++ (dot ∷ s)

-- The key of a name in a scope.
unfoldable pub key : List Text → Text → Text
unfolding scope
key [] name = name
key (s ∷ outer) name = scope s outer ++ (dot ∷ name)

-- The value in the innermost scope that has one, and that of the bare name at last.
pub first_scope : List Text → Text → Variables → Option Text
unfolding key
first_scope [] name vars = lookup name vars
first_scope (s ∷ outer) name vars =
    let rest = first_scope outer name vars in
    elim (lookup (key (s ∷ outer) name) vars) [ some value ↦ some value | none ↦ rest ]

abbrev pub IsName : Text → Type 0
IsName s = (s ≢ []) × Free dot s

next_dot-append : (xs rest : Text) → xs ≢ [] → next_dot (xs ++ rest) (length xs) ≡ rfind dot xs
unfolding next_dot
next_dot-append [] rest h = absurd (h refl)
next_dot-append (x ∷ xs) rest h = rw (take-append xs rest)

append-ne-nil : (xs ys : Text) (c : ℕ) → xs ++ c ∷ ys ≢ []
append-ne-nil [] ys c = λ e. cc
append-ne-nil (x ∷ xs) ys c = λ e. cc

scope-ne-nil : (s : Text) (outer : List Text) → IsName s → scope s outer ≢ []
unfolding scope
scope-ne-nil s [] h = h.0
scope-ne-nil s (o ∷ outer) h = append-ne-nil (scope o outer) s dot

none_left :
    (fuel : ℕ) (k name : Text) (vars : Variables)
    → find_from fuel k name none vars ≡ ok (first_scope [] name vars)
unfolding find_from first_scope lookup
none_left zero k name vars = refl
none_left (suc fuel) k name vars = refl

-- One round of the loop, from the end of a scope on.
find_from-step :
    (fuel : ℕ) (s : Text) (outer : List Text) (rest name : Text) (vars : Variables)
    → IsName s
    → find_from fuel (scope s outer ++ rest) name (rfind dot (scope s outer)) vars
      ≡ ok (first_scope outer name vars)
    → find_from (suc fuel) (scope s outer ++ rest) name (some (length (scope s outer))) vars
      ≡ ok (first_scope (s ∷ outer) name vars)
unfolding find_from first_scope
find_from-step fuel s outer rest name vars h tail =
    rw (take-append (scope s outer) rest, find_from)
      (elim (Option-cases (lookup (scope s outer ++ (dot ∷ name)) vars)) [
        | inr (value, there) ↦ rw (there, first_scope)
        | inl missing ↦
            rw (missing, first_scope)
              (rw (next_dot-append (scope s outer) rest (scope-ne-nil s outer h)) tail)
      ])

find_from-scope :
    (fuel : ℕ) (s : Text) (outer : List Text) (rest name : Text) (vars : Variables)
    → length outer < fuel
    → IsName s
    → All IsName outer
    → find_from fuel (scope s outer ++ rest) name (some (length (scope s outer))) vars
      ≡ ok (first_scope (s ∷ outer) name vars)
unfolding scope
find_from-scope zero s outer rest name vars lt h a = elim lt [ ]
find_from-scope (suc fuel) s [] rest name vars lt h a =
    find_from-step fuel s [] rest name vars h
      (rw (rfind-Free dot s h.1) (none_left fuel (s ++ rest) name vars))
find_from-scope (suc fuel) s (o ∷ os) rest name vars lt h a =
    find_from-step fuel s (o ∷ os) rest name vars h (
      rw (rfind-append dot (scope o os) s h.1, append_assoc)
        (find_from-scope fuel o os (dot ∷ s ++ rest) name vars (omega arith) a.0 a.1))

-- For scopes that are not empty and have no dot, and a name without a dot, `find` looks the key up
-- in its scopes from the innermost to the outermost, then by its bare name, and ends: one unit of
-- fuel for each scope, and one more, is enough.
pub find-first_scope :
    (fuel : ℕ) (scopes : List Text) (name : Text) (vars : Variables)
    → length scopes < fuel
    → All IsName scopes
    → Free dot name
    → find fuel (key scopes name) vars ≡ ok (first_scope scopes name vars)
unfolding find key
find-first_scope fuel [] name vars lt a h =
    rw (rfind-Free dot name h) (none_left fuel name name vars)
find-first_scope fuel (s ∷ outer) name vars lt a h =
    rw
      (
        rfind-append dot (scope s outer) name h,
        drop-suc-length (scope s outer) name dot,
        local_name,
      )
      (find_from-scope fuel s outer (dot ∷ name) name vars (omega arith) a.0 a.1)

-- A key whose only dot is its first byte, and which has no value, takes `find` through any amount of
-- fuel.
pub find_diverges :
    (fuel : ℕ) (name : Text) (vars : Variables)
    → Free dot name
    → lookup (dot ∷ name) vars ≡ none
    → find fuel (dot ∷ name) vars ≡ err out_of_fuel
unfolding find
find_diverges fuel name vars h missing = rw (rfind-append dot [] name h) (round fuel)
  where
    round : (n : ℕ) → find_from n (dot ∷ name) name (some 0) vars ≡ err out_of_fuel
    round zero = refl
    round (suc n) = rw (missing, find_from) (rw (rfind-append dot [] name h, next_dot) (round n))
