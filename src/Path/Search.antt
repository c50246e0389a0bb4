-- ===== src/Path/Search.antt =====
-- `std::string::find` and `rfind` of a character, as the paths, names and variables use them.
use experimaestro.Prelude.{
  ℕ, suc, ◌+◌, ◌≡◌, ◌≢◌, refl, ap, Option, none, some, [], ◌∷◌, ◌++◌, Text, All, length, take, drop,
  drop-append, ◌==◌, if◌then◌else◌, arith,
}

-- `std::string::find` of a character.
unfoldable pub find : ℕ → Text → Option ℕ
find c [] = none
find c (x ∷ xs) =
    let rest = find c xs in
    if x == c then some 0 else elim rest [ none ↦ none | some i ↦ some (suc i) ]

-- `find` from a position on.
unfoldable pub find_from : ℕ → ℕ → Text → Option ℕ
find_from c pos s = elim (find c (drop pos s)) [ none ↦ none | some i ↦ some (pos + i) ]

-- `std::string::rfind` of a character.
unfoldable pub rfind : ℕ → Text → Option ℕ
rfind c [] = none
rfind c (x ∷ xs) = elim (rfind c xs) [
  | some i ↦ some (suc i)
  | none ↦ if x == c then some 0 else none
]

-- The position `next` of the text behind `n` bytes.
abbrev pub shift : ℕ → Option ℕ → Option ℕ
shift n none = none
shift n (some i) = some (n + i)

-- No byte of the text is the given one.
abbrev pub Free : ℕ → Text → Type 0
Free c = All (λ x. x ≢ c)

pub find-Free : (c : ℕ) (s : Text) → Free c s → find c s ≡ none
unfolding find
find-Free c [] h = refl
find-Free c (x ∷ xs) h = ground (arith, find-Free c xs h.1)

pub find-append : (c : ℕ) (xs ys : Text) → Free c xs → find c (xs ++ c ∷ ys) ≡ some (length xs)
unfolding find
find-append c [] ys h = ground arith
find-append c (x ∷ xs) ys h = ground (arith, find-append c xs ys h.1)

pub rfind-Free : (c : ℕ) (s : Text) → Free c s → rfind c s ≡ none
unfolding rfind
rfind-Free c [] h = refl
rfind-Free c (x ∷ xs) h = ground (arith, rfind-Free c xs h.1)

pub rfind-append : (c : ℕ) (xs ys : Text) → Free c ys → rfind c (xs ++ c ∷ ys) ≡ some (length xs)
unfolding rfind
rfind-append c [] ys h = ground (arith, rfind-Free c ys h)
rfind-append c (x ∷ xs) ys h = ground (arith, rfind-append c xs ys h)

suc-add : (m n : ℕ) → suc m + n ≡ suc (m + n)
suc-add m n = omega arith

-- The tails of a text behind a byte, and behind all bytes up to one.
pub find_from-append :
    (c : ℕ) (xs ys : Text) {r : Option ℕ}
    → find c ys ≡ r
    → find_from c (length xs) (xs ++ ys) ≡ shift (length xs) r
unfolding find_from
find_from-append c xs ys {r} e = rw (drop-append xs ys, e, find_from) (cases r)
  where
    cases :
        (r : Option ℕ)
        → (elim r as (λ _. Option ℕ) [ none ↦ none | some i ↦ some (length xs + i) ])
          ≡ shift (length xs) r
    cases none = refl
    cases (some i) = refl

pub find-cons_ne :
    (c x : ℕ) (xs : Text) {r : Option ℕ} → x ≢ c → find c xs ≡ r → find c (x ∷ xs) ≡ shift 1 r
unfolding find
find-cons_ne c x xs h e = ground arith

pub drop-suc-length : (xs ys : Text) (c : ℕ) → drop (suc (length xs)) (xs ++ c ∷ ys) ≡ ys
drop-suc-length [] ys c = refl
drop-suc-length (x ∷ xs) ys c = drop-suc-length xs ys c

pub take-add-length : (xs ys : Text) (n : ℕ) → take (length xs + n) (xs ++ ys) ≡ xs ++ take n ys
take-add-length [] ys n = ap (λ k. take k ys) (omega arith)
take-add-length (x ∷ xs) ys n = rw (suc-add (length xs) n) (ap (◌∷◌ x) (take-add-length xs ys n))
