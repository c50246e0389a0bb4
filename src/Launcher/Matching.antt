-- ===== src/Launcher/Matching.antt =====
-- How `EnvMatcher` reads the output of the program that it watches.
use experimaestro.Prelude.{
  ℕ, zero, suc, ◌+◌, ◌≡◌, ◌≢◌, ◌≤◌, ◌<◌, refl, sym, ap, ◌∙◌, subst, Bool, true, false, some, [],
  ◌∷◌, ◌++◌, append_assoc, append-nil, length-append, Text, All, length, get_elem?, leb, ◌==◌,
  arith, Bool-cases, inl, inr,
}
use experimaestro.Errors.{Result, ok, err, ◌>>=◌}
use experimaestro.Launcher.{EnvMatcher, newline, create, byte_at, process_byte, process}

-- It makes no difference in which pieces the output arrives.
pub process-append :
    (xs ys : Text) (m : EnvMatcher) → process (xs ++ ys) m ≡ (process xs m >>= process ys)
unfolding process
process-append [] ys m = refl
process-append (c ∷ xs) ys m = next (process_byte c m) (λ m'. process-append xs ys m')
  where
    next :
        (r : Result EnvMatcher)
        → ((m' : EnvMatcher) → process (xs ++ ys) m' ≡ (process xs m' >>= process ys))
        → (r >>= process (xs ++ ys)) ≡ ((r >>= process xs) >>= process ys)
    next (ok m') ih = ih m'
    next (err e) ih = refl

get_elem-append_length :
    (xs ys : Text) (c : ℕ) → get_elem? ((xs ++ c ∷ ys) ++ 0 ∷ []) (length xs) ≡ some c
get_elem-append_length [] ys c = refl
get_elem-append_length (x ∷ xs) ys c = get_elem-append_length xs ys c

-- Bytes other than the first of the prefix leave a matcher at the start of the prefix.
process-apart :
    (bytes : Text) (c : ℕ) (p value : Text)
    → All (λ b. c ≢ b) bytes
    → process bytes (record { prefix = c ∷ p; pos = 0; value = value; reading = false })
      ≡ ok (record { prefix = c ∷ p; pos = 0; value = value; reading = false })
unfolding process process_byte byte_at
process-apart [] c p value a = refl
process-apart (b ∷ bytes) c p value a = rw (differ, process) (process-apart bytes c p value a.1)
  where
    differ : (b == c) ≡ false
    differ = ground (arith, a.0)

module _ (prefix value : Text) where
  abbrev at : ℕ → Bool → EnvMatcher
  at pos reading = record { prefix = prefix; pos = pos; value = value; reading = reading }

  process_byte-expected :
      (seen : Text) (c : ℕ) (left : Text)
      → prefix ≡ seen ++ c ∷ left
      → process_byte c (at (length seen) false)
        ≡ ok (at (suc (length seen)) (leb (length prefix) (suc (length seen))))
  unfolding process_byte byte_at
  process_byte-expected seen c left e =
      rw
        (
          ap (λ t. get_elem? (t ++ 0 ∷ []) (length seen)) e ∙ get_elem-append_length seen left c,
          same,
        )
        refl
    where
      same : (c == c) ≡ true
      same = ground arith

  -- The prefix, from a place in it on.
  process-prefix :
      (seen : Text) (c : ℕ) (left : Text)
      → prefix ≡ seen ++ c ∷ left
      → process (c ∷ left) (at (length seen) false) ≡ ok (at (length prefix) true)
  unfolding process
  process-prefix seen c [] e = rw (process_byte-expected seen c [] e, last, long) refl
    where
      long : length prefix ≡ suc (length seen)
      long = rw e (omega (arith, length-append seen (c ∷ [])))

      last : leb (length prefix) (suc (length seen)) ≡ true
      last = ground (arith, long)
  process-prefix seen c (d ∷ left) e =
      let rest =
        process-prefix (seen ++ c ∷ []) d left (e ∙ sym (append_assoc seen (c ∷ []) (d ∷ left))) in
      ap (λ r. r >>= process (d ∷ left))
        (process_byte-expected seen c (d ∷ left) e ∙ ap (λ b. ok (at (suc (length seen)) b)) more)
      ∙ subst (λ n. process (d ∷ left) (at n false) ≡ ok (at (length prefix) true)) here rest
    where
      here : length (seen ++ c ∷ []) ≡ suc (length seen)
      here = omega (arith, length-append seen (c ∷ []))

      long : length prefix ≡ length seen + suc (suc (length left))
      long = rw e (length-append seen (c ∷ d ∷ left))

      more : leb (length prefix) (suc (length seen)) ≡ false
      more = ground (arith, long)

-- A line that is read: everything up to its end is the value.
process-line :
    (line prefix value : Text) (pos : ℕ)
    → All (λ b. newline ≢ b) line
    → process (line ++ newline ∷ []) (at prefix value pos true)
      ≡ ok (at prefix (value ++ line) pos false)
unfolding process process_byte
process-line [] prefix value pos a = rw append-nil refl
process-line (b ∷ line) prefix value pos a =
    rw (differ, process, ← append_assoc value (b ∷ []) line)
      (process-line line prefix (value ++ b ∷ []) pos a.1)
  where
    differ : (b == newline) ≡ false
    differ = ground (arith, a.0)

-- Where the output has no byte like the first of the prefix, then the prefix and then a line, the matcher ends
-- with that line as its value, and is not reading any more.
pub process-finds :
    (before : Text) (c : ℕ) (p line : Text)
    → All (λ b. c ≢ b) before
    → All (λ b. newline ≢ b) line
    → process (before ++ ((c ∷ p) ++ (line ++ newline ∷ []))) (create (c ∷ p))
      ≡ ok (record { prefix = c ∷ p; pos = suc (length p); value = line; reading = false })
unfolding create
process-finds before c p line a b =
    rw
      (
        process-append before _ (create (c ∷ p)),
        process-apart before c p [] a,
        process-append (c ∷ p) (line ++ newline ∷ []) (create (c ∷ p)),
        process-prefix (c ∷ p) [] [] c p refl,
      )
      (process-line line (c ∷ p) [] (suc (length p)) b)

-- Where the first byte of the prefix comes once more right before it, is not its second byte, and comes
-- nowhere else, the matcher has no value in the end: the byte that ends a partial match is not tried as
-- the start of a new one.
process-misses :
    (c d : ℕ) (p line : Text)
    → All (λ b. c ≢ b) ((d ∷ p) ++ line)
    → process (c ∷ ((c ∷ d ∷ p) ++ line)) (create (c ∷ d ∷ p)) ≡ ok (create (c ∷ d ∷ p))
unfolding process process_byte byte_at create
process-misses c d p line a =
    rw (same, long, differ, process) (process-apart ((d ∷ p) ++ line) c (d ∷ p) [] a)
  where
    same : (c == c) ≡ true
    same = ground arith

    differ : (c == d) ≡ false
    differ = ground (arith, a.0)

    long : leb (length (c ∷ d ∷ p)) 1 ≡ false
    long = ground arith

byte_at_within :
    (prefix : Text) (pos : ℕ)
    → pos ≤ length prefix
    → (p : ℕ) × (byte_at prefix pos ≡ some p) × (p ≢ 0 → pos < length prefix)
unfolding byte_at
byte_at_within [] zero h = (0, refl, λ ne. absurd (ne refl))
byte_at_within [] (suc pos) h = absurd (omega arith)
byte_at_within (x ∷ prefix) zero h = (x, refl, λ _. omega arith)
byte_at_within (x ∷ prefix) (suc pos) h =
    let (p, found, below) = byte_at_within prefix pos (omega arith) in
    (p, found, λ ne. omega (arith, below ne))

-- A matcher whose position is not behind the end of its prefix.
abbrev pub IsWithin : EnvMatcher → Type 0
IsWithin m = m.pos ≤ length m.prefix

process_byte-IsWithin :
    (c : ℕ) (m : EnvMatcher)
    → 0 ≢ c
    → IsWithin m
    → (m' : EnvMatcher) × (process_byte c m ≡ ok m') × IsWithin m'
unfolding process_byte
process_byte-IsWithin c m ne h = elim (Bool-cases m.reading) [
  | inl reads ↦ elim (Bool-cases (c == newline)) [
    | inl ends ↦ (record m { reading = false }, rw (reads, ends) refl, h)
    | inr more ↦ (record m { value = m.value ++ c ∷ [] }, rw (reads, more) refl, h)
  ]
  | inr searches ↦
      let (p, found, below) = byte_at_within m.prefix m.pos h in
      elim (Bool-cases (c == p)) [
        | inl fits ↦
            let positive : p ≢ 0 = λ zero_p. ground (arith, ne, fits, zero_p) in
            (
              record m { pos = suc m.pos; reading = leb (length m.prefix) (suc m.pos) },
              rw (searches, found, fits) refl,
              omega (arith, below positive),
            )
        | inr apart ↦ (
          record m { pos = 0 },
          rw (searches, found, apart) (ap (λ b. ok (record m { pos = 0; reading = b })) searches),
          omega arith,
        )
      ]
]

-- On bytes other than NUL, `process` never reads behind the end of its prefix: it has a result, and the
-- position of that is again not behind the end.
process-IsWithin :
    (bytes : Text) (m : EnvMatcher)
    → All (λ b. 0 ≢ b) bytes
    → IsWithin m
    → (m' : EnvMatcher) × (process bytes m ≡ ok m') × IsWithin m'
unfolding process
process-IsWithin [] m a h = (m, refl, h)
process-IsWithin (c ∷ bytes) m a h =
    let (u, first, within) = process_byte-IsWithin c m a.0 h in
    let (t, rest, final) = process-IsWithin bytes u a.1 within in (t, rw (first, rest) refl, final)
