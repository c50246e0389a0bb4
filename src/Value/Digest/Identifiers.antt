-- ===== src/Value/Digest/Identifiers.antt =====
-- The hexadecimal text of a digest.
use experimaestro.Prelude.{ℕ, ◌/◌, ◌%◌, ◌<◌, ◌≡◌, refl, ap, [], ◌∷◌, Text, All, arith}
use experimaestro.Value.Digest.{hex_digit, hex}

hex_digit_injective : (m n : ℕ) → m < 16 → n < 16 → hex_digit m ≡ hex_digit n → m ≡ n
unfolding hex_digit
hex_digit_injective m n a b e = ground arith

byte_injective : (b c : ℕ) → b / 16 ≡ c / 16 → b % 16 ≡ c % 16 → b ≡ c
byte_injective b c d r = omega arith

-- The head and the tail of a text that is not empty.
abbrev head : Text → ℕ
head [] = 0
head (c ∷ s) = c

abbrev tail : Text → Text
tail [] = []
tail (c ∷ s) = s

-- Different digests are written as different identifiers.
pub hex_injective :
    (xs ys : Text) → All (λ b. b < 256) xs → All (λ b. b < 256) ys → hex xs ≡ hex ys → xs ≡ ys
unfolding hex
hex_injective [] [] a b e = refl
hex_injective [] (y ∷ ys) a b e = ground arith
hex_injective (x ∷ xs) [] a b e = ground arith
hex_injective (x ∷ xs) (y ∷ ys) a b e =
    let high =
      hex_digit_injective (x / 16) (y / 16) (omega (arith, a.0)) (omega (arith, b.0)) (ap head e) in
    let low =
      hex_digit_injective (x % 16) (y % 16) (omega arith) (omega arith)
        (ap (λ t. head (tail t)) e) in
    let rest = hex_injective xs ys a.1 b.1 (ap (λ t. tail (tail t)) e) in
    rw (byte_injective x y high low, rest) refl
