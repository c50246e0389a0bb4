-- ===== src/Value/Flags.antt =====
-- The flags of a value are independent of each other.
use experimaestro.Prelude.{ℕ, ◌≡◌, ◌≢◌, Bool, true, false, arith}
use experimaestro.Value.{
  Flag, sealed, default, validated, generated, ignore, bit, get_flag, set_flag,
}

-- After a flag is set or cleared it reads so, and every other flag reads as before.
pub get_flag-set_flag :
    (f g : Flag) (b : Bool) (flags : ℕ)
    → (get_flag f (set_flag f b flags) ≡ b)
      × (f ≢ g → get_flag g (set_flag f b flags) ≡ get_flag g flags)
unfolding get_flag set_flag bit
get_flag-set_flag f g b flags = (same f b flags, other f g b flags)
  where
    same : (f : Flag) (b : Bool) (n : ℕ) → get_flag f (set_flag f b n) ≡ b
    same sealed true n = ground arith
    same default true n = ground arith
    same validated true n = ground arith
    same generated true n = ground arith
    same ignore true n = ground arith
    same sealed false n = ground arith
    same default false n = ground arith
    same validated false n = ground arith
    same generated false n = ground arith
    same ignore false n = ground arith

    other : (f g : Flag) (b : Bool) (n : ℕ) → f ≢ g → get_flag g (set_flag f b n) ≡ get_flag g n
    other f g b n h = ground arith
