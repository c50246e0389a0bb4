-- ===== src/Scheduler/Tokens.antt =====
-- A counter token by itself: what it lends against what it has.
use experimaestro.Prelude.{
  ℕ, zero, suc, ◌+◌, ◌-◌, ◌%◌, ◌≤◌, ◌<◌, ◌≡◌, ◌≢◌, ◌↔◌, false, none, some, List, [], ◌∷◌, All,
  get_elem?, ltb, arith, Bool-cases, Option-cases, inl, inr,
}
use experimaestro.Errors.{Result, err, lock_error}
use experimaestro.Scheduler.{Token, u32_mod, DependencyStatus}
use experimaestro.Scheduler.Checks.{token_status}
use experimaestro.Scheduler.Locks.{l_acquire, give_back}

unfoldable pub sum : List ℕ → ℕ
sum [] = 0
sum (x ∷ xs) = x + sum xs

-- The entry at a place, and the list without it.
pub remove : List ℕ → ℕ → List ℕ
remove [] i = []
remove (x ∷ xs) zero = xs
remove (x ∷ xs) (suc i) = x ∷ remove xs i

-- A run of locks taken and given back: a lock of some count, or the end of the one at a place of the
-- list of those held.
pub data Event : Type 0 where
  acquires : (value : ℕ) → Event
  ends : (place : ℕ) → Event

-- The token and the counts held after an event. A refused lock changes nothing.
pub play : Event → Token × List ℕ → Token × List ℕ
unfolding l_acquire give_back remove
play (acquires value) (t, held) = elim (l_acquire t value) [
  | Result.ok t' ↦ (t', value ∷ held)
  | err _ ↦ (t, held)
]
play (ends place) (t, held) = elim (get_elem? held place) [
  | none ↦ (t, held)
  | some value ↦ (give_back t value, remove held place)
]

pub play_all : List Event → Token × List ℕ → Token × List ℕ
unfolding play
play_all [] s = s
play_all (e ∷ es) s = play_all es (play e s)

-- No single sum wraps around.
abbrev pub Fits : ℕ → Event → Type 0
Fits limit (acquires value) = limit + value < u32_mod
Fits limit (ends place) = Unit {0}

-- The token counts exactly what is held, within its limit.
pub record IsBalanced (limit : ℕ) (s : Token × List ℕ) : Type 0 where
  pub fixed : s.0.limit ≡ limit
  pub counted : s.0.used_tokens ≡ sum s.1
  pub bounded : sum s.1 ≤ limit

sum-remove : (xs : List ℕ) (i x : ℕ) → get_elem? xs i ≡ some x → sum (remove xs i) + x ≡ sum xs
unfolding sum remove
sum-remove [] i x e = ground arith
sum-remove (y ∷ ys) zero x e = ground arith
sum-remove (y ∷ ys) (suc i) x e = ground (arith, sum-remove ys i x e)

acquired-IsBalanced :
    (limit value : ℕ) (t : Token) (held : List ℕ)
    → Fits limit (acquires value)
    → ltb t.limit ((value + t.used_tokens) % u32_mod) ≡ false
    → IsBalanced limit (t, held)
    → IsBalanced limit (record t { used_tokens = (t.used_tokens + value) % u32_mod }, value ∷ held)
unfolding sum
acquired-IsBalanced limit value t held f room b = ground arith

ended-IsBalanced :
    (limit place value : ℕ) (t : Token) (held : List ℕ)
    → limit < u32_mod
    → get_elem? held place ≡ some value
    → IsBalanced limit (t, held)
    → IsBalanced limit (give_back t value, remove held place)
unfolding give_back
ended-IsBalanced limit place value t held l found b =
    ground (arith, sum-remove held place value found)

play-IsBalanced :
    (limit : ℕ) (e : Event) (s : Token × List ℕ)
    → limit < u32_mod
    → Fits limit e
    → IsBalanced limit s
    → IsBalanced limit (play e s)
unfolding play
play-IsBalanced limit (acquires value) (t, held) l f b =
    elim (Bool-cases (ltb t.limit ((value + t.used_tokens) % u32_mod))) [
      | inl full ↦ rw (full, play, l_acquire) b
      | inr room ↦ rw (room, play, l_acquire) (acquired-IsBalanced limit value t held f room b)
    ]
play-IsBalanced limit (ends place) (t, held) l f b = elim (Option-cases (get_elem? held place)) [
  | inl missing ↦ rw (missing, play) b
  | inr (value, found) ↦ rw (found, play) (ended-IsBalanced limit place value t held l found b)
]

-- Over any run of locks taken and given back, the counter of the token is the sum of the counts that
-- are held, and this never exceeds the limit, as long as no limit and count together reach 2^32.
pub play_all-IsBalanced :
    (limit : ℕ) (es : List Event) (s : Token × List ℕ)
    → limit < u32_mod
    → All (Fits limit) es
    → IsBalanced limit s
    → IsBalanced limit (play_all es s)
unfolding play_all
play_all-IsBalanced limit [] s l f b = b
play_all-IsBalanced limit (e ∷ es) s l f b =
    play_all-IsBalanced limit es (play e s) l f.1 (play-IsBalanced limit e s l f.0 b)

-- The status of a dependency on a counter token is OK exactly when its lock can be had.
status-l_acquire :
    (t : Token) (value : ℕ)
    → (token_status t value ≡ DependencyStatus.ok) ↔ (l_acquire t value ≢ err lock_error)
unfolding token_status l_acquire
status-l_acquire t value = ground arith

-- When the used tokens and the count fit in 32 bits, their sum does not, and what it wraps to is
-- within the limit, the lock is had, and the counter of the token falls.
pub l_acquire_wraps :
    (t : Token) (value : ℕ)
    → t.used_tokens < u32_mod
    → value < u32_mod
    → u32_mod ≤ t.used_tokens + value
    → t.used_tokens + value ≤ u32_mod + t.limit
    → (l_acquire t value ≡ Result.ok (record t { used_tokens = t.used_tokens + value - u32_mod }))
      × (t.used_tokens + value - u32_mod < t.used_tokens)
unfolding l_acquire
l_acquire_wraps t value u v over under = ground arith
