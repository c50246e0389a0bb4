-- ===== src/Samples/Trees.antt =====
-- Trees of values.
use experimaestro.Prelude.{none, ℕ, ◌≡◌, [], codes, true-ne-false, sym}
use experimaestro.Scalar.{integer}
use experimaestro.Value.{
  get_flag, Value, scalar, array, map, no_value, next_value, no_entry, next_entry, seal,
}
use experimaestro.Value.Sealing.{IsAllSealed, IsClosed, seal-IsAllSealed}

-- A map of a tagged scalar and of a list with a tagged scalar, in a context.
abbrev tree : Value ℕ
tree =
    map 0 (record { own = []; tag_context = codes "m" })
      (record { type = 0; job = none; task = none })
      (next_entry (codes "x") (scalar 0 (codes "a") (integer 1)) (
        next_entry (codes "y")
          (array 0 (record { own = []; tag_context = [] }) 0
            (next_value (scalar 0 (codes "b") (integer 2)) no_value))
          no_entry))

seal-IsAllSealed_example : IsAllSealed (seal tree) × (seal (seal tree) ≡ seal tree)
unfolding IsClosed get_flag
seal-IsAllSealed_example = seal-IsAllSealed tree (
  (λ e. absurd (true-ne-false (sym e))),
  (tt, (((λ e. absurd (true-ne-false (sym e))), (tt, tt)), tt)),
)
