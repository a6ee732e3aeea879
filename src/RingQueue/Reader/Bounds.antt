-- ===== src/RingQueue/Reader/Bounds.antt =====
-- The bits of `bit_mask_range`.
use ecs_compositor.Prelude.{ℕ, ◌≤◌, ◌≡◌, ap, ◌∙◌, arith, Bool, true, ltb, leb, ◌&&◌}
use ecs_compositor.Prelude.Digits.{bit_at}
use ecs_compositor.Phasesync.Helpers.Mask.{bit_of, between, mask_between-bit}
use ecs_compositor.RingQueue.Reader.{
  Bound, included, excluded, unbounded, lower_bound, upper_bound, bit_mask_range,
}

-- Whether a bit is behind a start bound, and in front of an end bound.
abbrev pub behind : Bound → ℕ → Bool
behind (included val) i = leb val i
behind (excluded val) i = ltb val i
behind unbounded i = true

abbrev pub in_front : Bound → ℕ → Bool
in_front (included val) i = leb i val
in_front (excluded val) i = ltb i val
in_front unbounded i = true

both_bounds :
    (start end : Bound) (i : ℕ)
    → i ≤ 63
    → between (lower_bound start) (upper_bound end) i ≡ (behind start i && in_front end i)
both_bounds (included l) (included u) i h = ground arith
both_bounds (included l) (excluded u) i h = ground arith
both_bounds (included l) unbounded i h = ground arith
both_bounds (excluded l) (included u) i h = ground arith
both_bounds (excluded l) (excluded u) i h = ground arith
both_bounds (excluded l) unbounded i h = ground arith
both_bounds unbounded (included u) i h = ground arith
both_bounds unbounded (excluded u) i h = ground arith
both_bounds unbounded unbounded i h = ground arith

-- For each bit `i` of a `u64`, the mask of a range has a one there exactly where the range has
-- `i`, whatever its bounds.
pub bit_mask_range-bit :
    (start end : Bound) (i : ℕ)
    → i ≤ 63
    → bit_at i (bit_mask_range start end) ≡ bit_of (behind start i && in_front end i)
unfolding bit_mask_range
bit_mask_range-bit start end i h =
    mask_between-bit (lower_bound start) (upper_bound end) i h
    ∙ ap bit_of (both_bounds start end i h)
