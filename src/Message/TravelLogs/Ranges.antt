-- ===== src/Message/TravelLogs/Ranges.antt =====
-- Ranges of a ring: a range, its inverse, and the one place between them.
use ecs_compositor.Prelude.{
  ℕ, ◌+◌, ◌<◌, ◌≡◌, arith, Bool, true, false, Option, none, some, ltb, leb, ◌==◌, if◌then◌else◌,
}
use ecs_compositor.Message.TravelLogs.{Range, invert, into_ring_bounds}

-- Whether a place is in a range that does not wrap, and in one that may.
abbrev pub within : Range → ℕ → Bool
within r i = if leb r.from i then ltb i r.upto else false

abbrev pub in_bounds : Range × Option Range → ℕ → Bool
in_bounds (r, none) i = within r i
in_bounds (r, some q) i = if within r i then true else within q i

abbrev pub count : Bool → ℕ
count b = if b then 1 else 0

-- For a range within a ring, every place of the ring is in exactly one of these: the range, its
-- inverse, and the place in front of the range, which the inverse leaves free.
pub invert_partition :
    (r : Range) (capacity i : ℕ)
    → r.from < capacity
    → r.upto < capacity
    → i < capacity
    → count (in_bounds (into_ring_bounds r capacity) i)
        + count (in_bounds (into_ring_bounds (invert r capacity) capacity) i)
        + count (i == (invert r capacity).upto)
      ≡ 1
unfolding invert into_ring_bounds
invert_partition r capacity i p q h = ground arith
