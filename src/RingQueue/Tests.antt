-- ===== src/RingQueue/Tests.antt =====
-- The theorems on packed positions and chunks at concrete values.
use ecs_compositor.Prelude.{
  ◌+◌, ◌-◌, ◌*◌, ◌/◌, ◌%◌, ◌^◌, ◌≤◌, ◌≡◌, refl, ◌⊎◌, arith, [], ◌∷◌, true, ◌&&◌, ◌==◌, max,
}
use ecs_compositor.Prelude.Digits.{bit_at}
use ecs_compositor.Phasesync.Helpers.{bit_length, lowest_one, mask_between}
use ecs_compositor.Phasesync.Helpers.Mask.{bit_of}
use ecs_compositor.RingQueue.Position.{WaylandPos, from_u64, into_64}
use ecs_compositor.RingQueue.Position.Pack.{IsPacked, from_u64-into_64, into_64-from_u64}
use ecs_compositor.RingQueue.Reader.{
  included, excluded, unbounded, bit_mask_range, loop_until_success, handle_chunk,
}
use ecs_compositor.RingQueue.Reader.Bounds.{behind, in_front, bit_mask_range-bit}
use ecs_compositor.RingQueue.Reader.Chunk.{EndsWell, loop_until_success-EndsWell, handle_chunk_lem}

abbrev pos : WaylandPos
pos = record { content = 200000; ctrl = 500; slot = 30000 }

from_u64-into_64_example : from_u64 (into_64 pos) ≡ pos
from_u64-into_64_example = from_u64-into_64 pos (omega arith, omega arith, omega arith)

into_64-from_u64_example :
    IsPacked (from_u64 (2 ^ 64 - 1))
    × (into_64 (from_u64 (2 ^ 64 - 1))
        ≡ ((2 ^ 64 - 1) / 2 ^ 32 % 2 ^ 18 * 2 ^ 16 + (2 ^ 64 - 1) / 2 ^ 16 % 2 ^ 10) * 2 ^ 16
          + (2 ^ 64 - 1) % 2 ^ 15)
into_64-from_u64_example = into_64-from_u64 (2 ^ 64 - 1)

bit_mask_range-bit_example :
    bit_at 5 (bit_mask_range (excluded 4) unbounded)
    ≡ bit_of (behind (excluded 4) 5 && in_front unbounded 5)
bit_mask_range-bit_example = bit_mask_range-bit (excluded 4) unbounded 5 (omega arith)

handle_chunk_lem_example :
    let (found, after) = handle_chunk (excluded 1) (included 6) 36 in
    (bit_at 5 36 ≤ bit_at 5 after)
    × ((found ≡ true)
        ⊎ (bit_at 5 after
            ≡ max (bit_at 5 36) (bit_of (behind (excluded 1) 5 && in_front (included 6) 5))))
handle_chunk_lem_example = handle_chunk_lem (excluded 1) (included 6) 36 5 (omega arith)

-- Of the ones at 2 and 5, the one at 5 is found, the zeros in front of it are set, and it stays.
handle_chunk_run : handle_chunk (excluded 1) (included 6) 36 ≡ (true, 60)
unfolding handle_chunk bit_mask_range lowest_one bit_length mask_between
handle_chunk_run = refl

loop_until_success-EndsWell_example :
    EndsWell
      (λ v. v + 1)
      (λ v. v % 2 == 1)
      1
      (3 ∷ 5 ∷ 5 ∷ [])
      (loop_until_success (λ v. v + 1) (λ v. v % 2 == 1) 1 (3 ∷ 5 ∷ 5 ∷ []))
loop_until_success-EndsWell_example =
    loop_until_success-EndsWell (λ v. v + 1) (λ v. v % 2 == 1) 1 (3 ∷ 5 ∷ 5 ∷ [])
