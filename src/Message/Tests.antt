-- ===== src/Message/Tests.antt =====
-- The theorems on travel logs at concrete ranges and with a concrete metadata.
use ecs_compositor.Prelude.{ℕ, zero, suc, ◌+◌, ◌≡◌, ◌≢◌, ◌⊎◌, arith, Option, none, some, ◌==◌}
use ecs_compositor.Message.TravelLogs.{
  range, PointRange, Metadata, Buffer, new, allocate, invert, into_ring_bounds,
}
use ecs_compositor.Message.TravelLogs.Ranges.{count, in_bounds, invert_partition}
use ecs_compositor.Message.TravelLogs.Allocate.{
  slots_taken, MarkedDead, dead_answer, allocate_cases,
}

invert_partition_example :
    count (in_bounds (into_ring_bounds (range 6 2) 8) 5)
      + count (in_bounds (into_ring_bounds (invert (range 6 2) 8) 8) 5)
      + count (5 == (invert (range 6 2) 8).upto)
    ≡ 1
invert_partition_example =
    invert_partition (range 6 2) 8 5 (omega arith) (omega arith) (omega arith)

-- A metadata that counts the messages alive and frees everything with the last one.
abbrev counting : Metadata
counting = record {
  State = ℕ;
  Handle = Unit {0};
  capacity = λ s. record { slot = 8; content = 64 };
  alloc = λ r s. (tt, s + 1);
  mark_dead = λ allocated dead handle s. (if_last s allocated, less s);
  dealloc = λ r s. (record { slot = r.slot.upto; content = r.content.upto }, s);
}
  where
    less : ℕ → ℕ
    less zero = zero
    less (suc n) = n

    if_last : ℕ → PointRange → Option PointRange
    if_last zero r = some r
    if_last (suc zero) r = some r
    if_last (suc (suc n)) r = none

abbrev first : PointRange
first = record { slot = range 0 2; content = range 0 16 }

-- Another thread takes the data between the exchanges.
abbrev intrude : Buffer counting → Buffer counting
intrude b = record b { data_next = 32 }

allocate_cases_example :
    let b = new counting 0 in
    let mid = intrude (slots_taken counting first b) in
    ((b.slot_next ≡ first.slot.from)
      × (mid.data_next ≡ first.content.from)
      × (allocate counting intrude first b ≡ (
        some (record { range = first; handle = (counting.alloc first mid.metadata).0 }),
        record mid {
          data_next = first.content.upto;
          metadata = (counting.alloc first mid.metadata).1;
        },
      )))
    ⊎ ((b.slot_next ≡ first.slot.from)
        × (mid.data_next ≢ first.content.from)
        × ((allocate counting intrude first b).0 ≡ none)
        × MarkedDead counting mid
            (dead_answer counting first mid)
            (allocate counting intrude first b).1)
    ⊎ ((b.slot_next ≢ first.slot.from) × (allocate counting intrude first b ≡ (none, b)))
allocate_cases_example = allocate_cases counting intrude first (new counting 0)
