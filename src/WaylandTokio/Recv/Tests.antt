-- ===== src/WaylandTokio/Recv/Tests.antt =====
-- The theorems on the receive buffer at concrete values.
use ecs_compositor.Prelude.{
  ℕ, ◌^◌, ◌≤◌, ◌<◌, ◌⊎◌, ◌≡◌, ◌≢◌, ◌+◌, refl, inl, List, [], ◌∷◌, true, false, some, arith,
}
use ecs_compositor.Core.Error.{ok}
use ecs_compositor.Core.Value.Law.{read_buf}
use ecs_compositor.Core.Value.{read_u32, split_at, load_u32}
use ecs_compositor.Core.Int.{uint, ok_or}
use ecs_compositor.Core.Object.{object, read_id, nonzero}
use ecs_compositor.Core.Header.{MessageHeader, message_header, data_len, split_word}
use ecs_compositor.Phasesync.Position.{new_usize, new_u6}
use ecs_compositor.WaylandTokio.Span.{range, free_space, consume}
use ecs_compositor.WaylandTokio.Recv.{
  Bufs, BufSpan, new_info, slot_pos, slice, slice_of, data_hold, new_span, Spans, read_slices,
}
use ecs_compositor.WaylandTokio.Recv.Collect.{Callback, collect_chunks, round, looping}
use ecs_compositor.WaylandTokio.Recv.Slots.{RecvHandle, allocated, too_few, alloc_handle}
use ecs_compositor.WaylandTokio.Recv.Slots.Room.{room, Gets, alloc_handle_cases}
use ecs_compositor.WaylandTokio.Recv.Collect.Handle.{CoversOldest, collect_chunks-CoversOldest}
use ecs_compositor.WaylandTokio.Recv.Collect.Ends.{collect_chunks-ends}
use ecs_compositor.WaylandTokio.Recv.Collect.Stuck.{collect_chunks_stuck}
use ecs_compositor.WaylandTokio.Recv.Layout.{bitfield, halvings, layout, info_fields}
use ecs_compositor.WaylandTokio.Recv.Layout.Packed.{IsPacked, layout-IsPacked}

-- Takes every message, or none, and counts what it was asked.
abbrev takes_all : Callback ℕ
takes_all = record { should_include = λ s hdr. (true, s + 1); fd_count = λ s hdr. (0, s) }

abbrev takes_none : Callback ℕ
takes_none = record { should_include = λ s hdr. (false, s + 1); fd_count = λ s hdr. (0, s) }

-- Two headers, the first of a message without contents and the second without even a header.
abbrev memory : List ℕ
memory = 1 ∷ 0 ∷ 0 ∷ 0 ∷ 5 ∷ 0 ∷ 8 ∷ 0 ∷ []

abbrev empty_header : List ℕ
empty_header = 1 ∷ 0 ∷ 0 ∷ 0 ∷ 5 ∷ 0 ∷ 0 ∷ 0 ∷ []

abbrev nothing : Spans
nothing = record {
  da = record { free = 0; next = 0; hold = 0 };
  ct = record { free = 0; next = 0; hold = 0 };
}

abbrev eight_bytes : Bufs
eight_bytes = record {
  slots_start = slot_pos new_info;
  slots_end = slot_pos new_info;
  free_next = new_info;
  free = nothing;
  recv = record nothing { da = record { free = 0; next = 8; hold = 0 } };
}

one_message :
    (collect_chunks takes_all memory 3 eight_bytes (new_span 0 0) 0).span
    ≡ record { da = 0; da_len = 8; ct = 0; ct_len = 0; count = 1 }
unfolding collect_chunks round read_slices free_space message_header object read_id read_u32
    split_at ok_or nonzero load_u32 uint split_word consume
one_message = refl

collect_chunks-CoversOldest_example :
    CoversOldest eight_bytes
      (new_span 0 0)
      (collect_chunks takes_all memory 3 eight_bytes (new_span 0 0) 0).span
collect_chunks-CoversOldest_example =
    collect_chunks-CoversOldest takes_all memory 3 eight_bytes 0 (inl (omega arith, refl))
      (inl (omega arith, refl))

collect_chunks-ends_example :
    (collect_chunks takes_none memory 9 eight_bytes (new_span 0 0) 0).stop ≢ looping
unfolding free_space
collect_chunks-ends_example =
    collect_chunks-ends takes_none memory (λ s hdr e. absurd (cc e)) 9 eight_bytes (new_span 0 0) 0
      (inl (omega arith, refl)) (inl (omega arith, refl)) (omega arith)

abbrev without_length : MessageHeader
without_length = record { object_id = record { id = 1 }; datalen = 0; opcode = 5 }

slice-there : slice_of data_hold data_len eight_bytes.recv.da ≡ slice (some (range 0 8))
unfolding slice_of free_space
slice-there = refl

header-read : message_header.read (read_buf empty_header []) ≡ (ok without_length, read_buf [] [])
unfolding message_header object read_id read_u32 split_at ok_or nonzero load_u32 uint split_word
header-read = refl

collect_chunks_stuck_example :
    ((collect_chunks takes_all empty_header 7 eight_bytes (new_span 0 0) 0).stop ≡ looping)
    × ((collect_chunks takes_all empty_header 7 eight_bytes (new_span 0 0) 0).span.count ≡ 7)
collect_chunks_stuck_example =
    collect_chunks_stuck takes_all empty_header eight_bytes (inl (omega arith, refl))
      (inl (omega arith, refl)) (range 0 8) slice-there without_length (read_buf [] []) header-read
      refl (λ s. refl) (λ s. refl) 7 (new_span 0 0) 0 refl

abbrev one_slot : ℕ → ℕ
one_slot count = count

abbrev handle : BufSpan
handle = record { da = 0; da_len = 8; ct = 0; ct_len = 0; count = 1 }

alloc_handle_cases_example :
    ((1 ≤ room eight_bytes)
      × ((k : RecvHandle) × (b' : Bufs) × (alloc_handle one_slot handle eight_bytes
            ≡ allocated k b')
          × Gets eight_bytes handle 1 k b'))
    ⊎ ((room eight_bytes < 1) × (alloc_handle one_slot handle eight_bytes ≡ too_few))
unfolding new_usize new_u6
alloc_handle_cases_example =
    alloc_handle_cases one_slot handle eight_bytes (omega arith, omega arith)
      (omega arith, omega arith) (omega arith) (omega arith) (omega arith)

-- The fields of `Info` stand at the bits 0, 9, 15 and 33.
info_layout :
    layout 0 info_fields ≡ some (bitfield 0 9 ∷ bitfield 9 6 ∷ bitfield 15 18 ∷ bitfield 33 10 ∷ [])
unfolding layout halvings
info_layout = refl

layout-IsPacked_example :
    IsPacked 0 info_fields (bitfield 0 9 ∷ bitfield 9 6 ∷ bitfield 15 18 ∷ bitfield 33 10 ∷ [])
layout-IsPacked_example =
    layout-IsPacked info_fields 0
      (bitfield 0 9 ∷ bitfield 9 6 ∷ bitfield 15 18 ∷ bitfield 33 10 ∷ []) info_layout

-- The last field may go past the 64 bits of the word.
past_the_word : layout 60 (record { bits = 32; size = 2 ^ 10 } ∷ []) ≡ some (bitfield 60 10 ∷ [])
unfolding layout halvings
past_the_word = refl
