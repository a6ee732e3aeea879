-- ===== src/WaylandTokio/Recv/Slots.antt =====
-- `RecvState::alloc_handle` of crates/wayland-tokio/src/buf/recv/io.rs: slots for the messages of a
-- handle.
pub mod Room
use ecs_compositor.Prelude.{ℕ, ◌+◌, ◌-◌, Bool, max, ltb, leb, ◌==◌, if◌then◌else◌, ◌&&◌, ◌||◌}
use ecs_compositor.Phasesync.Position.{Pos, new_usize, add_index}
use ecs_compositor.WaylandTokio.Recv.{
  Info, Bufs, BufSpan, new_info, with_data, with_ctrl, with_slot_pos, slot_chunk_max,
}

-- `RecvHandle`, without the reference to the buffer.
pub record RecvHandle : Type 0 where
  pub first : Pos
  pub last : Pos
  pub span : BufSpan
  pub free : Info

-- What a call comes to: a handle is empty, one is allocated, the subtraction of no slots at all
-- underflows, or there are too few slots (`todo!`).
pub data Allocated : Type 0 where
  no_handle : Allocated
  allocated : RecvHandle → Bufs → Allocated
  no_slots : Allocated
  too_few : Allocated

-- The derived order of positions: by chunk, then by index.
unfoldable pub pos_lt : Pos → Pos → Bool
pos_lt p q = ltb p.chunk q.chunk || p.chunk == q.chunk && ltb p.index q.index

unfoldable pub pos_le : Pos → Pos → Bool
pos_le p q = ltb p.chunk q.chunk || p.chunk == q.chunk && leb p.index q.index

-- `pos + WrappingUsize::new(count)`.
abbrev pub behind : Pos → ℕ → Pos
behind pos count = add_index slot_chunk_max pos (new_usize slot_chunk_max count)

abbrev pub is_in_bounds : Pos → Pos → Pos → Bool
is_in_bounds start end last =
    if pos_lt start end
    then pos_le start last && pos_lt last end
    else pos_le start last || pos_lt last end

abbrev pub new_handle : Pos → Pos → BufSpan → RecvHandle
new_handle first last h = record {
  first = first;
  last = last;
  span = h;
  free =
      with_slot_pos (behind last 1)
        (with_ctrl (h.ct + h.ct_len) (with_data (h.da + h.da_len) new_info));
}

abbrev pub alloc_slots : ℕ → BufSpan → Bufs → Allocated
alloc_slots count h b =
    if count == 0
    then no_slots
    else if is_in_bounds b.slots_start b.slots_end (behind b.slots_start (count - 1))
    then allocated (new_handle b.slots_start (behind b.slots_start (count - 1)) h)
        (record b { slots_start = behind b.slots_start count })
    else too_few

-- The callback says how many slots a number of messages takes.
unfoldable pub alloc_handle : (slot_count : ℕ → ℕ) → BufSpan → Bufs → Allocated
unfolding pos_lt pos_le
alloc_handle slot_count h b =
    if h.da_len == 0 && h.ct_len == 0
    then no_handle
    else alloc_slots (slot_count (max h.count 1)) h b
