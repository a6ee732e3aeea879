-- ===== src/WaylandTokio/Recv.antt =====
-- crates/wayland-tokio/src/buf/recv: the receive buffer (mod.rs, io.rs).
--
-- The crate `bitfield` packs the fields of an `Info` into a `u64`; here they are taken apart. A
-- setter drops the digits that are over the field's width.
pub mod Collect
pub mod Slots
pub mod Cursor
pub mod Sock
pub mod Commit
pub mod Poll
pub mod Dropped
pub mod Layout
pub mod Tests
use ecs_compositor.Prelude.{
  ℕ, ◌+◌, ◌-◌, ◌%◌, ◌^◌, ◌<◌, Bool, true, false, Option, none, some, ltb, leb, ◌==◌, if◌then◌else◌,
  ◌&&◌,
}
use ecs_compositor.Phasesync.Position.{Pos, new_usize, new_u6}
use ecs_compositor.WaylandTokio.Span.{Span, Range, range, get_ranges, no_buf, one, two, consume}
use ecs_compositor.WaylandTokio.Span

pub record Info : Type 0 where
  pub slot_chunk : ℕ
  pub slot_index : ℕ
  pub data_pos : ℕ
  pub ctrl_pos : ℕ
  pub all_slots_dead : Bool

abbrev pub new_info : Info
new_info = record {
  slot_chunk = 0;
  slot_index = 0;
  data_pos = 0;
  ctrl_pos = 0;
  all_slots_dead = false;
}

abbrev pub with_data : ℕ → Info → Info
with_data value i = record i { data_pos = value % 2 ^ 18 }

abbrev pub with_ctrl : ℕ → Info → Info
with_ctrl value i = record i { ctrl_pos = value % 2 ^ 10 }

-- `SLOT_CHUNK_MAX`, and the positions of slots.
abbrev pub slot_chunk_max : ℕ
slot_chunk_max = 2 ^ 9 - 1

abbrev pub slot_pos : Info → Pos
slot_pos i = record { chunk = new_usize slot_chunk_max i.slot_chunk; index = new_u6 i.slot_index }

abbrev pub with_slot_pos : Pos → Info → Info
with_slot_pos pos i = record i { slot_chunk = pos.chunk % 2 ^ 9; slot_index = pos.index % 2 ^ 6 }

-- `DATA_HOLD` and `CTRL_HOLD`.
abbrev pub data_hold : ℕ
data_hold = 2 ^ 18 - 2 ^ 16

abbrev pub ctrl_hold : ℕ
ctrl_hold = 2 ^ 10 - 16

pub record Spans : Type 0 where
  pub da : Span
  pub ct : Span

abbrev or_zero : Option ℕ → ℕ
or_zero none = 0
or_zero (some hold) = hold

-- `Spans::new`.
unfoldable pub new_spans : Info → Info → Option ℕ → Option ℕ → Spans
new_spans free next hold_da hold_ct = record {
  da = record { free = free.data_pos; next = next.data_pos; hold = or_zero hold_da };
  ct = record { free = free.ctrl_pos; next = next.ctrl_pos; hold = or_zero hold_ct };
}

pub record Bufs : Type 0 where
  pub slots_start : Pos
  pub slots_end : Pos
  pub free_next : Info
  pub free : Spans
  pub recv : Spans

-- `RecvState`, whose `Info` is `recv`.
pub record RecvState : Type 0 where
  pub received : Info
  pub socket_closed : Bool
  pub recv_data_hold : Option ℕ
  pub recv_ctrl_hold : Option ℕ
  pub free_data_hold : Option ℕ
  pub free_ctrl_hold : Option ℕ

pub record BufSpan : Type 0 where
  pub da : ℕ
  pub da_len : ℕ
  pub ct : ℕ
  pub ct_len : ℕ
  pub count : ℕ

abbrev pub new_span : ℕ → ℕ → BufSpan
new_span da ct = record { da = da; da_len = 0; ct = ct; ct_len = 0; count = 0 }

abbrev is_none : Option ℕ → Bool
is_none none = true
is_none (some x) = false

-- The `free` of `init_bufs`: without a threshold the room goes up to the default one.
abbrev raised : RecvState → Info → Info
raised s free =
    let free' =
      if is_none s.recv_data_hold && leb free.data_pos s.received.data_pos
      then with_data data_hold free
      else free in
    if is_none s.recv_ctrl_hold && leb free'.ctrl_pos s.received.ctrl_pos
    then with_ctrl ctrl_hold free'
    else free'

unfoldable pub init_bufs : RecvState → Info → Info → Bufs
unfolding new_spans
init_bufs s wait free = record {
  slots_start = slot_pos wait;
  slots_end = slot_pos free;
  free_next = free;
  free = new_spans s.received (raised s free) s.recv_data_hold s.recv_ctrl_hold;
  recv = new_spans wait s.received s.free_data_hold s.free_ctrl_hold;
}

-- `read_slices`: the ranges of the two slices (`none` for one without a length) and the state.
pub record Slices : Type 0 where
  pub da : Option Range
  pub ct : Option Range

-- What one of the two comes to: a slice, nothing, or nothing and a message that would stand across
-- the end of the buffer up to `hold`.
pub data Slice : Type 0 where
  slice : Option Range → Slice
  absent : Slice
  too_long : (hold : ℕ) → Slice

abbrev of_range : ℕ → ℕ → Range → Slice
of_range default len r =
    if ltb (r.end - r.start) len
    then (if ltb default (r.start + len) then too_long (r.start + len) else absent)
    else slice (some (range r.start (r.start + len)))

abbrev of_ranges : ℕ → ℕ → Span.Bufs → Slice
of_ranges default len no_buf = absent
of_ranges default len (one r) = of_range default len r
of_ranges default len (two r q) = of_range default len r

unfoldable pub slice_of : ℕ → ℕ → Span → Slice
slice_of default len s = if len == 0 then slice none else of_ranges default len (get_ranges s)

-- The two arms for a message that is too long.
abbrev long_data : Bool → ℕ → Bufs → Bufs
long_data allow_split hold b =
    let b' = record b { recv = record b.recv { da = record b.recv.da { next = hold } } } in
    if allow_split
    then record b' {
      free = record b.free { da = record b.free.da { hold = hold; next = b.free_next.data_pos } };
    }
    else record b' { free = record b.free { da = record b.free.da { next = hold } } }

abbrev long_ctrl : Bool → ℕ → Bufs → Bufs
long_ctrl allow_split hold b =
    let b' = record b { recv = record b.recv { ct = record b.recv.ct { hold = hold } } } in
    if allow_split
    then record b' {
      free = record b.free { ct = record b.free.ct { hold = hold; next = b.free_next.ctrl_pos } };
    }
    else record b' { free = record b.free { ct = record b.free.ct { next = hold } } }

abbrev then_ctrl : Bool → Bufs → Option Range → Slice → Option Slices × Bufs
then_ctrl allow_split b da (slice ct) = (some (record { da = da; ct = ct }), b)
then_ctrl allow_split b da absent = (none, b)
then_ctrl allow_split b da (too_long hold) = (none, long_ctrl allow_split hold b)

abbrev pub from_slices : Bool → Bufs → Slice → Slice → Option Slices × Bufs
from_slices allow_split b (slice da) ct = then_ctrl allow_split b da ct
from_slices allow_split b absent ct = (none, b)
from_slices allow_split b (too_long hold) ct = (none, long_data allow_split hold b)

unfoldable pub read_slices : ℕ → ℕ → Bool → Bufs → Option Slices × Bufs
unfolding slice_of
read_slices da_len ct_len allow_split b =
    from_slices allow_split b (slice_of data_hold da_len b.recv.da)
      (slice_of ctrl_hold ct_len b.recv.ct)
