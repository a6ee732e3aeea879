-- ===== src/WaylandTokio/Span.antt =====
-- crates/wayland-tokio/src/buf/span.rs: which indices of a ring buffer are in use. The pointer to
-- the buffer is left out: a slice of it is the range of its indices.
pub mod Queue
pub mod Consume
pub mod Produce
use ecs_compositor.Prelude.{
  ℕ, ◌+◌, ◌-◌, Option, none, some, ltb, leb, ◌==◌, if◌then◌else◌, Bool, true, false, not, ◌&&◌,
}

pub record Span : Type 0 where
  pub free : ℕ
  pub next : ℕ
  pub hold : ℕ

-- `Range<usize>`.
pub record Range : Type 0 where
  pub start : ℕ
  pub end : ℕ

abbrev pub range : ℕ → ℕ → Range
range a b = record { start = a; end = b }

-- `Bufs`; `no_buf` is `Bufs::None`.
pub data Bufs : Type 0 where
  no_buf : Bufs
  one : Range → Bufs
  two : (first second : Range) → Bufs

-- The function `free_space`.
unfoldable pub free_space : ℕ → ℕ → ℕ → Bufs
free_space free next hold =
    if leb free next
    then (if free == next then no_buf else one (range free next))
    else two (range free hold) (range 0 next)

-- `get_ranges`.
abbrev pub get_ranges : Span → Bufs
get_ranges s = free_space s.free s.next s.hold

-- `read_slice`: the range of the slice.
abbrev first_slice : ℕ → Range → Option Range
first_slice len r = if ltb (r.end - r.start) len then none else some (range r.start (r.start + len))

abbrev slice_of : ℕ → Bufs → Option Range
slice_of len no_buf = none
slice_of len (one r) = first_slice len r
slice_of len (two r _) = first_slice len r

unfoldable pub read_slice : Span → ℕ → Option Range
read_slice s len = slice_of len (free_space s.free s.next s.hold)

-- `consume`.
unfoldable pub consume : Span → ℕ → Span
consume s count =
    if s.free + count == s.hold
    then record { free = 0; next = s.next; hold = 0 }
    else record { free = s.free + count; next = s.next; hold = s.hold }

-- `produce`.
unfoldable pub produce : Span → ℕ → Span
produce s count =
    if not (s.hold == 0) && leb s.hold (s.next + count)
    then record { free = s.free; next = s.next + count - s.hold; hold = s.hold }
    else record { free = s.free; next = s.next + count; hold = s.hold }
