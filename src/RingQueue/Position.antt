-- ===== src/RingQueue/Position.antt =====
-- crates/ring-queue/src/lib.rs: `WaylandPos` and its packed form. A field `data` of the code is the
-- field `content`. Also the `slot` of crates/ring-queue/src/reader.rs with the widths of its
-- `BitField` (crates/ring-queue/src/bitfield.rs).
pub mod Pack
use ecs_compositor.Prelude.{ℕ, ◌+◌, ◌-◌, ◌%◌, ◌^◌, bit_and, bit_or}
use ecs_compositor.Prelude.Bits.{◌<<<◌, ◌>>>◌}

pub record WaylandPos : Type 0 where
  pub content : ℕ
  pub ctrl : ℕ
  pub slot : ℕ

-- `from_u64`.
unfoldable pub from_u64 : ℕ → WaylandPos
from_u64 val = record {
  content = bit_and (val >>> 32) (2 ^ 18 - 1) % 2 ^ 32;
  ctrl = bit_and (val >>> 16) (2 ^ 10 - 1) % 2 ^ 16;
  slot = bit_and val (2 ^ 15 - 1) % 2 ^ 16;
}

-- `into_64`.
unfoldable pub into_64 : WaylandPos → ℕ
into_64 p =
    bit_or (bit_or (bit_and p.content (2 ^ 18 - 1) <<< 32) (bit_and p.ctrl (2 ^ 10 - 1) <<< 16))
      (bit_and p.slot (2 ^ 15 - 1))

-- `slot::WIDTH`, `MASK` and `CAP` of a `BitField<WIDTH, _>`.
abbrev pub cap : ℕ → ℕ
cap width = 2 ^ width

abbrev pub slot_width : ℕ
slot_width = 15

-- `slot::UPPER_CAP`.
abbrev pub upper_cap : ℕ
upper_cap = 2 ^ (slot_width - 6)

-- `slot::new`, in 16 bits.
unfoldable pub new_slot : ℕ → ℕ → ℕ
new_slot upper lower =
    bit_or (bit_and upper (2 ^ (slot_width - 6) - 1) <<< 6 % 2 ^ 16) (bit_and lower (2 ^ 6 - 1))

abbrev pub lower_of : ℕ → ℕ
lower_of s = bit_and s (2 ^ 6 - 1)

abbrev pub upper_of : ℕ → ℕ
upper_of s = s >>> 6

-- `slot::get`.
unfoldable pub get_slot : ℕ → ℕ × ℕ
get_slot s = (upper_of s, lower_of s)
