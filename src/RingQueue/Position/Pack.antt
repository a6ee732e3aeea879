-- ===== src/RingQueue/Position/Pack.antt =====
-- Packing and unpacking positions and slots.
use ecs_compositor.Prelude.{
  ℕ, ◌+◌, ◌-◌, ◌*◌, ◌/◌, ◌%◌, ◌^◌, ◌<◌, ◌≡◌, ap₂, ◌∙◌, arith, bit_and, bit_or,
}
use ecs_compositor.Prelude.Bits.{◌<<<◌, bit_and_mask, bit_or_fields}
use ecs_compositor.RingQueue.Position.{WaylandPos, from_u64, into_64, new_slot, get_slot}

abbrev pub IsPacked : WaylandPos → Type 0
IsPacked p = (p.content < 2 ^ 18) × (p.ctrl < 2 ^ 10) × (p.slot < 2 ^ 15)

-- The packed form as a sum of fields.
into_64_lem :
    (p : WaylandPos)
    → into_64 p ≡ (p.content % 2 ^ 18 * 2 ^ 16 + p.ctrl % 2 ^ 10) * 2 ^ 16 + p.slot % 2 ^ 15
unfolding into_64
into_64_lem p =
    ap₂ bit_or outer (bit_and_mask 15 p.slot)
    ∙ bit_or_fields 16 (p.content % 2 ^ 18 * 2 ^ 16 + p.ctrl % 2 ^ 10) (p.slot % 2 ^ 15)
        (omega arith)
  where
    outer :
        bit_or (bit_and p.content (2 ^ 18 - 1) <<< 32) (bit_and p.ctrl (2 ^ 10 - 1) <<< 16)
        ≡ (p.content % 2 ^ 18 * 2 ^ 16 + p.ctrl % 2 ^ 10) * 2 ^ 16
    outer =
        ap₂ (λ c t. bit_or (c <<< 32) (t <<< 16)) (bit_and_mask 18 p.content)
          (bit_and_mask 10 p.ctrl)
        ∙ bit_or_fields 32 (p.content % 2 ^ 18) (p.ctrl % 2 ^ 10 * 2 ^ 16) (omega arith)
        ∙ omega arith

-- A position of 18, 10 and 15 bits is unpacked as what it was.
pub from_u64-into_64 : (p : WaylandPos) → IsPacked p → from_u64 (into_64 p) ≡ p
unfolding from_u64
from_u64-into_64 p v = ground (
  arith,
  into_64_lem p,
  bit_and_mask 18 (into_64 p / 2 ^ 32),
  bit_and_mask 10 (into_64 p / 2 ^ 16),
  bit_and_mask 15 (into_64 p),
)

-- A number is unpacked to a position of 18, 10 and 15 bits, and packing that gives the number
-- without what stands outside of the fields.
pub into_64-from_u64 :
    (val : ℕ)
    → IsPacked (from_u64 val)
      × (into_64 (from_u64 val)
          ≡ (val / 2 ^ 32 % 2 ^ 18 * 2 ^ 16 + val / 2 ^ 16 % 2 ^ 10) * 2 ^ 16 + val % 2 ^ 15)
unfolding from_u64
into_64-from_u64 val = ground (
  arith,
  into_64_lem (from_u64 val),
  bit_and_mask 18 (val / 2 ^ 32),
  bit_and_mask 10 (val / 2 ^ 16),
  bit_and_mask 15 val,
)

-- A slot of a chunk and a bit gives both back, reduced to 9 and to 6 bits.
pub get_slot-new_slot :
    (upper lower : ℕ) → get_slot (new_slot upper lower) ≡ (upper % 2 ^ 9, lower % 2 ^ 6)
unfolding get_slot new_slot
get_slot-new_slot upper lower = ground (
  arith,
  bit_and_mask 9 upper,
  bit_and_mask 6 lower,
  bit_or_fields 6 (upper % 2 ^ 9) (lower % 2 ^ 6) (omega arith),
  bit_and_mask 6 (new_slot upper lower),
)
