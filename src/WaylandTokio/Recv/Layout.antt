-- ===== src/WaylandTokio/Recv/Layout.antt =====
-- `gen_bitfield!` of crates/wayland-tokio/src/buf/macros.rs: where the fields of a bit field stand.
-- (The fields are read and written by the crate `bitfield`.)
pub mod Packed
use ecs_compositor.Prelude.{
  ℕ, zero, suc, ◌+◌, ◌-◌, ◌*◌, ◌/◌, ◌^◌, List, [], ◌∷◌, Option, none, some, ltb, leb, ◌==◌, ◌&&◌,
  not, if◌then◌else◌,
}

pub record Bitfield : Type 0 where
  pub lsb : ℕ
  pub msb : ℕ
  pub len : ℕ

-- `usize::ilog2` of a number that is not 0, for as many halvings as a `usize` has bits.
unfoldable pub halvings : ℕ → ℕ → ℕ
halvings zero n = 0
halvings (suc rounds) n = let rest = halvings rounds (n / 2) in if ltb n 2 then 0 else suc rest

abbrev pub ilog2 : ℕ → ℕ
ilog2 n = halvings 64 n

-- The type of a field, by its number of bits, and its size.
pub record Declared : Type 0 where
  pub bits : ℕ
  pub size : ℕ

abbrev pub bitfield : ℕ → ℕ → Bitfield
bitfield offset len = record { lsb = offset; msb = offset + len - 1; len = len }

abbrev pub in_front : Bitfield → Option (List Bitfield) → Option (List Bitfield)
in_front f none = none
in_front f (some fs) = some (f ∷ fs)

-- `FIELDS`; `none` is an error when the constant is computed: an `assert!`, the logarithm of 0, or a
-- field without bits at the start.
unfoldable pub layout : ℕ → List Declared → Option (List Bitfield)
layout offset [] = some []
layout offset (d ∷ ds) =
    let len = ilog2 d.size in
    let rest = layout (offset + len) ds in
    if d.size == 2 ^ len && not (offset + len == 0) && leb offset 64 && leb len d.bits
    then in_front (bitfield offset len) rest
    else none

-- The fields of `Info`: the chunk and the index of a slot, and the positions of data and
-- descriptors.
abbrev pub info_fields : List Declared
info_fields =
    record { bits = 32; size = 2 ^ 16 * 4 / 8 / 64 }
    ∷ record { bits = 8; size = 64 }
    ∷ record { bits = 32; size = 2 ^ 16 * 4 }
    ∷ record { bits = 16; size = 1024 }
    ∷ []
