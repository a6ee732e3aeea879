-- ===== src/Prelude/Int.antt =====
-- Signed integers, and the bit patterns of `i32`.
use Prim.Native.Nat.{ℕ, ◌-◌, ◌^◌, ◌<◌}
use mathlib.Core.Path.{◌≡◌}
use native.Mathlib.Omega.{arith}
use ecs_compositor.Prelude.Tests.{ltb, if◌then◌else◌}

-- `negsuc n` is -(n + 1).
pub data ℤ : Type 0 where
  pos : ℕ → ℤ
  negsuc : ℕ → ℤ

-- The values of an `i32`.
abbrev pub IsI32 : ℤ → Type 0
IsI32 (pos n) = n < 2 ^ 31
IsI32 (negsuc n) = n < 2 ^ 31

-- The bit pattern of an `i32` (two's complement), and the `i32` of a bit pattern.
unfoldable pub to_bits : ℤ → ℕ
to_bits (pos n) = n
to_bits (negsuc n) = 2 ^ 32 - 1 - n

unfoldable pub from_bits : ℕ → ℤ
from_bits w = if ltb w (2 ^ 31) then pos w else negsuc (2 ^ 32 - 1 - w)

pub from_bits-to_bits : (i : ℤ) → IsI32 i → from_bits (to_bits i) ≡ i
unfolding from_bits to_bits
from_bits-to_bits (pos n) h = ground arith
from_bits-to_bits (negsuc n) h = ground arith

pub to_bits-from_bits : (w : ℕ) → w < 2 ^ 32 → to_bits (from_bits w) ≡ w
unfolding from_bits to_bits
to_bits-from_bits w h = ground arith

pub to_bits-lt : (i : ℤ) → IsI32 i → to_bits i < 2 ^ 32
unfolding to_bits
to_bits-lt (pos n) h = omega arith
to_bits-lt (negsuc n) h = omega arith

pub from_bits-IsI32 : (w : ℕ) → w < 2 ^ 32 → IsI32 (from_bits w)
unfolding from_bits
from_bits-IsI32 w h = ground arith
