-- ===== src/Core/Int/Fixed.antt =====
-- crates/core/src/primitives/inner/fixed.rs: the conversions of a `fixed` from and to an `i32`.
-- (Those from and to an `f64` are not modelled.)
use ecs_compositor.Prelude.{ℕ, zero, suc, ◌+◌, ◌*◌, ◌/◌, ◌%◌, ◌^◌, ◌<◌, ◌≡◌, ap, ◌∙◌, arith}
use ecs_compositor.Prelude.Int.{ℤ, pos, negsuc, to_bits, from_bits}

abbrev pub minus : ℕ → ℤ
minus zero = pos 0
minus (suc n) = negsuc n

-- `self.0 / 256`, which rounds toward zero.
unfoldable pub to_i32 : ℤ → ℤ
to_i32 (pos n) = pos (n / 256)
to_i32 (negsuc n) = minus (suc n / 256)

-- `i * 256`, which wraps in a build without overflow checks.
unfoldable pub from_i32 : ℤ → ℤ
from_i32 i = from_bits (to_bits i * 256 % 2 ^ 32)

-- The integers with 24 bits.
abbrev pub IsI24 : ℤ → Type 0
IsI24 (pos n) = n < 2 ^ 23
IsI24 (negsuc n) = n < 2 ^ 23

from_i32-pos : (n : ℕ) → n < 2 ^ 23 → from_i32 (pos n) ≡ pos (n * 256)
unfolding from_i32 from_bits to_bits
from_i32-pos n h = ground arith

from_i32-negsuc : (n : ℕ) → n < 2 ^ 23 → from_i32 (negsuc n) ≡ negsuc (n * 256 + 255)
unfolding from_i32 from_bits to_bits
from_i32-negsuc n h = ground arith

-- An integer of 24 bits survives the way into a `fixed` and back.
pub to_i32-from_i32 : (i : ℤ) → IsI24 i → to_i32 (from_i32 i) ≡ i
unfolding to_i32
to_i32-from_i32 (pos n) h = ap to_i32 (from_i32-pos n h) ∙ ap pos (omega arith)
to_i32-from_i32 (negsuc n) h = ap to_i32 (from_i32-negsuc n h) ∙ ap minus whole
  where
    whole : suc (n * 256 + 255) / 256 ≡ suc n
    whole = omega arith
