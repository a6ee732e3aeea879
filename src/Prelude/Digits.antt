-- ===== src/Prelude/Digits.antt =====
-- The digits of binary numbers: what `&`, `|` and `!` do to each of them.
use Prim.Native.Nat.{ℕ, zero, suc, ◌-◌, ◌/◌, ◌%◌, ◌^◌, ◌≤◌, ◌<◌, min, max, bit_and, bit_or}
use mathlib.Core.Path.{◌≡◌, refl, ap, ◌∙◌}
use native.Mathlib.Nat.{pow-suc, one-le-pow}
use native.Mathlib.Omega.{arith}
use ecs_compositor.Prelude.Bits.{bit_and-halves, bit_or-halves}

-- The bit `i` of a number.
abbrev pub bit_at : ℕ → ℕ → ℕ
bit_at zero x = x % 2
bit_at (suc i) x = bit_at i (x / 2)

pub bit_at-zero : (i : ℕ) → bit_at i 0 ≡ 0
bit_at-zero zero = refl
bit_at-zero (suc i) = bit_at-zero i

pub bit_at-le : (i x : ℕ) → bit_at i x ≤ 1
bit_at-le zero x = omega arith
bit_at-le (suc i) x = bit_at-le i (x / 2)

pub bit_at-and : (i x y : ℕ) → bit_at i (bit_and x y) ≡ min (bit_at i x) (bit_at i y)
bit_at-and zero x y = omega (arith, bit_and-halves x y)
bit_at-and (suc i) x y =
    ap (bit_at i) {x = bit_and x y / 2} {y = bit_and (x / 2) (y / 2)}
      (omega (arith, bit_and-halves x y))
    ∙ bit_at-and i (x / 2) (y / 2)

pub bit_at-or : (i x y : ℕ) → bit_at i (bit_or x y) ≡ max (bit_at i x) (bit_at i y)
bit_at-or zero x y = omega (arith, bit_or-halves x y)
bit_at-or (suc i) x y =
    ap (bit_at i) {x = bit_or x y / 2} {y = bit_or (x / 2) (y / 2)}
      (omega (arith, bit_or-halves x y))
    ∙ bit_at-or i (x / 2) (y / 2)

-- The complement of a word of `w` digits.
pub bit_at-not : (w i x : ℕ) → x < 2 ^ w → i < w → bit_at i (2 ^ w - 1 - x) ≡ 1 - bit_at i x
bit_at-not zero i x h l = absurd (omega arith)
bit_at-not (suc w) zero x h l = omega (arith, pow-suc 2 w, one-le-pow w 2)
bit_at-not (suc w) (suc i) x h l =
    ap (bit_at i) {x = (2 ^ suc w - 1 - x) / 2} {y = 2 ^ w - 1 - x / 2}
      (omega (arith, pow-suc 2 w, one-le-pow w 2))
    ∙ bit_at-not w i (x / 2) (omega (arith, pow-suc 2 w)) (omega arith)
