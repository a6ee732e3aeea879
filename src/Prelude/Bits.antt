-- ===== src/Prelude/Bits.antt =====
-- `&`, `|` and shifts of machine words as arithmetic, for every width, and the digit test.
use Prim.Native.Nat.{ℕ, zero, suc, ◌+◌, ◌-◌, ◌*◌, ◌/◌, ◌%◌, ◌^◌, ◌≤◌, ◌<◌, min, max}
use Prim.Native.Nat.{bit_and, bit_or, digits, bitwise, bit_and-bitwise, bit_or-bitwise}
use mathlib.Core.Path.{◌≡◌, refl, ap}
use native.Mathlib.Nat.{pow-suc, one-le-pow, div-add-mod, div-div-eq-div-mul}
use native.Mathlib.Omega.{arith}

infixl 75 ◌<<<◌ ◌>>>◌
abbrev pub ◌<<<◌ : ℕ → ℕ → ℕ
x <<< k = x * 2 ^ k

abbrev pub ◌>>>◌ : ℕ → ℕ → ℕ
x >>> k = x / 2 ^ k

-- How many digits the recursion may look at is no matter once it is enough.
module _ (z : ℕ → ℕ) (f : ℕ → ℕ → ℕ) where
  any_count : (c d x y : ℕ) → x ≤ c → x ≤ d → digits z f c x y ≡ digits z f d x y
  any_count zero zero x y p q = refl
  any_count (suc c) zero zero y p q = refl
  any_count (suc c) zero (suc x) y p q = absurd (omega arith)
  any_count zero (suc d) zero y p q = refl
  any_count zero (suc d) (suc x) y p q = absurd (omega arith)
  any_count (suc c) (suc d) zero y p q = refl
  any_count (suc c) (suc d) (suc x) y p q =
      ap (λ (t : ℕ). t * 2 + f (suc x % 2) (y % 2))
        (any_count c d (suc x / 2) (y / 2) (omega arith) (omega arith))

  lowest_digit :
      (x y : ℕ)
      → bitwise z f (suc x) y ≡ bitwise z f (suc x / 2) (y / 2) * 2 + f (suc x % 2) (y % 2)
  lowest_digit x y =
      ap (λ (t : ℕ). t * 2 + f (suc x % 2) (y % 2))
        (any_count x (suc x / 2) (suc x / 2) (y / 2) (omega arith) (omega arith))

pub bit_and-halves : (x y : ℕ) → bit_and x y ≡ bit_and (x / 2) (y / 2) * 2 + min (x % 2) (y % 2)
bit_and-halves zero y = omega (arith, bit_and-bitwise 0 y, bit_and-bitwise 0 (y / 2))
bit_and-halves (suc x) y = simp bit_and-bitwise (lowest_digit (λ b. 0) min x y)

pub bit_or-halves : (x y : ℕ) → bit_or x y ≡ bit_or (x / 2) (y / 2) * 2 + max (x % 2) (y % 2)
bit_or-halves zero y = simp bit_or-bitwise (omega arith)
bit_or-halves (suc x) y = simp bit_or-bitwise (lowest_digit (λ b. b) max x y)

-- A word of `k` digits against one that is zero: fuel on the width.
and_zero : (k x : ℕ) → x ≤ k → bit_and x 0 ≡ 0
and_zero k zero h = refl
and_zero zero (suc x) h = absurd (omega arith)
and_zero (suc k) (suc x) h =
    omega (arith, bit_and-halves (suc x) 0, and_zero k (suc x / 2) (omega arith))

pub bit_and-zero : (x : ℕ) → bit_and x 0 ≡ 0
bit_and-zero x = and_zero x x (omega arith)

or_zero : (k x : ℕ) → x ≤ k → bit_or x 0 ≡ x
or_zero k zero h = refl
or_zero zero (suc x) h = absurd (omega arith)
or_zero (suc k) (suc x) h =
    omega (arith, bit_or-halves (suc x) 0, or_zero k (suc x / 2) (omega arith))

pub bit_or-zero : (x : ℕ) → bit_or x 0 ≡ x
bit_or-zero x = or_zero x x (omega arith)

-- The lowest digit apart, a remainder by a power of two is one of the half.
mod_halves : (k x : ℕ) → x % 2 ^ suc k ≡ x / 2 % 2 ^ k * 2 + x % 2
mod_halves k x =
    let e : 2 ^ suc k ≡ 2 * 2 ^ k = omega (arith, pow-suc 2 k) in
    rw e (
      omega (
        arith,
        ap (λ (t : ℕ). 2 ^ k * t) (div-div-eq-div-mul x 2 (2 ^ k)),
        div-add-mod x (2 * 2 ^ k),
        div-add-mod (x / 2) (2 ^ k),
      ))

-- `x & ((1 << k) - 1)` is the remainder by `2 ^ k`.
pub bit_and_mask : (k x : ℕ) → bit_and x (2 ^ k - 1) ≡ x % 2 ^ k
bit_and_mask zero x = omega (arith, bit_and-zero x)
bit_and_mask (suc k) x = ground (
  arith,
  pow-suc 2 k,
  one-le-pow k 2,
  bit_and-halves x (2 ^ suc k - 1),
  bit_and_mask k (x / 2),
  mod_halves k x,
)

-- `(q << k) | r` is a sum where `r` has at most `k` digits.
pub bit_or_fields : (k q r : ℕ) → r < 2 ^ k → bit_or (q <<< k) r ≡ q * 2 ^ k + r
bit_or_fields zero q r h = ground (arith, bit_or-zero q)
bit_or_fields (suc k) q r h = ground (
  arith,
  bit_or-halves (q * 2 ^ suc k) r,
  ap (λ (t : ℕ). q * t) (pow-suc 2 k),
  pow-suc 2 k,
  bit_or_fields k q (r / 2) (omega arith),
)
