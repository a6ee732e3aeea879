-- ===== src/Phasesync/Position/Carry.antt =====
-- The default methods of `CarryingAdd` against addition and subtraction with carry.
use ecs_compositor.Prelude.{
  ℕ, ◌+◌, ◌-◌, ◌%◌, ◌≤◌, ◌≡◌, ◌≢◌, ◌⊎◌, arith, Bool, true, false, if◌then◌else◌,
}
use ecs_compositor.Prelude.Bits.{bit_and_mask}
use ecs_compositor.Phasesync.Position.{
  Wrapping, carry_int, carrying_add, borrowing_sub, u6, usize, new_u6, new_usize,
}

-- `Add` is exact where the sum is in range.
abbrev pub IsExact : Wrapping → Type 0
IsExact w = (a b : ℕ) → a + b ≤ w.largest → w.add a b ≡ a + b

-- The weight of a carry out of a number of the type.
abbrev pub weight : Wrapping → Bool → ℕ
weight w carry = if carry then w.largest + 1 else 0

module _ (w : Wrapping) (exact : IsExact w) where
  -- The result and the carry out of `carrying_add` are those of the sum with carry.
  pub carrying_add_lem :
      (lhs rhs : ℕ) (carry : Bool)
      → lhs ≤ w.largest
      → rhs ≤ w.largest
      → let (sum, out) = carrying_add w lhs rhs carry in
        (sum + weight w out ≡ lhs + rhs + carry_int carry) × (sum ≤ w.largest)
  unfolding carrying_add
  carrying_add_lem lhs rhs true p q = ground (
    arith,
    exact (lhs + rhs) 1,
    exact (rhs - (w.largest - lhs) - 1) 1,
    exact (w.largest - (w.largest - lhs - rhs)) 1,
  )
  carrying_add_lem lhs rhs false p q =
      ground (
        arith,
        exact (rhs - (w.largest - lhs) - 1) 0,
        exact (w.largest - (w.largest - lhs - rhs)) 0,
      )

  -- `borrowing_sub` is subtraction with borrow, but for equal numbers with a borrow.
  pub borrowing_sub_lem :
      (lhs rhs : ℕ) (borrow : Bool)
      → lhs ≤ w.largest
      → rhs ≤ w.largest
      → (lhs ≢ rhs) ⊎ (borrow ≡ false)
      → let (dif, out) = borrowing_sub w lhs rhs borrow in
        (dif + rhs + carry_int borrow ≡ lhs + weight w out) × (dif ≤ w.largest)
  unfolding borrowing_sub
  borrowing_sub_lem lhs rhs true p q ne =
      ground (arith, exact (w.largest - rhs) lhs, exact (w.largest - rhs + lhs) 1)
  borrowing_sub_lem lhs rhs false p q ne =
      ground (arith, exact (w.largest - rhs) lhs, exact (w.largest - rhs + lhs) 1)

-- A number less itself and a borrow wraps to the largest number; `borrowing_sub` answers 0.
pub borrowing_sub_self : (w : Wrapping) (n : ℕ) → borrowing_sub w n n true ≡ (0, true)
unfolding borrowing_sub
borrowing_sub_self w n = ground arith

pub u6-IsExact : IsExact u6
unfolding new_u6
u6-IsExact a b h = ground (arith, bit_and_mask 6 ((a + b) % 256))

pub usize-IsExact : (largest : ℕ) → IsExact (usize largest)
unfolding new_usize
usize-IsExact largest a b h = omega arith
