-- ===== src/Phasesync/Position.antt =====
-- crates/phasesync/src/position.rs and position/carrying_add.rs.
--
-- `WrappingU6` and `WrappingUsize<MAX>` are numbers. A `Sub` of theirs is a subtraction that may
-- not underflow; on ℕ it stops at 0 there. Sums of two chunk indices are taken not to exceed a
-- `usize`.
pub mod Carry
pub mod Flat
use ecs_compositor.Prelude.{
  ℕ, ◌+◌, ◌-◌, ◌*◌, ◌/◌, ◌%◌, ◌^◌, bit_and, min, Bool, true, false, Option, none, some, ltb,
  if◌then◌else◌,
}

-- What the default methods of the trait `CarryingAdd` use: `MAX` and `Add` (`ZERO` and `ONE` are
-- 0 and 1 in both types).
pub record Wrapping : Type 0 where
  pub largest : ℕ
  pub add : ℕ → ℕ → ℕ

-- `checked_sub`.
unfoldable pub checked_sub : ℕ → ℕ → Option ℕ
checked_sub a b = if ltb a b then none else some (a - b)

abbrev pub carry_int : Bool → ℕ
carry_int carry = if carry then 1 else 0

module _ (w : Wrapping) where
  -- The default `carrying_add`.
  unfoldable pub carrying_add : ℕ → ℕ → Bool → ℕ × Bool
  unfolding checked_sub
  carrying_add lhs rhs carry =
      let reversed = w.largest - lhs in
      elim (checked_sub reversed rhs) [
        | some d ↦
            let val = w.largest - d in
            if ltb val w.largest
            then (w.add val (carry_int carry), false)
            else if carry
            then (0, true)
            else (w.add val (carry_int carry), false)
        | none ↦ (w.add (rhs - reversed - 1) (carry_int carry), true)
      ]

  -- The default `borrowing_sub`.
  unfoldable pub borrowing_sub : ℕ → ℕ → Bool → ℕ × Bool
  unfolding checked_sub
  borrowing_sub lhs rhs borrow = elim (checked_sub lhs rhs) [
    | some val ↦
        if ltb 0 val
        then (val - carry_int borrow, false)
        else if borrow
        then (0, true)
        else (val - carry_int borrow, false)
    | none ↦ (w.add (w.add (w.largest - rhs) lhs) 1 - carry_int borrow, true)
  ]

-- `WrappingU6::new` of a `u8` sum.
unfoldable pub new_u6 : ℕ → ℕ
new_u6 val = bit_and val (2 ^ 6 - 1)

abbrev pub u6 : Wrapping
u6 = record { largest = 2 ^ 6 - 1; add = λ a b. new_u6 ((a + b) % 2 ^ 8) }

-- `WrappingUsize::new`.
unfoldable pub new_usize : ℕ → ℕ → ℕ
new_usize largest val = min val largest

abbrev pub usize : ℕ → Wrapping
usize largest = record { largest = largest; add = λ a b. new_usize largest (a + b) }

pub record Pos : Type 0 where
  pub chunk : ℕ
  pub index : ℕ

module _ (largest : ℕ) where
  -- `Pos::from_flat_index`.
  unfoldable pub from_flat_index : ℕ → Pos
  unfolding new_u6 new_usize
  from_flat_index flat = record {
    chunk = new_usize largest (flat / 2 ^ 6);
    index = new_u6 (bit_and flat (2 ^ 6 - 1) % 2 ^ 8);
  }

  -- `CarryingAdd for Pos`.
  unfoldable pub add_pos : Pos → Pos → Bool → Pos × Bool
  add_pos p q carry =
      let (index, overflow) = carrying_add u6 p.index q.index carry in
      let (chunk, overflow') = carrying_add (usize largest) p.chunk q.chunk overflow in
      (record { chunk = chunk; index = index }, overflow')

  unfoldable pub sub_pos : Pos → Pos → Bool → Pos × Bool
  sub_pos p q borrow =
      let (index, overflow) = borrowing_sub u6 p.index q.index borrow in
      let (chunk, overflow') = borrowing_sub (usize largest) p.chunk q.chunk overflow in
      (record { chunk = chunk; index = index }, overflow')

  unfoldable pub checked_sub_pos : Pos → Pos → Option Pos
  checked_sub_pos p q = let (val, borrow) = sub_pos p q false in if borrow then some val else none

  -- `Pos::MAX`.
  abbrev pub max_pos : Pos
  max_pos = record { chunk = largest; index = 1 }

  -- `Add<WrappingUsize>` and `Sub<WrappingUsize>` for `Pos`.
  unfoldable pub add_index : Pos → ℕ → Pos
  add_index p flat = (add_pos p (from_flat_index flat) false).0

  unfoldable pub sub_index : Pos → ℕ → Pos
  sub_index p flat = (sub_pos p (from_flat_index flat) false).0
