-- ===== src/Phasesync/Helpers.antt =====
-- crates/phasesync/src/helpers.rs: masks of bits in a `u64`, the search for a bit, and the loop
-- around `compare_exchange`.
pub mod Mask
pub mod Search
pub mod Exchange
use ecs_compositor.Prelude.{
  ℕ, zero, suc, ◌+◌, ◌-◌, ◌/◌, ◌^◌, List, [], ◌∷◌, Bool, true, false, Option, none, some, ltb, leb,
  ◌==◌, if◌then◌else◌,
}

abbrev pub u64_max : ℕ
u64_max = 2 ^ 64 - 1

-- The `match` of `bitmask_range`, on the bounds with the upper one excluded.
unfoldable pub mask_between : ℕ → ℕ → ℕ
mask_between l u =
    if leb u l
    then 0
    else if leb 64 l
    then 0
    else if leb 64 u
    then u64_max - (2 ^ l - 1)
    else 2 ^ u - 2 ^ l

-- `bitmask_range`; `none` is the panic of an `assert!`.
unfoldable pub bitmask_range : ℕ → ℕ → Option ℕ
bitmask_range lower upper =
    if leb lower 63
    then (if leb upper 63 then some (mask_between lower (upper + 1)) else none)
    else none

-- `u64::leading_zeros`, from the number of digits.
unfoldable pub bit_length : ℕ → ℕ → ℕ
bit_length zero x = 0
bit_length (suc width) x = let rest = bit_length width (x / 2) in if x == 0 then 0 else suc rest

abbrev pub leading_zeros : ℕ → ℕ
leading_zeros x = 64 - bit_length 64 x

-- `lowest_one`.
unfoldable pub lowest_one : ℕ → Option ℕ
lowest_one val = if val == 0 then none else some (64 - 1 - leading_zeros val)

-- How `try_while_mut` ends: it has replaced `old` by `new`, or `cond` was false for `val`; it is
-- still looping behind the exchanges of the run.
pub data Outcome : Type 0 where
  updated : (old new : ℕ) → Outcome
  refused : (val : ℕ) → Outcome
  looping : (val : ℕ) → Outcome

-- `try_while_mut`; the list has what the memory holds at each `compare_exchange`, as the other
-- threads leave it.
unfoldable pub try_while_mut : (ℕ → Bool) → (ℕ → ℕ) → ℕ → List ℕ → Outcome
try_while_mut cond f val [] = if cond val then looping val else refused val
try_while_mut cond f val (memory ∷ later) =
    let again = try_while_mut cond f memory later in
    if cond val then (if memory == val then updated val (f val) else again) else refused val

-- The `bool` that `try_while` returns, once it does.
abbrev pub returned : Outcome → Option Bool
returned (updated old new) = some true
returned (refused val) = some false
returned (looping val) = none
