-- ===== src/RingQueue/Reader.antt =====
-- crates/ring-queue/src/reader.rs: masks of ranges of bits, the search in a chunk and the update
-- of a chunk, and `wrapping_add!` of crates/ring-queue/src/helpers.rs with its default arms.
--
-- `bit_mask_range` ends in the same `match` as the function of crates/phasesync, and
-- `find_first_one` is its `lowest_one`; they are shared. The memory is the list of what it holds at
-- each exchange.
pub mod Bounds
pub mod Chunk
pub mod Wrap
use ecs_compositor.Prelude.{
  ℕ, ◌+◌, ◌-◌, ◌^◌, bit_and, bit_or, List, [], ◌∷◌, Bool, true, false, Option, none, some, ltb,
  ◌==◌, if◌then◌else◌,
}
use ecs_compositor.Phasesync.Helpers.{
  u64_max, mask_between, lowest_one, Outcome, updated, refused, looping,
}

-- `std::ops::Bound<u32>`.
pub data Bound : Type 0 where
  included : ℕ → Bound
  excluded : ℕ → Bound
  unbounded : Bound

abbrev pub lower_bound : Bound → ℕ
lower_bound (included val) = val
lower_bound (excluded val) = val + 1
lower_bound unbounded = 0

abbrev pub upper_bound : Bound → ℕ
upper_bound (excluded val) = val
upper_bound (included val) = val + 1
upper_bound unbounded = 64

-- `bit_mask_range`.
unfoldable pub bit_mask_range : Bound → Bound → ℕ
bit_mask_range start end = mask_between (lower_bound start) (upper_bound end)

-- `find_first_one`.
abbrev pub find_first_one : ℕ → Option ℕ
find_first_one val = lowest_one val

-- `loop_until_success`, from the expected value `val`.
unfoldable pub loop_until_success : (ℕ → ℕ) → (ℕ → Bool) → ℕ → List ℕ → Outcome
loop_until_success f should_continue val [] = looping val
loop_until_success f should_continue val (memory ∷ later) =
    let again = loop_until_success f should_continue memory later in
    if memory == val
    then updated val (f val)
    else if should_continue memory
    then again
    else refused memory

-- What `handle_chunk` writes where it has found the bit `first_one`, with the precedence that the
-- code has (`&` before `|`), and where it has found none.
abbrev pub select : Bound → ℕ → ℕ → ℕ
select start first_one val =
    bit_or val (bit_and (bit_mask_range start (excluded first_one)) (u64_max - 2 ^ first_one))

abbrev pub fill : Bound → Bound → ℕ → ℕ
fill start end val = bit_or val (bit_mask_range start end)

-- `handle_chunk` where no other thread changes the chunk: its first exchange succeeds. The result
-- and what the chunk holds then.
unfoldable pub handle_chunk : Bound → Bound → ℕ → Bool × ℕ
handle_chunk start end val = elim (find_first_one (bit_and val (bit_mask_range start end))) [
  | some first_one ↦ (true, select start first_one val)
  | none ↦ (false, fill start end val)
]

-- `assign_add_wrap::<WRAP>`.
unfoldable pub assign_add_wrap : ℕ → ℕ → ℕ → ℕ
assign_add_wrap wrap s add = let diff = wrap - s in if ltb add diff then s + add else add - diff

-- `wrapping_add!(lhs + rhs; lower..upper)` with the default arms.
unfoldable pub wrapping_add : ℕ → ℕ → ℕ → ℕ → ℕ
wrapping_add lhs rhs lower upper =
    let diff = upper - lhs in if ltb rhs diff then lhs + rhs else lower + rhs - diff
