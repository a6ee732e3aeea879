-- ===== src/Phasesync/FreeSlots.antt =====
-- crates/phasesync/src/lib.rs: the fast path, the reset of the slow path and the search, in a run
-- where no other thread changes the chunks: every exchange then meets the value that was loaded.
-- The items of the chunk iterator are an argument, of chunks that the array has (the code panics on
-- another index).
pub mod Fast
pub mod Free
pub mod Search
use ecs_compositor.Prelude.{
  ℕ, zero, suc, ◌+◌, ◌-◌, ◌^◌, ◌<◌, bit_and, bit_or, List, [], ◌∷◌, Bool, true, false, Option, none,
  some, ltb, ◌==◌, if◌then◌else◌, get_or, set,
}
use ecs_compositor.Prelude.Bits.{◌<<<◌, ◌>>>◌}
use ecs_compositor.Phasesync.Position.{Pos}
use ecs_compositor.Phasesync.Helpers.{
  u64_max, mask_between, lowest_one, try_while_mut, Outcome, updated, refused, looping,
}
use ecs_compositor.Phasesync.ChunkIter.{ChunkInfo}

-- The array of chunks.
abbrev pub Chunks : Type 0
Chunks = List ℕ

-- `!mask` and `1 << index` in 64 bits.
abbrev pub complement : ℕ → ℕ
complement mask = u64_max - mask

abbrev pub bit : ℕ → ℕ
bit index = 1 <<< index

-- `ChunkInfo::mask` of an item, whose bounds are indices of bits.
abbrev pub mask_of : ChunkInfo → ℕ
mask_of info = mask_between info.lower (info.upper + 1)

-- The chunk after a `try_while` that started from its value `val`: whether it succeeded.
abbrev pub store : ChunkInfo → Outcome → Chunks → Bool × Chunks
store info (updated old new) chunks = (true, set chunks info.chunk new)
store info (refused val) chunks = (false, chunks)
store info (looping val) chunks = (false, chunks)

-- `load_chunk` and `try_while` with one exchange.
unfoldable pub update : (ℕ → Bool) → (ℕ → ℕ) → ChunkInfo → Chunks → Bool × Chunks
update cond f info chunks =
    let val = get_or chunks info.chunk 0 in store info (try_while_mut cond f val (val ∷ [])) chunks

-- `fast_path`: `all`, which stops at the first chunk that fails.
abbrev pub then_rest : (Chunks → Bool × Chunks) → Bool × Chunks → Bool × Chunks
then_rest rest (false, chunks) = (false, chunks)
then_rest rest (true, chunks) = rest chunks

abbrev pub all_set : ℕ → ℕ → Bool
all_set mask val = bit_and val mask == mask

unfoldable pub fast_path : List ChunkInfo → Chunks → Bool × Chunks
fast_path [] chunks = (true, chunks)
fast_path (info ∷ infos) chunks =
    then_rest (fast_path infos)
      (update (all_set (mask_of info)) (λ val. bit_and val (complement (mask_of info))) info chunks)

-- The loop at the head of `slow_path`; its `assert!` holds, since `try_while` with `|_| true`
-- succeeds.
unfoldable pub reset : List ChunkInfo → Chunks → Chunks
reset [] chunks = chunks
reset (info ∷ infos) chunks =
    reset infos (update (λ val. true) (λ val. bit_or val (mask_of info)) info chunks).1

-- What the search in one chunk comes to: a slot, no slot, or a loop that goes on.
pub data Found : Type 0 where
  selected : (index val : ℕ) → Found
  no_slot : (val : ℕ) → Found
  endless : Found

-- The conditions of the two exchanges, with the precedences that the code has.
abbrev pub first_cond : ℕ → ℕ → Bool
first_cond index val = bit_and val (bit index) == 1

abbrev pub second_cond : ℕ → ℕ → Bool
second_cond index val = bit_and val (bit index >>> index) == 1

-- The two exchanges of a round, from the value `val` that the code holds and the value that the
-- chunk has. (One that succeeds does not tell the code the new value.)
abbrev pub fill_exchange : ℕ → ℕ → ℕ → ℕ → Outcome
fill_exchange lower index val memory =
    try_while_mut (first_cond index) (λ v. bit_or v (mask_between lower index)) val
      (memory ∷ memory ∷ [])

abbrev pub clear_exchange : ℕ → ℕ → ℕ → Outcome
clear_exchange index val memory =
    try_while_mut (second_cond index) (λ v. bit_and v (complement (bit index))) val
      (memory ∷ memory ∷ [])

-- The closure of `find_map` in `set_in_search_range`, for as many rounds of its `while` as the
-- first argument says. (`commit` has no effect on the chunk.)
unfoldable pub search : ℕ → ℕ → ℕ → ℕ → ℕ → ℕ → Found
search zero lower upper mask val memory = endless
search (suc rounds) lower upper mask val memory = elim (lowest_one (bit_and val mask)) [
  | none ↦ no_slot memory
  | some index ↦ elim (ltb lower (index - 1)) [
    | true ↦ elim (fill_exchange lower index val memory) [
      | updated old new ↦ elim (clear_exchange index old new) [
        | updated _ cleared ↦ selected index cleared
        | refused last ↦ search rounds index upper (mask_between (index - 1) (upper + 1)) last new
        | looping last ↦ endless
      ]
      | refused last ↦ search rounds lower upper mask last memory
      | looping last ↦ endless
    ]
    | false ↦ elim (clear_exchange index val memory) [
      | updated _ cleared ↦ selected index cleared
      | refused last ↦ search rounds index upper mask last memory
      | looping last ↦ endless
    ]
  ]
]

-- `free_slots` up to the search: the fast path, and the reset where it has failed.
abbrev pub or_reset : List ChunkInfo → Bool × Chunks → Bool × Chunks
or_reset infos (true, chunks) = (true, chunks)
or_reset infos (false, chunks) = (false, reset infos chunks)

unfoldable pub free_slots : List ChunkInfo → Chunks → Bool × Chunks
free_slots infos chunks = or_reset infos (fast_path infos chunks)
