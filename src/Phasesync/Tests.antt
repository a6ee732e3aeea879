-- ===== src/Phasesync/Tests.antt =====
-- The theorems on positions, masks and the chunk iterator at concrete values.
use ecs_compositor.Prelude.{
  if◌then◌else◌, bit_and, List, ℕ, suc, ◌+◌, ◌*◌, ◌%◌, ◌≤◌, ◌<◌, ◌^◌, ◌≡◌, ◌≢◌, refl, ◌⊎◌, inl, [],
  ◌∷◌, ◌++◌, none, some, arith, length, Bool, true, false, leb, ◌&&◌, ◌==◌,
}
use ecs_compositor.Prelude.Digits.{bit_at}
use ecs_compositor.Phasesync.Position.{
  Pos, add_pos, sub_pos, checked_sub_pos, add_index, new_usize, carry_int,
}
use ecs_compositor.Phasesync.Position.Carry.{}
use ecs_compositor.Phasesync.Position.Flat.{
  flat, IsPos, capacity, weigh, add_pos_lem, sub_pos_lem, sub_pos_same_chunk,
  checked_sub_pos_inverted, add_index-one,
}
use ecs_compositor.Phasesync.Helpers.{
  u64_max, bitmask_range, bit_length, lowest_one, try_while_mut, returned,
}
use ecs_compositor.Phasesync.Helpers.Mask.{bit_of, bitmask_range_lem}
use ecs_compositor.Phasesync.Helpers.Search.{lowest_one_lem}
use ecs_compositor.Phasesync.Helpers.Exchange.{
  EndsWell, try_while_mut-EndsWell, try_while_mut_quiet,
}
use ecs_compositor.Phasesync.ChunkIter.{ChunkInfo, chunk_iter, items}
use ecs_compositor.Phasesync.ChunkIter.Items.{info, items_lem}
use ecs_compositor.Phasesync.FreeSlots.{
  Chunks, fast_path, free_slots, search, selected, no_slot, endless, complement, bit,
}
use ecs_compositor.Phasesync.FreeSlots.Fast.{Cleared, fast_path-Cleared, chunk_bit, any_has}
use ecs_compositor.Phasesync.FreeSlots.Free.{free_slots-bit}
use ecs_compositor.Phasesync.FreeSlots.Search.{search_lem}

abbrev at : ℕ → ℕ → Pos
at c i = record { chunk = c; index = i }

add_pos_lem_example :
    let (sum, out) = add_pos 3 (at 3 60) (at 0 9) false in
    (flat sum + weigh 3 out ≡ flat (at 3 60) + flat (at 0 9) + carry_int false) × IsPos 3 sum
add_pos_lem_example =
    add_pos_lem 3 (at 3 60) (at 0 9) false (omega arith, omega arith) (omega arith, omega arith)

sub_pos_lem_example :
    let (dif, out) = sub_pos 3 (at 2 5) (at 1 9) false in
    (flat dif + flat (at 1 9) ≡ flat (at 2 5) + weigh 3 out) × IsPos 3 dif
sub_pos_lem_example =
    sub_pos_lem 3 (at 2 5) (at 1 9) (omega arith, omega arith) (omega arith, omega arith)
      (inl (λ e. omega (arith, e)))

sub_pos_same_chunk_example :
    let (dif, out) = sub_pos 3 (at 1 5) (at 1 9) false in
    (out ≡ true)
    × (dif.chunk ≡ 0)
    × (flat dif + flat (at 1 9) + 3 * 64 ≡ flat (at 1 5) + capacity 3)
sub_pos_same_chunk_example =
    sub_pos_same_chunk 3 (at 1 5) (at 1 9) (omega arith, omega arith) (omega arith, omega arith)
      refl (omega arith)

checked_sub_pos_inverted_example :
    (flat (at 0 1) ≤ flat (at 1 5) → checked_sub_pos 3 (at 1 5) (at 0 1) ≡ none)
    × (flat (at 1 5) < flat (at 0 1) → (d : Pos) × (checked_sub_pos 3 (at 1 5) (at 0 1) ≡ some d))
checked_sub_pos_inverted_example =
    checked_sub_pos_inverted 3 (at 1 5) (at 0 1) (omega arith, omega arith)
      (omega arith, omega arith)

add_index-one_example :
    flat (add_index 3 (at 3 63) (new_usize 3 1)) ≡ (flat (at 3 63) + 1) % capacity 3
add_index-one_example = add_index-one 3 (at 3 63) (omega arith, omega arith) (omega arith)

bitmask_range_lem_example :
    ((3 ≤ 63)
      × (63 ≤ 63)
      × (m : ℕ) × (bitmask_range 3 63 ≡ some m)
      × ((i : ℕ) → bit_at i m ≡ bit_of (leb 3 i && leb i 63)))
    ⊎ (((63 < 3) ⊎ (63 < 63)) × (bitmask_range 3 63 ≡ none))
bitmask_range_lem_example = bitmask_range_lem 3 63

lowest_one_lem_example :
    ((◌≡◌ {A = ℕ} 6 0) × (lowest_one 6 ≡ none))
    ⊎ ((k : ℕ) × (lowest_one 6 ≡ some k) × (k ≤ 63) × (2 ^ k ≤ 6) × (6 < 2 ^ suc k))
lowest_one_lem_example = lowest_one_lem 6 (omega arith)

-- 6 is 110 in binary: its lowest one is the bit 1.
lowest_one-six : lowest_one 6 ≡ some 2
unfolding lowest_one bit_length
lowest_one-six = refl

abbrev is_odd : ℕ → Bool
is_odd v = v % 2 == 1

-- Two threads came first: the memory held 3, then 5, where 1 was loaded.
try_while_mut-EndsWell_example :
    EndsWell is_odd
      (λ v. v + 1)
      1
      (3 ∷ 5 ∷ 5 ∷ [])
      (try_while_mut is_odd (λ v. v + 1) 1 (3 ∷ 5 ∷ 5 ∷ []))
try_while_mut-EndsWell_example = try_while_mut-EndsWell is_odd (λ v. v + 1) 1 (3 ∷ 5 ∷ 5 ∷ [])

try_while_mut_quiet_example :
    (b : Bool) × (returned (try_while_mut is_odd (λ v. v + 1) 1 ((3 ∷ []) ++ (5 ∷ 5 ∷ [])))
      ≡ some b)
try_while_mut_quiet_example = try_while_mut_quiet is_odd (λ v. v + 1) 1 5 (3 ∷ []) []

abbrev from : Pos
from = at 0 60

abbrev to : Pos
to = at 2 5

items_lem_example :
    let it = chunk_iter from to in
    (from.chunk ≡ to.chunk
      × ((n : ℕ) → items 3 (suc n) it ≡ info from.chunk from.index to.index ∷ []))
    ⊎ ((from.chunk + 1 ≡ to.chunk)
        × (to.chunk < 3)
        × ((n : ℕ)
            → items 3 (suc (suc (suc n))) it
              ≡ info from.chunk from.index 63 ∷ info to.chunk 0 63 ∷ info to.chunk 0 to.index ∷ []))
    ⊎ ((from.chunk + 1 ≡ to.chunk) × (to.chunk ≡ 3) × ((n : ℕ) → length (items 3 n it) ≡ n))
    ⊎ ((from.chunk ≢ to.chunk)
        × (from.chunk + 1 ≢ to.chunk)
        × ((n : ℕ)
            → items 3 (suc (suc n)) it
              ≡ info from.chunk from.index 63 ∷ info to.chunk 0 to.index ∷ []))
items_lem_example = items_lem 3 from to (omega arith) (omega arith)

-- The bits 3 to 5 of the first chunk and all of the second one.
abbrev parts : List ChunkInfo
parts = info 0 3 5 ∷ info 1 0 63 ∷ []

abbrev chunks : Chunks
chunks = 60 ∷ u64_max ∷ []

fast_path-Cleared_example : Cleared parts chunks 0 4 (fast_path parts chunks)
fast_path-Cleared_example = fast_path-Cleared parts chunks 0 4 (omega arith) (omega arith)

-- The bits 2 to 5 are free to be selected: the search goes on without an end.
search_lem_example :
    ((lowest_one (bit_and 60 u64_max) ≡ none)
      × ((rounds : ℕ) → search (suc rounds) 0 63 u64_max 60 60 ≡ no_slot 60))
    ⊎ ((index : ℕ) × (lowest_one (bit_and 60 u64_max) ≡ some index)
        × (((index ≤ 0 + 1)
              × (60 % 2 ≡ 1)
              × ((rounds : ℕ)
                  → search (suc rounds) 0 63 u64_max 60 60
                    ≡ selected index (bit_and 60 (complement (bit index)))))
            ⊎ (((0 + 1 < index) ⊎ (60 % 2 ≡ 0))
                × ((rounds : ℕ) → search rounds 0 63 u64_max 60 60 ≡ endless))))
search_lem_example = search_lem 0 63 u64_max 60

free_slots-bit_example :
    let (success, after) = free_slots parts chunks in
    chunk_bit after 0 4
    ≡ (if any_has parts 0 4 then (if success then 0 else 1) else chunk_bit chunks 0 4)
free_slots-bit_example = free_slots-bit parts chunks 0 4 (omega arith) (omega arith)
