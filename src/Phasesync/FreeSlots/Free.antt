-- ===== src/Phasesync/FreeSlots/Free.antt =====
-- What `free_slots` has done to the chunks when it comes to the search.
use ecs_compositor.Prelude.{
  ℕ, ◌≤◌, ◌<◌, ◌≡◌, ◌∙◌, arith, Bool, true, false, if◌then◌else◌, List, [], ◌∷◌, length, length-set,
  Bool-cases, get_or, set,
}
use ecs_compositor.Prelude.{refl, bit_and, inl, inr}
use ecs_compositor.Phasesync.ChunkIter.{ChunkInfo}
use ecs_compositor.Phasesync.FreeSlots.{
  Chunks, fast_path, or_reset, free_slots, all_set, complement, mask_of,
}
use ecs_compositor.Phasesync.FreeSlots.Fast.{
  chunk_bit, any_has, Cleared, fast_path-Cleared, reset-bit, update_on, update_off,
}

length-fast_path :
    (infos : List ChunkInfo) (chunks : Chunks) → length (fast_path infos chunks).1 ≡ length chunks
unfolding fast_path
length-fast_path [] chunks = refl
length-fast_path (info ∷ infos) chunks =
    elim (Bool-cases (all_set (mask_of info) (get_or chunks info.chunk 0))) [
      | inr unset ↦ rw (
          update_off (all_set (mask_of info)) (λ val. bit_and val (complement (mask_of info))) info
            chunks unset)
      | inl on ↦
          rw
            (update_on (all_set (mask_of info)) (λ val. bit_and val (complement (mask_of info)))
              info chunks on)
            (length-fast_path infos (
                set chunks info.chunk
                  (bit_and (get_or chunks info.chunk 0) (complement (mask_of info))))
              ∙ length-set chunks info.chunk
                  (bit_and (get_or chunks info.chunk 0) (complement (mask_of info))))
    ]

-- Freeing slots in a run without interference, up to the search and for each bit of a chunk that
-- the array has: where the fast path succeeds, exactly the bits of the items are cleared; where it
-- fails, exactly those are set, also where it had cleared some.
pub free_slots-bit :
    (infos : List ChunkInfo) (chunks : Chunks) (c i : ℕ)
    → c < length chunks
    → i ≤ 63
    → let (success, after) = free_slots infos chunks in
      chunk_bit after c i
      ≡ (if any_has infos c i then (if success then 0 else 1) else chunk_bit chunks c i)
unfolding free_slots
free_slots-bit infos chunks c i h k =
    ends (fast_path infos chunks).0 (fast_path infos chunks).1
      (fast_path-Cleared infos chunks c i h k) (omega (arith, length-fast_path infos chunks))
  where
    ends :
        (success : Bool) (after : Chunks)
        → Cleared infos chunks c i (success, after)
        → c < length after
        → let (r, last) = or_reset infos (success, after) in
          chunk_bit last c i
          ≡ (if any_has infos c i then (if r then 0 else 1) else chunk_bit chunks c i)
    ends true after (done, kept) l = done refl
    ends false after (done, kept) l = reset-bit infos after c i l k ∙ ground (arith, kept)
