-- ===== src/WaylandTokio/Recv/Dropped.antt =====
-- `Drop for RecvHandle` of crates/wayland-tokio/src/buf/recv/recv_handle.rs.
--
-- The slots are freed by `Phasesync`, which other threads use too: what it returns and the slots
-- that it commits are arguments, and so is what the word `wait` holds at each `compare_exchange`.
pub mod Ends
use ecs_compositor.Prelude.{ℕ, List, [], ◌∷◌, ◌++◌, Bool, true, false, ◌==◌, ◌&&◌, if◌then◌else◌}
use ecs_compositor.Phasesync.Position.{Pos}
use ecs_compositor.WaylandTokio.Recv.{Info, with_slot_pos, slot_pos}
use ecs_compositor.WaylandTokio.Recv.Commit.{same_info}

-- `FreeReturn`.
pub data FreeReturn : Type 0 where
  successful : FreeReturn
  selected : Pos → FreeReturn
  all_slots_dead : FreeReturn

-- A call of `free_slots` or `set_in_search_range`: the slots that it commits, and what it returns.
pub record Freed : Type 0 where
  pub commits : List Pos
  pub result : FreeReturn

-- How a drop ends: another handle is responsible, the word is marked; or it is still looping.
pub data DropEnd : Type 0 where
  handed_over : DropEnd
  marked : (old new : Info) → DropEnd
  looping : DropEnd

-- With the words that are stored in `free`, in order.
pub record Dropping : Type 0 where
  pub end : DropEnd
  pub stores : List Info

abbrev pub dropping : DropEnd → List Info → Dropping
dropping e ws = record { end = e; stores = ws }

abbrev pub stored_first : List Info → Dropping → Dropping
stored_first ws d = record d { stores = ws ++ d.stores }

-- The closure `commit`, called for each slot: the words that it stores, and the last `free`.
abbrev pub commit_all : Info → List Pos → List Info × Info
commit_all free [] = ([], free)
commit_all free (slot ∷ slots) =
    let free' = with_slot_pos slot free in
    let (ws, last) = commit_all free' slots in (free' ∷ ws, last)

abbrev pub mark_dead : Info → Info
mark_dead wait = record wait { all_slots_dead = true }

abbrev pub same_pos : Pos → Pos → Bool
same_pos p q = p.chunk == q.chunk && p.index == q.index

abbrev pub unless_dead : (Info → Dropping) → FreeReturn → List Info × Info → Dropping
unless_dead next successful (ws, free) = dropping handed_over ws
unless_dead next (selected slot) (ws, free) = dropping handed_over ws
unless_dead next all_slots_dead (ws, free) = stored_first ws (next free)

-- The loop `'all_slots_dead`: what `wait` holds at each exchange, and the search behind one that
-- fails.
unfoldable pub mark_loop : List (Info × Freed) → Info → Info → Dropping
mark_loop [] wait free = dropping looping []
mark_loop ((met, freed) ∷ later) wait free =
    let again = λ (f : Info). mark_loop later met f in
    if same_info met wait
    then dropping (marked met (mark_dead wait)) []
    else if same_pos (slot_pos wait) (slot_pos met)
    then mark_loop later met free
    else unless_dead again freed.result (commit_all free freed.commits)

-- All slots are dead: the end of the handle is stored first.
abbrev pub after_free : List (Info × Freed) → Info → Info → Dropping
after_free rounds wait free = stored_first (free ∷ []) (mark_loop rounds wait free)

unfoldable pub drop_handle : Freed → List (Info × Freed) → Info → Info → Dropping
drop_handle freed rounds wait free =
    unless_dead (after_free rounds wait) freed.result (commit_all free freed.commits)
