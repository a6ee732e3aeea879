-- ===== src/WaylandTokio/Recv/Commit.antt =====
-- `RecvState::commit_buf_state` of crates/wayland-tokio/src/buf/recv/io.rs.
--
-- The word `wait` is shared with the handles that are dropped: the model has the list of what it
-- holds at each `compare_exchange`. The bits of the slots are not in the model; it has the slots
-- whose bit is cleared.
pub mod Exchange
use ecs_compositor.Prelude.{
  ℕ, List, [], ◌∷◌, ◌++◌, Bool, true, false, Option, none, some, ◌==◌, ◌&&◌, ◌||◌, not, ◌^◌, ltb,
  if◌then◌else◌,
}
use ecs_compositor.Phasesync.Position.{Pos}
use ecs_compositor.WaylandTokio.Recv.{Info, Bufs, RecvState, with_data, with_ctrl, with_slot_pos}
use ecs_compositor.WaylandTokio.Recv.Slots.{RecvHandle}

abbrev same_bool : Bool → Bool → Bool
same_bool true b = b
same_bool false b = not b

-- Two words with the same fields.
unfoldable pub same_info : Info → Info → Bool
same_info i j =
    i.slot_chunk == j.slot_chunk
    && i.slot_index == j.slot_index
    && i.data_pos == j.data_pos
    && i.ctrl_pos == j.ctrl_pos
    && same_bool i.all_slots_dead j.all_slots_dead

-- What the receiver keeps for itself.
abbrev pub kept : Bufs → RecvState → RecvState
kept b s = record s { received = with_ctrl b.recv.ct.next (with_data b.recv.da.next s.received) }

-- The new word, from the one that is expected.
abbrev pub positions : Bufs → Info → Info
positions b wait =
    with_slot_pos b.slots_start (with_ctrl b.recv.ct.free (with_data b.recv.da.free wait))

-- With a handle, a search among the dead slots is over: its first slot is marked, and the flag is
-- taken away.
abbrev revived : Option RecvHandle → Info → Info × List Pos
revived none wait = (wait, [])
revived (some handle) wait =
    if wait.all_slots_dead
    then (record wait { all_slots_dead = false }, handle.first ∷ [])
    else (wait, [])

abbrev pub new_wait : Bufs → Option RecvHandle → Info → Info × List Pos
new_wait b handle wait = revived handle (positions b wait)

abbrev pub is_none : Option RecvHandle → Bool
is_none none = true
is_none (some handle) = false

-- The end of the loop: the word that was replaced and the new one; or it is still looping.
pub data Committed : Type 0 where
  committed : (old new : Info) → Committed
  looping : Committed

abbrev pub after : List Pos → Committed × List Pos → Committed × List Pos
after cleared (c, later) = (c, cleared ++ later)

unfoldable pub exchange_loop : List Info → Bufs → Option RecvHandle → Info → Committed × List Pos
exchange_loop [] b handle wait = (looping, (new_wait b handle wait).1)
exchange_loop (met ∷ later) b handle wait =
    let (new, cleared) = new_wait b handle wait in
    let rest = exchange_loop later b handle met in
    if same_info met wait then (committed met new, cleared) else after cleared rest

-- The positions are converted into a `u32` and a `u16`; `None` is a panic of one of the `unwrap`s.
-- (That for `free` is in the loop, where it would panic in the first round.)
abbrev pub converts : Bufs → Bool
converts b =
    ltb b.recv.da.next (2 ^ 32)
    && ltb b.recv.ct.next (2 ^ 16)
    && ltb b.recv.da.free (2 ^ 32)
    && ltb b.recv.ct.free (2 ^ 16)

unfoldable pub commit_buf_state :
    List Info
    → Bufs
    → Option RecvHandle
    → Info
    → RecvState
    → Option (RecvState × Committed × List Pos)
commit_buf_state mets b handle wait s =
    let (end, cleared) = exchange_loop mets b handle wait in
    if converts b then some (kept b s, end, cleared) else none
