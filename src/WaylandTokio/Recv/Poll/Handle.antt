-- ===== src/WaylandTokio/Recv/Poll/Handle.antt =====
-- What the handle of a poll covers.
use ecs_compositor.Prelude.{ℕ, ◌-◌, inl, inr, List, Bool-cases, Option, none, some, ◌==◌, ◌&&◌, max}
use ecs_compositor.Phasesync.Position.{Pos}
use ecs_compositor.WaylandTokio.Recv.Commit.{Committed, commit_buf_state}
use ecs_compositor.WaylandTokio.Span.{Span}
use ecs_compositor.WaylandTokio.Span.Queue.{IsSpan}
use ecs_compositor.WaylandTokio.Recv.{Info, Bufs, BufSpan, RecvState, init_bufs, new_span}
use ecs_compositor.WaylandTokio.Recv.Collect.{Callback, Collected, Stop}
use ecs_compositor.WaylandTokio.Recv.Collect.Handle.{CoversOldest, collect_chunks-CoversOldest}
use ecs_compositor.WaylandTokio.Recv.Slots.{
  Allocated, no_handle, allocated, no_slots, too_few, behind, is_in_bounds, alloc_slots,
  alloc_handle,
}
use ecs_compositor.WaylandTokio.Recv.Sock.{SockOutcome, SockEnd, read_sock_into_buf}
use ecs_compositor.WaylandTokio.Recv.Sock.Room.{Meets, NoHolds, Obeys, read_sock_into_buf-conserved}
use ecs_compositor.WaylandTokio.Recv.Poll.{
  PolledRecv, pending, ready, panicked, looping, with_slots, finish, nothing_there, still_looping,
  collected_from, recv, after_commit, io_err, parse_err,
}

-- Where a handle is returned, it has this property.
abbrev pub HandleHas : (BufSpan → Type 0) → PolledRecv → Type 0
HandleHas P (ready (some handle) io parse) = P handle.span
HandleHas P (ready none io parse) = Unit {0}
HandleHas P pending = Unit {0}
HandleHas P panicked = Unit {0}
HandleHas P looping = Unit {0}

Meets-IsSpan : {recv free : Span} → Meets recv free → IsSpan recv
Meets-IsSpan m = inl (m.in_use, m.no_hold.0)

abbrev AllocatedHas : (BufSpan → Type 0) → Allocated → Type 0
AllocatedHas P (allocated handle b) = P handle.span
AllocatedHas P no_handle = Unit {0}
AllocatedHas P no_slots = Unit {0}
AllocatedHas P too_few = Unit {0}

module _ (P : BufSpan → Type 0) where
  after_commit-has :
      (p : PolledRecv) (s : RecvState) (o : Option (RecvState × Committed × List Pos))
      → HandleHas P p
      → HandleHas P (after_commit p s o).polled
  after_commit-has p s none h = tt
  after_commit-has p s (some (s', end, cleared)) h = h

  alloc_slots-has : (n : ℕ) (h : BufSpan) (b : Bufs) → P h → AllocatedHas P (alloc_slots n h b)
  alloc_slots-has n h b p = elim (Bool-cases (n == 0)) [
    | inl e ↦ rw e tt
    | inr e ↦
        elim (Bool-cases (is_in_bounds b.slots_start b.slots_end (behind b.slots_start (n - 1)))) [
          | inl f ↦ rw (e, f) p
          | inr f ↦ rw (e, f) tt
        ]
  ]

  alloc_handle-has :
      (slot_count : ℕ → ℕ) (h : BufSpan) (b : Bufs)
      → P h
      → AllocatedHas P (alloc_handle slot_count h b)
  unfolding alloc_handle
  alloc_handle-has slot_count h b p = elim (Bool-cases (h.da_len == 0 && h.ct_len == 0)) [
    | inl e ↦ rw e tt
    | inr e ↦ rw e (alloc_slots-has (slot_count (max h.count 1)) h b p)
  ]

  module _ (slot_count : ℕ → ℕ) (mets : List Info) (wait : Info) where
    with_slots-has :
        (e : SockEnd) (stop : Stop) (b : Bufs) (s : RecvState) (a : Allocated)
        → AllocatedHas P a
        → HandleHas P (with_slots slot_count mets wait e stop b s a).polled
    with_slots-has e stop b s no_handle p =
        after_commit-has (ready none (io_err e) (parse_err stop)) s
          (commit_buf_state mets b none wait s) tt
    with_slots-has e stop b s (allocated handle b') p =
        after_commit-has (ready (some handle) (io_err e) (parse_err stop)) s
          (commit_buf_state mets b' (some handle) wait s) p
    with_slots-has e stop b s no_slots p = tt
    with_slots-has e stop b s too_few p = tt

    finish-has :
        {S : Type 0} (e : SockEnd) (s : RecvState) (c : Collected S)
        → P c.span
        → HandleHas P (finish slot_count mets wait e s c).polled
    finish-has e s c p = elim (Bool-cases (still_looping e c.stop)) [
      | inl on ↦ rw on tt
      | inr over ↦ elim (Bool-cases (nothing_there slot_count mets wait e s c)) [
        | inl idle ↦
            rw (over, idle)
              (after_commit-has pending s (commit_buf_state mets c.bufs none wait s) tt)
        | inr busy ↦
            rw (over, busy)
              (with_slots-has e c.stop c.bufs s (alloc_handle slot_count c.span c.bufs)
                (alloc_handle-has slot_count c.span c.bufs p))
      ]
    ]

-- The state of the buffers after the socket was read.
abbrev pub bufs_read : List SockOutcome → Info → Info → RecvState → Bufs
bufs_read outcomes wait free s = (read_sock_into_buf outcomes s (init_bufs s wait free)).2

-- A poll of the receive buffer, from a state without thresholds and with a socket that counts no
-- more than there is room for: where it returns a handle, that covers the oldest bytes and
-- descriptors that are in the buffer after the socket was read, in order, whatever other tasks do
-- to the shared word.
pub recv-CoversOldest :
    {S : Type 0} (cb : Callback S) (slot_count : ℕ → ℕ) (memory : List ℕ) (rounds : ℕ)
    (mets : List Info) (outcomes : List SockOutcome) (wait free : Info) (s : RecvState) (state : S)
    → NoHolds s wait
    → Obeys outcomes (init_bufs s wait free)
    → let b = bufs_read outcomes wait free s in
      HandleHas
        (CoversOldest b (new_span b.recv.da.free b.recv.ct.free))
        (recv slot_count mets wait cb memory rounds outcomes free s state).polled
unfolding recv
recv-CoversOldest cb slot_count memory rounds mets outcomes wait free s state n o =
    let b = bufs_read outcomes wait free s in
    let (p, q, meets) = read_sock_into_buf-conserved outcomes s wait free n o in
    finish-has (CoversOldest b (new_span b.recv.da.free b.recv.ct.free)) slot_count mets wait
      (read_sock_into_buf outcomes s (init_bufs s wait free)).0
      (read_sock_into_buf outcomes s (init_bufs s wait free)).1
      (collected_from slot_count mets wait cb memory rounds b state)
      (collect_chunks-CoversOldest cb memory rounds b state (Meets-IsSpan meets.0)
        (Meets-IsSpan meets.1))
