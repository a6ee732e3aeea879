-- ===== src/WaylandTokio/Recv/Sock/Room.antt =====
-- What comes from the socket goes from the free spans to the receive spans, in order.
use ecs_compositor.Prelude.{
  ℕ, ◌+◌, ◌-◌, ◌≤◌, ◌≡◌, refl, sym, ap, ap₂, ◌∙◌, inl, inr, List, [], ◌∷◌, ◌++◌, Bool-cases, none,
  arith, ◌==◌, ◌&&◌,
}
use ecs_compositor.WaylandTokio.Span.{Span, produce, consume, free_space}
use ecs_compositor.WaylandTokio.Span.Queue.{indices, indices_from, indices-append, indices-straight}
use ecs_compositor.WaylandTokio.Recv.{
  Info, Bufs, RecvState, init_bufs, new_spans, data_hold, ctrl_hold,
}
use ecs_compositor.WaylandTokio.Recv.Sock.{
  SockOutcome, io_count, sock_error, sock_pending, taken_in, read_loop, read_sock_into_buf,
}

-- A receive span and a free span without thresholds, one behind the other.
pub record Meets (recv free : Span) : Type 0 where
  pub no_hold : (recv.hold ≡ 0) × (free.hold ≡ 0)
  pub in_use : recv.free ≤ recv.next
  pub joint : recv.next ≡ free.free
  pub room : free.free ≤ free.next

-- The ends of the two stay, and so does what stands in them both.
pub record Moved (recv free recv' free' : Span) : Type 0 where
  pub meets : Meets recv' free'
  pub ends : (recv'.free ≡ recv.free) × (free'.next ≡ free.next)

step :
    (recv free : Span) (count : ℕ)
    → Meets recv free
    → count ≤ free.next - free.free
    → Moved recv free (produce recv count) (consume free count)
unfolding produce consume
step recv free count m h = record {
  meets = record {
    no_hold = (ground (arith, m.no_hold.0, m.no_hold.1), ground (arith, m.no_hold.0, m.no_hold.1));
    in_use = ground (arith, m.no_hold.0, m.in_use);
    joint = ground (arith, m.no_hold.0, m.no_hold.1, m.joint);
    room = ground (arith, m.no_hold.1, m.room);
  };
  ends = (ground (arith, m.no_hold.0), ground (arith, m.no_hold.1));
}

-- Both together are the indices from the one end to the other.
indices-both :
    (recv free : Span)
    → Meets recv free
    → indices recv ++ indices free ≡ indices_from recv.free (free.next - recv.free)
indices-both recv free m =
    ap₂ (λ l k. l ++ k) (indices-straight recv.free recv.next recv.hold m.in_use)
      (indices-straight free.free free.next free.hold m.room)
    ∙ ap
        (λ n.
          indices_from recv.free (recv.next - recv.free) ++ indices_from n (free.next - free.free))
        {x = free.free} {y = recv.free + (recv.next - recv.free)} (omega (arith, m.joint, m.in_use))
    ∙ sym (indices-append recv.free (recv.next - recv.free) (free.next - free.free))
    ∙ ap (indices_from recv.free) {x = recv.next - recv.free + (free.next - free.free)}
        {y = free.next - recv.free} (omega (arith, m.joint, m.in_use, m.room))

pub Moved-indices :
    (recv free recv' free' : Span)
    → Meets recv free
    → Moved recv free recv' free'
    → indices recv' ++ indices free' ≡ indices recv ++ indices free
Moved-indices recv free recv' free' m n =
    indices-both recv' free' n.meets
    ∙ ap₂ indices_from n.ends.0 (omega (arith, n.ends.0, n.ends.1))
    ∙ sym (indices-both recv free m)

abbrev pub BothMeet : Bufs → Type 0
BothMeet b = Meets b.recv.da b.free.da × Meets b.recv.ct b.free.ct

-- The socket counts no more than what the free spans have room for at each call.
abbrev pub Obeys : List SockOutcome → Bufs → Type 0
Obeys [] b = Unit {0}
Obeys (sock_pending ∷ later) b = Unit {0}
Obeys (sock_error code ∷ later) b = Unit {0}
Obeys (io_count da ct ∷ later) b =
    (da ≤ b.free.da.next - b.free.da.free)
    × (ct ≤ b.free.ct.next - b.free.ct.free)
    × Obeys later (taken_in da ct b)

-- Both spans of data, and both of descriptors.
abbrev pub BothMoved : Bufs → Bufs → Type 0
BothMoved b b' =
    Moved b.recv.da b.free.da b'.recv.da b'.free.da
    × Moved b.recv.ct b.free.ct b'.recv.ct b'.free.ct

still : (b : Bufs) → BothMeet b → BothMoved b b
still b m =
    (record { meets = m.0; ends = (refl, refl) }, record { meets = m.1; ends = (refl, refl) })

Moved-trans : {r f r' f' r'' f'' : Span} → Moved r f r' f' → Moved r' f' r'' f'' → Moved r f r'' f''
Moved-trans m n = record { meets = n.meets; ends = (n.ends.0 ∙ m.ends.0, n.ends.1 ∙ m.ends.1) }

read_loop-Moved :
    (outcomes : List SockOutcome) (b : Bufs)
    → BothMeet b
    → Obeys outcomes b
    → BothMoved b (read_loop outcomes b).1
unfolding read_loop
read_loop-Moved [] b m o = still b m
read_loop-Moved (sock_pending ∷ later) b m o = still b m
read_loop-Moved (sock_error code ∷ later) b m o = still b m
read_loop-Moved (io_count da ct ∷ later) b m (p, q, o) = elim (Bool-cases (da == 0 && ct == 0)) [
  | inl closed ↦ rw closed (still b m)
  | inr more ↦
      let x = step b.recv.da b.free.da da m.0 p in
      let y = step b.recv.ct b.free.ct ct m.1 q in
      let (u, w) = read_loop-Moved later (taken_in da ct b) (x.meets, y.meets) o in
      rw more (Moved-trans x u, Moved-trans y w)
]

-- A state without thresholds, with positions up to where the buffer ends for new data.
pub record NoHolds (s : RecvState) (wait : Info) : Type 0 where
  pub recv_holds : (s.recv_data_hold ≡ none) × (s.recv_ctrl_hold ≡ none)
  pub free_holds : (s.free_data_hold ≡ none) × (s.free_ctrl_hold ≡ none)
  pub data_pos : (wait.data_pos ≤ s.received.data_pos) × (s.received.data_pos ≤ data_hold)
  pub ctrl_pos : (wait.ctrl_pos ≤ s.received.ctrl_pos) × (s.received.ctrl_pos ≤ ctrl_hold)

pub init_bufs-BothMeet :
    (s : RecvState) (wait free : Info) → NoHolds s wait → BothMeet (init_bufs s wait free)
unfolding init_bufs new_spans
init_bufs-BothMeet s wait free n =
    rw (n.recv_holds.0, n.recv_holds.1, n.free_holds.0, n.free_holds.1)
      (
        record {
          no_hold = (refl, refl);
          in_use = n.data_pos.0;
          joint = refl;
          room = ground (arith, n.data_pos.1);
        },
        record {
          no_hold = (refl, refl);
          in_use = n.ctrl_pos.0;
          joint = refl;
          room = ground (arith, n.ctrl_pos.1);
        },
      )

read_sock-Moved :
    (outcomes : List SockOutcome) (s : RecvState) (b : Bufs)
    → BothMeet b
    → Obeys outcomes b
    → BothMoved b (read_sock_into_buf outcomes s b).2
unfolding read_sock_into_buf
read_sock-Moved outcomes s b m o = elim (Bool-cases s.socket_closed) [
  | inl closed ↦ rw closed (still b m)
  | inr up ↦ rw up (read_loop-Moved outcomes b m o)
]

-- From a state without thresholds and with a socket that counts no more than there is room for at
-- each call: what the receive spans and the free spans have together stays the same, in order, for
-- bytes and descriptors, and the free span still starts where the receive span ends.
pub read_sock_into_buf-conserved :
    (outcomes : List SockOutcome) (s : RecvState) (wait free : Info)
    → NoHolds s wait
    → Obeys outcomes (init_bufs s wait free)
    → let b = init_bufs s wait free in
      let b' = (read_sock_into_buf outcomes s b).2 in
      (indices b'.recv.da ++ indices b'.free.da ≡ indices b.recv.da ++ indices b.free.da)
      × (indices b'.recv.ct ++ indices b'.free.ct ≡ indices b.recv.ct ++ indices b.free.ct)
      × BothMeet b'
read_sock_into_buf-conserved outcomes s wait free n o =
    let b = init_bufs s wait free in
    let b' = (read_sock_into_buf outcomes s b).2 in
    let m = init_bufs-BothMeet s wait free n in
    let (u, w) = read_sock-Moved outcomes s b m o in
    (
      Moved-indices b.recv.da b.free.da b'.recv.da b'.free.da m.0 u,
      Moved-indices b.recv.ct b.free.ct b'.recv.ct b'.free.ct m.1 w,
      (u.meets, w.meets),
    )

-- A state without thresholds whose data have reached the place where the buffer ends for new data
-- has no room for more, wherever the handles that were dropped end up to there.
pub no_room :
    (s : RecvState) (wait free : Info)
    → (s.recv_data_hold ≡ none) × (s.recv_ctrl_hold ≡ none)
    → s.received.data_pos ≡ data_hold
    → free.data_pos ≤ data_hold
    → indices (init_bufs s wait free).free.da ≡ []
unfolding init_bufs new_spans free_space
no_room s wait free (h, k) full le = rw (h, k, full) (ground (arith, le, full))
