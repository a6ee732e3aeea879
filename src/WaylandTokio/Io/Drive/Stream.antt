-- ===== src/WaylandTokio/Io/Drive/Stream.antt =====
-- What a whole call hands to the socket and takes from it.
use ecs_compositor.Prelude.{
  ◌≡◌, refl, sym, ap, ◌∙◌, List, [], ◌∷◌, ◌++◌, append-nil, append_assoc, Bool, true, false, Option,
  none, some, ◌&&◌, subst,
}
use ecs_compositor.WaylandTokio.Io.{RingBuf, BufDir, Io}
use ecs_compositor.WaylandTokio.Io.Socket.{
  Progress, more, os_error, RecvOutcome, SendOutcome, Handed, send, recv,
}
use ecs_compositor.WaylandTokio.Io.Socket.Stream.{Sends, WellSent, send-WellSent}
use ecs_compositor.WaylandTokio.Io.Socket.Growth.{Grows}
use ecs_compositor.WaylandTokio.Io.Socket.Bounds.{
  Receives, WellReceived, recv-WellReceived, bytes_in, fds_in, window_at,
}
use ecs_compositor.WaylandTokio.Io.Drive.{
  Traffic, no_traffic, handing, socket_delivers, Ready, Round, Driven, returned, failed, panicked,
  looping, join, before, after_send, after_recv, send_half, recv_half, drive_loop, drive_io, noted,
  closed_reading, closed_writing,
}

-- From one state to another: what was handed to the socket is what is gone from the front of the
-- data to send, whose buffer has no more room than before; both buffers of what was received have
-- grown by what the socket delivered, in memory of the same size.
pub record Moves (io : Io) (t : Traffic) (io' : Io) : Type 0 where
  pub bytes_in_order : t.handed.bytes ++ io'.tx.da.items ≡ io.tx.da.items
  pub fds_in_order : t.handed.fds ++ io'.tx.fd.items ≡ io.tx.fd.items
  pub no_more_room : (io'.tx.da.unused ≡ io.tx.da.unused) × (io'.tx.fd.unused ≡ io.tx.fd.unused)
  pub received : Grows io.rx.da t.bytes io'.rx.da
  pub received_fds : Grows io.rx.fd t.fds io'.rx.fd

Grows-refl : {A : Type 0} (b : RingBuf A) → Grows b [] b
Grows-refl b = record { in_order = sym (append-nil b.items); same_size = refl }

Grows-trans :
    {A : Type 0} {b c d : RingBuf A} {new later : List A}
    → Grows b new c
    → Grows c later d
    → Grows b (new ++ later) d
Grows-trans {b = b} {new = new} {later = later} g h = record {
  in_order = h.in_order ∙ ap (λ l. l ++ later) g.in_order ∙ append_assoc b.items new later;
  same_size = h.same_size ∙ g.same_size;
}

Moves-trans :
    {io io' io'' : Io} {h k : Traffic}
    → Moves io h io'
    → Moves io' k io''
    → Moves io (join h k) io''
Moves-trans {io'' = io''} {h = h} {k = k} m n = record {
  bytes_in_order =
      append_assoc h.handed.bytes k.handed.bytes io''.tx.da.items
      ∙ ap (λ l. h.handed.bytes ++ l) n.bytes_in_order
      ∙ m.bytes_in_order;
  fds_in_order =
      append_assoc h.handed.fds k.handed.fds io''.tx.fd.items
      ∙ ap (λ l. h.handed.fds ++ l) n.fds_in_order
      ∙ m.fds_in_order;
  no_more_room = (n.no_more_room.0 ∙ m.no_more_room.0, n.no_more_room.1 ∙ m.no_more_room.1);
  received = Grows-trans m.received n.received;
  received_fds = Grows-trans m.received_fds n.received_fds;
}

still-Moves : (io io' : Io) → io'.tx ≡ io.tx → io'.rx ≡ io.rx → Moves io no_traffic io'
still-Moves io io' t r = record {
  bytes_in_order = ap (λ (b : BufDir). b.da.items) t;
  fds_in_order = ap (λ (b : BufDir). b.fd.items) t;
  no_more_room = (ap (λ (b : BufDir). b.da.unused) t, ap (λ (b : BufDir). b.fd.unused) t);
  received = subst (λ (b : BufDir). Grows io.rx.da [] b.da) (sym r) (Grows-refl io.rx.da);
  received_fds = subst (λ (b : BufDir). Grows io.rx.fd [] b.fd) (sym r) (Grows-refl io.rx.fd);
}

Sends-Moves : {io io' : Io} {h : Handed} → Sends io h io' → Moves io (handing h) io'
Sends-Moves {io} {io'} s = record {
  bytes_in_order = s.bytes_in_order;
  fds_in_order = s.fds_in_order;
  no_more_room = s.no_more_room;
  received = subst (λ (b : BufDir). Grows io.rx.da [] b.da) (sym s.rx_kept.0) (Grows-refl io.rx.da);
  received_fds =
      subst (λ (b : BufDir). Grows io.rx.fd [] b.fd) (sym s.rx_kept.0) (Grows-refl io.rx.fd);
}

Receives-Moves :
    {io io' : Io} (outcome : RecvOutcome)
    → Receives io (bytes_in (window_at io) outcome) (fds_in (window_at io) outcome) io'
    → Moves io (socket_delivers outcome io) io'
Receives-Moves {io} {io'} outcome r = record {
  bytes_in_order = ap (λ (b : BufDir). b.da.items) r.tx_kept.0;
  fds_in_order = ap (λ (b : BufDir). b.fd.items) r.tx_kept.0;
  no_more_room =
      (ap (λ (b : BufDir). b.da.unused) r.tx_kept.0, ap (λ (b : BufDir). b.fd.unused) r.tx_kept.0);
  received = r.bytes_in_order;
  received_fds = r.fds_in_order;
}

abbrev pub WellDriven : Io → Driven → Type 0
WellDriven io (returned h io') = Moves io h io'
WellDriven io (failed code h io') = Moves io h io'
WellDriven io panicked = Unit {0}
WellDriven io (looping h io') = Moves io h io'

before-WellDriven :
    {io io' : Io} {h : Traffic}
    → Moves io h io'
    → (d : Driven) → WellDriven io' d
    → WellDriven io (before h d)
before-WellDriven m (returned k io'') n = Moves-trans m n
before-WellDriven m (failed code k io'') n = Moves-trans m n
before-WellDriven m panicked n = tt
before-WellDriven m (looping k io'') n = Moves-trans m n

quietly-WellDriven :
    {io io' : Io} → Moves io no_traffic io' → (d : Driven) → WellDriven io' d → WellDriven io d
quietly-WellDriven m (returned k io'') n = Moves-trans m n
quietly-WellDriven m (failed code k io'') n = Moves-trans m n
quietly-WellDriven m panicked n = tt
quietly-WellDriven m (looping k io'') n = Moves-trans m n

-- Half a turn, whatever comes after it.
module _ (next : Bool → Io → Driven) (well : (b : Bool) (io : Io) → WellDriven io (next b io)) where
  after_send-WellDriven :
      (io : Io) (o : Option (Handed × Progress × Io))
      → WellSent io o
      → WellDriven io (after_send next o)
  after_send-WellDriven io none s = tt
  after_send-WellDriven io (some (h, more writing, io')) s =
      before-WellDriven (Sends-Moves s) (next writing io') (well writing io')
  after_send-WellDriven io (some (h, os_error code, io')) s = Sends-Moves s

  send_half-WellDriven :
      (outcome : SendOutcome) (writing : Bool) (io : Io)
      → WellDriven io (send_half outcome writing io next)
  send_half-WellDriven outcome true io =
      after_send-WellDriven io (send outcome io) (send-WellSent outcome io)
  send_half-WellDriven outcome false io = well false io

  after_recv-WellDriven :
      (outcome : RecvOutcome) (io : Io) (o : Option (Progress × Io))
      → WellReceived outcome io o
      → WellDriven io (after_recv (socket_delivers outcome io) next o)
  after_recv-WellDriven outcome io none r = tt
  after_recv-WellDriven outcome io (some (more reading, io')) r =
      before-WellDriven (Receives-Moves outcome r) (next reading io') (well reading io')
  after_recv-WellDriven outcome io (some (os_error code, io')) r = Receives-Moves outcome r

  recv_half-WellDriven :
      (outcome : RecvOutcome) (reading : Bool) (io : Io)
      → WellDriven io (recv_half outcome reading io next)
  recv_half-WellDriven outcome true io =
      after_recv-WellDriven outcome io (recv outcome io) (recv-WellReceived outcome io)
  recv_half-WellDriven outcome false io = well false io

drive_loop-WellDriven :
    (rounds : List Round) (reading writing : Bool) (io : Io)
    → WellDriven io (drive_loop rounds reading writing io)
unfolding drive_loop
drive_loop-WellDriven [] true writing io = still-Moves io io refl refl
drive_loop-WellDriven [] false true io = still-Moves io io refl refl
drive_loop-WellDriven [] false false io = still-Moves io io refl refl
drive_loop-WellDriven ((s, r) ∷ rounds) true true io =
    send_half-WellDriven _
      (λ w i. recv_half-WellDriven _ (λ b j. drive_loop-WellDriven rounds b w j) r true i) s true io
drive_loop-WellDriven ((s, r) ∷ rounds) true false io =
    recv_half-WellDriven _ (λ b j. drive_loop-WellDriven rounds b false j) r true io
drive_loop-WellDriven ((s, r) ∷ rounds) false true io =
    send_half-WellDriven _ (λ w i. drive_loop-WellDriven rounds false w i) s true io
drive_loop-WellDriven ((s, r) ∷ rounds) false false io = still-Moves io io refl refl

noted-same :
    (ready : Ready) (io : Io) → ((noted ready io).tx ≡ io.tx) × ((noted ready io).rx ≡ io.rx)
noted-same ready io = by_flags ready.read_closed ready.write_closed
  where
    by_flags :
        (r w : Bool)
        → ((closed_writing w (closed_reading r io)).tx ≡ io.tx)
          × ((closed_writing w (closed_reading r io)).rx ≡ io.rx)
    by_flags true true = (refl, refl)
    by_flags true false = (refl, refl)
    by_flags false true = (refl, refl)
    by_flags false false = (refl, refl)

-- Whatever the socket does in a call of `drive_io` that does not panic: the bytes and descriptors
-- handed to it are those from the front of the data to send, in order, whose buffers get no more
-- room; and all that it delivered at the calls of `recv` (the bytes that the window of the state
-- lets in, and the descriptors of the first control message with some) stands, in order, behind
-- what was there before, in memory of the same size.
pub drive_io-WellDriven :
    (rounds : List Round) (ready : Ready) (io : Io) → WellDriven io (drive_io rounds ready io)
unfolding drive_io
drive_io-WellDriven rounds ready io =
    let io' = noted ready io in
    let (t, r) = noted-same ready io in
    quietly-WellDriven (still-Moves io io' t r) _ (
      drive_loop-WellDriven rounds (io'.interest.recv && ready.readable)
        (io'.interest.send && ready.writable) io')
