-- ===== src/WaylandTokio/Io/Drive/Room.antt =====
-- The room of the buffer to send from is never given back.
use ecs_compositor.Prelude.{
  ℕ, ◌+◌, ◌≤◌, ◌<◌, ◌≡◌, refl, sym, ap, subst, List, ◌∙◌, inl, inr, arith, length, length-drop,
  Bool-cases, Option-cases, ltb, ltb→lt, ltb→le,
}
use ecs_compositor.Core.Error.{Result, ok, fail}
use ecs_compositor.Core.Object.{Object}
use ecs_compositor.Core.Value.{split_at, WriteBuf}
use ecs_compositor.WaylandTokio.Io.{BufDir, Io}
use ecs_compositor.WaylandTokio.Io.Messages.{
  MessageType, transmit, tx_msg_buf, sent, not_sent, send_panic, written as lay_down, with_header,
  wants_send, total_len, Transmitted, write_reserved,
}
use ecs_compositor.WaylandTokio.Io.Messages.Transmit.{split_at-none, split_at-some}
use ecs_compositor.WaylandTokio.Io.Drive.{
  Ready, Round, drive_io, Driven, returned, failed, panicked, looping,
}
use ecs_compositor.WaylandTokio.Io.Drive.Stream.{WellDriven, drive_io-WellDriven}

abbrev pub room : Io → ℕ
room io = length io.tx.da.unused

-- The states that the buffers are left in.
abbrev pub LeavesIo : Driven → Io → Type 0
LeavesIo (returned h io) io' = io ≡ io'
LeavesIo (failed code h io) io' = io ≡ io'
LeavesIo panicked io' = ⊥
LeavesIo (looping h io) io' = ⊥

-- The calls that change the buffers: input and output, a message that is sent, and one that is not.
-- (`rx_msg_buf` leaves the buffer to send from alone.)
pub data Later : Io → Io → Type 1 where
  now : (io : Io) → Later io io
  driven :
      (io io' io'' : Io) (rounds : List Round) (ready : Ready)
      → LeavesIo (drive_io rounds ready io) io'
      → Later io' io''
      → Later io io''
  written :
      (io io' io'' : Io) (A : Type 0) (M : MessageType A) (o : Object) (msg : A)
      → (transmit M o msg io ≡ sent io')
      → Later io' io''
      → Later io io''
  refused :
      (io io' io'' : Io) (A : Type 0) (M : MessageType A) (o : Object) (msg : A)
      → (transmit M o msg io ≡ not_sent io')
      → Later io' io''
      → Later io io''
  received : (io io' io'' : Io) → (io'.tx ≡ io.tx) → Later io' io'' → Later io io''

driven-room : (io io' : Io) (d : Driven) → WellDriven io d → LeavesIo d io' → room io' ≡ room io
driven-room io io' (returned h i) w e = ap room (sym e) ∙ ap length w.no_more_room.0
driven-room io io' (failed code h i) w e = ap room (sym e) ∙ ap length w.no_more_room.0
driven-room io io' panicked w e = absurd e
driven-room io io' (looping h i) w e = absurd e

-- What a call of `transmit` leaves is no more than some room.
abbrev AtMost : ℕ → Transmitted → Type 0
AtMost n (sent io) = room io ≤ n
AtMost n (not_sent io) = room io ≤ n
AtMost n send_panic = Unit {0}

module _ {A : Type 0} (M : MessageType A) (o : Object) (msg : A) (n : ℕ) where
  written-AtMost :
      (io : Io) → room io ≤ n → (r : Result (Unit {0}) × WriteBuf) → AtMost n (lay_down io r)
  written-AtMost io h (ok done, w) = h
  written-AtMost io h (fail e, w) = tt

  with_header-AtMost :
      (io : Io)
      → room io ≤ n
      → (r : Result (Unit {0}) × WriteBuf) → AtMost n (write_reserved M o msg (with_header io r))
  with_header-AtMost io h (ok done, buf) = written-AtMost io h (M.value.write msg buf)
  with_header-AtMost io h (fail e, buf) = tt

transmit-AtMost :
    {A : Type 0} (M : MessageType A) (o : Object) (msg : A) (io : Io)
    → AtMost (room io) (transmit M o msg io)
unfolding transmit tx_msg_buf
transmit-AtMost M o msg io = elim (Bool-cases (ltb (room io) (total_len M o msg))) [
  | inl short ↦
      rw (split_at-none io.tx.da.unused (total_len M o msg) (ltb→lt _ _ short)) (omega arith)
  | inr roomy ↦
      rw (split_at-some io.tx.da.unused (total_len M o msg) (ltb→le _ _ roomy))
        (elim (Option-cases (split_at io.tx.fd.unused (0 + M.value.fd_count))) [
          | inr e ↦ rw e (omega arith)
          | inl (p, e) ↦ rw e (
              with_header-AtMost M o msg (room io) _
                (omega (arith, length-drop (total_len M o msg) io.tx.da.unused)) _)
        ])
]

Later-room : {io io' : Io} → Later io io' → room io' ≤ room io
Later-room (now io) = omega arith
Later-room (driven io io' io'' rounds ready e later) = omega (
  arith,
  driven-room io io' (drive_io rounds ready io) (drive_io-WellDriven rounds ready io) e,
  Later-room later,
)
Later-room (written io io' io'' A M o msg e later) =
    omega (arith, subst (AtMost (room io)) e (transmit-AtMost M o msg io), Later-room later)
Later-room (refused io io' io'' A M o msg e later) =
    omega (arith, subst (AtMost (room io)) e (transmit-AtMost M o msg io), Later-room later)
Later-room (received io io' io'' e later) =
    omega (arith, ap (λ (b : BufDir). length b.da.unused) e, Later-room later)

-- The room for data to send never grows: from a state whose room is too short for a message on,
-- through any steps of sending, receiving and putting messages into the buffers, that message is
-- never put into the buffer, even where all data were sent.
pub room_exhausted :
    {A : Type 0} (M : MessageType A) (o : Object) (msg : A) (io io' : Io)
    → Later io io'
    → room io < total_len M o msg
    → transmit M o msg io' ≡ not_sent (record io' { interest = wants_send io'.interest })
unfolding transmit tx_msg_buf
room_exhausted M o msg io io' later full =
    rw (split_at-none io'.tx.da.unused (total_len M o msg) (omega (arith, Later-room later))) refl
