-- ===== src/WaylandTokio/Connection/Send.antt =====
-- `Send::poll` and `Flush::poll` of crates/wayland-tokio/src/connection/send.rs.
pub mod Once
use ecs_compositor.Prelude.{
  ℕ, List, [], ◌∷◌, ◌++◌, Bool, true, false, Option, none, some, if◌then◌else◌,
}
use ecs_compositor.Core.Object.{Object}
use ecs_compositor.WaylandTokio.Registry.{
  Waker, Registry, register_send, register_send_locked, wake_sender, wake_recver,
}
use ecs_compositor.WaylandTokio.Io.{Io, is_empty}
use ecs_compositor.WaylandTokio.Io.Messages.{
  MessageType, Transmitted, sent, not_sent, send_panic, transmit,
}
use ecs_compositor.WaylandTokio.Connection.Driver.{Driving, ready_io, failed_io, pending_io}

-- What a poll returns; a panic; or the run has too few outcomes of `drive_io`.
pub data Polled : Type 0 where
  pending : Polled
  ready : Polled
  failed : Polled
  panicked : Polled
  looping : Polled

-- The end of a poll: `did_send`, and how often the message was put into the buffer.
pub record End : Type 0 where
  pub polled : Polled
  pub did_send : Bool
  pub transmitted : ℕ
  pub io : Io
  pub registry : Registry
  pub woken : List Waker

-- What the environment does in a poll: whether each of the two locks is free, and what `drive_io`
-- does at its calls.
pub record Environment : Type 0 where
  pub first_lock : Bool
  pub second_lock : Bool
  pub first_drive : Io → Driving
  pub second_drive : Io → Driving

module _ (env : Environment) (cx : Waker) where
  abbrev finish : Polled → Bool → ℕ → Io → Registry → List Waker → End
  finish p b n io r ws = record {
    polled = p;
    did_send = b;
    transmitted = n;
    io = io;
    registry = r;
    woken = ws;
  }

  abbrev driven_out : ℕ → Io → Registry → Driving → End
  driven_out n io r (ready_io io') = finish ready true n io' r []
  driven_out n io r (failed_io io') = finish failed true n io' r []
  driven_out n io r pending_io = finish pending true n io r []

  -- The last sender drives the output until it is pending or there is nothing to send.
  abbrev last_sender : ℕ → Io → Registry → End
  last_sender n io r =
      if env.second_lock
      then (if is_empty io.tx
          then finish ready true n io r []
          else driven_out n io r (env.second_drive io))
      else finish pending true n io (register_send_locked cx r) []

  abbrev other_sender : ℕ → Io → Bool × List Waker × Registry → End
  other_sender n io (true, ws, r) =
      let (ws', r') = wake_recver cx r in finish ready true n io r' (ws ++ ws')
  other_sender n io (false, ws, r) = last_sender n io r

  unfoldable pub after_send : ℕ → Io → Registry → End
  after_send n io r = other_sender n io (wake_sender r)

  module _ {A : Type 0} (M : MessageType A) (object_id : Object) (msg : A) where
    -- After the second call of `tx_msg_buf`, with the buffers from before it.
    abbrev second_try : Io → Registry → Transmitted → End
    second_try io r (sent io') = after_send 1 io' r
    second_try io r (not_sent io') = finish pending false 0 io' (register_send cx r) []
    second_try io r send_panic = finish panicked false 0 io r []

    abbrev driven_first : Io → Registry → Driving → End
    driven_first io r (ready_io io') = second_try io' r (transmit M object_id msg io')
    driven_first io r (failed_io io') = finish failed false 0 io' r []
    driven_first io r pending_io = finish pending false 0 io r []

    abbrev first_try : Io → Registry → Transmitted → End
    first_try io r (sent io') = after_send 1 io' r
    first_try io r (not_sent io') = driven_first io' r (env.first_drive io')
    first_try io r send_panic = finish panicked false 0 io r []

    -- The connection was closed: the task hangs, and the next sender is woken.
    abbrev hang : Io → Bool × List Waker × Registry → End
    hang io (b, ws, r) = finish pending true 0 io r ws

    abbrev not_yet : Io → Registry → End
    not_yet io r =
        if env.first_lock
        then (if io.interest.send_closed
            then hang io (wake_sender r)
            else first_try io r (transmit M object_id msg io))
        else finish pending false 0 io (register_send_locked cx r) []

    -- `Send::poll`, from the value of `did_send`.
    unfoldable pub poll_send : Bool → Io → Registry → End
    poll_send true io r = after_send 0 io r
    poll_send false io r = not_yet io r

-- `Flush::poll`: the result, the state and the tasks that it has woken.
abbrev pub flushed : Polled → Io → Registry → List Waker → Polled × Io × Registry × List Waker
flushed p io r ws = (p, io, r, ws)

abbrev close_flush : Io → Bool × List Waker × Registry → Polled × Io × Registry × List Waker
close_flush io (b, ws, r) = flushed pending io r ws

abbrev pub Flushed : Type 0
Flushed = Polled × Io × Registry × List Waker

-- What stands in front of a call of `drive_io`.
abbrev pub unless_done : Io → Registry → Flushed → Flushed
unless_done io r next =
    if is_empty io.tx
    then flushed ready io r []
    else if io.interest.send_closed
    then close_flush io (wake_sender r)
    else next

-- The loop, with what `drive_io` does at each call.
unfoldable pub flush_locked : List (Io → Driving) → Io → Registry → Flushed
flush_locked [] io r = unless_done io r (flushed looping io r [])
flush_locked (d ∷ ds) io r =
    let driven : Flushed = elim (d io) [
      | ready_io io' ↦ flush_locked ds io' r
      | failed_io io' ↦ flushed failed io' r []
      | pending_io ↦ flushed pending io r []
    ] in
    unless_done io r driven

unfoldable pub flush : (locked : Bool) → Waker → List (Io → Driving) → Io → Registry → Flushed
flush false cx ds io r = flushed pending io (register_send_locked cx r) []
flush true cx ds io r = flush_locked ds io r
