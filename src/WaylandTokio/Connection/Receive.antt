-- ===== src/WaylandTokio/Connection/Receive.antt =====
-- `Recv::poll` of crates/wayland-tokio/src/connection/recv.rs.
pub mod Dispatch
use ecs_compositor.Prelude.{
  ℕ, List, [], ◌∷◌, ◌++◌, Bool, true, false, Option, none, some, ◌==◌, if◌then◌else◌,
}
use ecs_compositor.Core.Error.{Result, ok, fail}
use ecs_compositor.Core.Value.{RawFd, ReadBuf}
use ecs_compositor.Core.Value.Law.{read_buf}
use ecs_compositor.Core.Header.{MessageHeader, message_header, content_len, data_len}
use ecs_compositor.WaylandTokio.Registry.{
  Waker, Registry, RecvEntry, get, register_recv, wake_recver,
}
use ecs_compositor.WaylandTokio.Io.{Io, restore_cursor}
use ecs_compositor.WaylandTokio.Io.Messages.{Delivered, rx_msg_buf}
use ecs_compositor.WaylandTokio.Connection.Driver.{Driving, ready_io, failed_io, pending_io}

-- An object that receives: its id, and the number of descriptors of an opcode of its interface.
pub record Receiver : Type 0 where
  pub id : ℕ
  pub fd_count : ℕ → Option ℕ
  -- The waker of the context.
  pub cx : Waker

-- What a poll returns; a panic of an `unwrap` or `expect`; or the run has too few outcomes.
pub data Polled : Type 0 where
  pending : Polled
  ready : MessageHeader → List ℕ → List RawFd → Polled
  failed : Polled
  panicked : Polled
  looping : Polled

-- The end of a poll: its result, the state, and the tasks that it has woken.
pub record End : Type 0 where
  pub polled : Polled
  pub io : Io
  pub registry : Registry
  pub woken : List Waker

abbrev pub end : Polled → Io → Registry → List Waker → End
end p io r ws = record { polled = p; io = io; registry = r; woken = ws }

-- One pass through the loop, up to a call of `drive_io`.
pub data Pass : Type 0 where
  drive : Io → Pass
  done : End → Pass

module _ (obj : Receiver) where
  abbrev pub registered : Registry → Registry
  registered r = register_recv obj.id obj.fd_count obj.cx r

  -- The message is for this object.
  abbrev own_message : MessageHeader → Registry → Option Delivered × Io → Pass
  own_message hdr r (none, io) = drive io
  own_message hdr r (some d, io) =
      let (ws, r') = wake_recver obj.cx (registered r) in
      done (end (ready hdr d.bytes d.fds) (record io { rx_hdr = none }) r' ws)

  abbrev own : MessageHeader → Io → Registry → Option ℕ → Pass
  own hdr io r none = done (end panicked io r [])
  own hdr io r (some fds) = own_message hdr r (rx_msg_buf (content_len hdr) fds io)

  -- It is for another one that has a task waiting.
  abbrev other_message : RecvEntry → Registry → Option Delivered × Io → Pass
  other_message entry r (none, io) = drive io
  other_message entry r (some d, io) = done (
      end pending (record io { rx = restore_cursor d.cursor io.rx }) (registered r)
        (entry.waker ∷ []))

  abbrev other : RecvEntry → MessageHeader → Io → Registry → Option ℕ → Pass
  other entry hdr io r none = done (end panicked io r [])
  other entry hdr io r (some fds) = other_message entry r (rx_msg_buf (content_len hdr) fds io)

  abbrev not_own : MessageHeader → Io → Registry → Option RecvEntry → Pass
  not_own hdr io r none = done (end pending io (registered r) [])
  not_own hdr io r (some entry) = other entry hdr io r (entry.fd_count hdr.opcode)

  unfoldable pub dispatch : MessageHeader → Io → Registry → Pass
  dispatch hdr io r =
      if obj.id == hdr.object_id.id
      then own hdr io r (obj.fd_count hdr.opcode)
      else not_own hdr io r (get hdr.object_id.id r.receiver_map)

  abbrev pub parsed : Io → Registry → Result MessageHeader × ReadBuf → Pass
  parsed io r (ok hdr, rest) = dispatch hdr (record io { rx_hdr = some hdr }) r
  parsed io r (fail e, rest) = done (end panicked io r [])

  abbrev pub with_header : Registry → Option Delivered × Io → Pass
  with_header r (none, io) = drive io
  with_header r (some d, io) = parsed io r (message_header.read (read_buf d.bytes d.fds))

  abbrev pub pass_of : Option MessageHeader → Io → Registry → Pass
  pass_of none io r = with_header r (rx_msg_buf data_len 0 io)
  pass_of (some hdr) io r = dispatch hdr io r

  unfoldable pub pass : Io → Registry → Pass
  unfolding message_header
  pass io r = pass_of io.rx_hdr io r

  -- The loop; `drive_io` does what the list says, for the buffers that it is given.
  unfoldable pub poll_locked : List (Io → Driving) → Io → Registry → End
  poll_locked [] io r = elim (pass io r) [ done e ↦ e | drive io' ↦ end looping io' r [] ]
  poll_locked (d ∷ ds) io r = elim (pass io r) [
    | done e ↦ e
    | drive io' ↦ elim (d io') [
      | ready_io io'' ↦ poll_locked ds io'' r
      | failed_io io'' ↦ end failed io'' r []
      | pending_io ↦ end pending io' r []
    ]
  ]

  -- `Recv::poll`, with the lock of the buffers or without it.
  unfoldable pub poll_recv : (locked : Bool) → List (Io → Driving) → Io → Registry → End
  poll_recv false ds io r = end pending io (registered r) []
  poll_recv true ds io r = poll_locked ds io r
