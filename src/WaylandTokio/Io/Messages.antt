-- ===== src/WaylandTokio/Io/Messages.antt =====
-- `tx_msg_buf` and `rx_msg_buf`, and the write of a message of `Send::poll`
-- (crates/wayland-tokio/src/connection/send.rs).
--
-- A part of the buffer that is reserved for a message is data once the message is written to it.
-- The lock of the buffers is held from the one to the other.
pub mod Transmit
pub mod Deliver
use ecs_compositor.Prelude.{
  ℕ, ◌+◌, ◌%◌, ◌^◌, List, [], ◌∷◌, ◌++◌, Bool, true, false, Option, none, some, length, not,
  if◌then◌else◌,
}
use ecs_compositor.Core.Error.{Result, ok, fail}
use ecs_compositor.Core.Value.{Value, RawFd, WriteBuf, split_at}
use ecs_compositor.Core.Object.{Object}
use ecs_compositor.Core.Header.{MessageHeader, message_header, data_len}
use ecs_compositor.WaylandTokio.Io.{
  RingBuf, BufDir, Interest, Io, IoCursor, save_cursor, restore_cursor, split_data, unused_end,
}

-- `Message::OP` with the `Value` of the message.
pub record MessageType (A : Type 0) : Type 1 where
  pub value : Value A
  pub op : ℕ

-- What `tx_msg_buf` comes to: there is no room, or the header is written to the part that is
-- reserved; the header's `expect` panics.
pub data Reserved : Type 0 where
  no_room : Io → Reserved
  room_for : WriteBuf → Io → Reserved
  reserve_panic : Reserved

abbrev pub wants_send : Interest → Interest
wants_send i = if not i.send_closed then record i { send = true } else i

-- The part that is reserved is taken off the unused end.
abbrev pub shrunk : Io → List ℕ → List RawFd → Io
shrunk io da fd = record io {
  tx = record { da = record io.tx.da { unused = da }; fd = record io.tx.fd { unused = fd } };
}

abbrev pub with_header : Io → Result (Unit {0}) × WriteBuf → Reserved
with_header io (ok done, buf) = room_for buf io
with_header io (fail e, buf) = reserve_panic

pub data Transmitted : Type 0 where
  not_sent : Io → Transmitted
  sent : Io → Transmitted
  send_panic : Transmitted

-- What was reserved is data now.
abbrev pub laid_down : Io → WriteBuf → Io
laid_down io w = record io {
  tx = record {
    da = record io.tx.da { items = io.tx.da.items ++ (w.written ++ w.room) };
    fd = record io.tx.fd { items = io.tx.fd.items ++ (w.written_fds ++ w.room_fds) };
  };
}

abbrev pub written : Io → Result (Unit {0}) × WriteBuf → Transmitted
written io (ok done, w) = sent (laid_down io w)
written io (fail e, w) = send_panic

module _ {A : Type 0} (M : MessageType A) (object_id : Object) (msg : A) where
  abbrev pub total_len : ℕ
  total_len = data_len + M.value.len msg

  abbrev pub header_of : ℕ → MessageHeader
  header_of len = record { object_id = object_id; datalen = len % 2 ^ 16; opcode = M.op }

  abbrev reserve : Io → Option (List ℕ × List ℕ) → Option (List RawFd × List RawFd) → Reserved
  reserve io (some (da, da_rest)) (some (fd, fd_rest)) = with_header (shrunk io da_rest fd_rest) (
      message_header.write (header_of (length da))
        (record { written = []; room = da; written_fds = []; room_fds = fd }))
  reserve io none fd = no_room io
  reserve io (some da) none = no_room io

  unfoldable pub tx_msg_buf : Io → Reserved
  unfolding message_header
  tx_msg_buf io =
      reserve (record io { interest = wants_send io.interest })
        (split_at (unused_end io.tx.da) total_len)
        (split_at (unused_end io.tx.fd) (0 + M.value.fd_count))

  -- `msg.write(&mut buf.da, &mut buf.fd).ok().expect("serialization error")`.
  abbrev pub write_reserved : Reserved → Transmitted
  write_reserved (no_room io) = not_sent io
  write_reserved (room_for buf io) = written io (M.value.write msg buf)
  write_reserved reserve_panic = send_panic

  unfoldable pub transmit : Io → Transmitted
  transmit io = write_reserved (tx_msg_buf io)

-- `rx_msg_buf`: the cursor of before and the parts of a message, or what the receiver waits for.
pub record Delivered : Type 0 where
  pub cursor : IoCursor
  pub bytes : List ℕ
  pub fds : List RawFd

abbrev pub wants_recv : Interest → Interest
wants_recv i = if not i.recv_closed then record i { recv = true } else i

-- Where the descriptors are missing, the bytes have been split off all the same: both are restored.
abbrev delivered :
    Io → Option (List ℕ × RingBuf ℕ) → Option (List RawFd × RingBuf RawFd) → Option Delivered × Io
delivered io (some (bytes, da)) (some (fds, fd)) = (
  some (record { cursor = save_cursor io.rx; bytes = bytes; fds = fds }),
  record io { rx = record { da = da; fd = fd } },
)
delivered io (some (bytes, da)) none = (
  none,
  record io {
    interest = wants_recv io.interest;
    rx = restore_cursor (save_cursor io.rx) (record { da = da; fd = io.rx.fd });
  },
)
delivered io none (some (fds, fd)) = (
  none,
  record io {
    interest = wants_recv io.interest;
    rx = restore_cursor (save_cursor io.rx) (record { da = io.rx.da; fd = fd });
  },
)
delivered io none none = (
  none,
  record io { interest = wants_recv io.interest; rx = restore_cursor (save_cursor io.rx) io.rx },
)

unfoldable pub rx_msg_buf : ℕ → ℕ → Io → Option Delivered × Io
unfolding split_data
rx_msg_buf da fd io = delivered io (split_data da io.rx.da) (split_data fd io.rx.fd)
