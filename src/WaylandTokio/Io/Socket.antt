-- ===== src/WaylandTokio/Io/Socket.antt =====
-- `Io::recv`, `Io::send` and `Io::drive_io` of crates/wayland-tokio/src/drive_io.rs.
--
-- What the socket does at each call is an argument. A call of `recvmsg` gives the bytes and the
-- control messages that it delivers, one of `sendmsg` the number of bytes that it takes (with at
-- least one byte it takes all descriptors). A `None` stands for a panic, or for a step outside of
-- the memory of a buffer.
pub mod Stream
pub mod Growth
pub mod Bounds
pub mod Faults
use ecs_compositor.Prelude.{
  ℕ, zero, suc, ◌+◌, ◌-◌, ◌*◌, min, List, [], ◌∷◌, ◌++◌, Bool, true, false, Option, none, some,
  length, take, drop, ltb, leb, not, if◌then◌else◌, ◌&&◌, ◌||◌,
}
use ecs_compositor.Core.Value.{RawFd}
use ecs_compositor.Core.Header.{MessageHeader, content_len}
use ecs_compositor.WaylandTokio.Io.{
  max_message_len, max_fds, RingBuf, BufDir, Interest, Io, whole, is_nil, is_empty, split_data,
  unused_end,
}

-- Whether there is more to do, or an error.
pub data Progress : Type 0 where
  more : Bool → Progress
  os_error : ℕ → Progress

-- Which part of the memory behind the data a `recvmsg` may fill: its length, no call at all, or a
-- length that is negative.
pub data Window : Type 0 where
  stop : Window
  room_of : ℕ → Window
  underflow : Window

abbrev pub checked : ℕ → ℕ → Window
checked a b = if ltb a b then underflow else room_of (a - b)

abbrev pub narrow : Option MessageHeader → ℕ → Window
narrow none len = if leb 8 len then stop else checked len 8
narrow (some hdr) len = if leb (content_len hdr) len then stop else checked (content_len hdr) len

-- The block `'data`.
unfoldable pub data_window : RingBuf ℕ → Option MessageHeader → Window
data_window da hdr =
    if is_nil da.items
    then room_of (max_message_len * 3)
    else if ltb (length (unused_end da)) (max_message_len * 2)
    then narrow hdr (length da.items)
    else room_of (max_message_len * 3)

-- An empty buffer starts again.
unfoldable pub rewound : RingBuf ℕ → RingBuf ℕ
rewound da = if is_nil da.items then record { before = []; items = []; unused = whole da } else da

-- The block `'fd`: an empty buffer starts again, and a nearly full one is moved to its start.
unfoldable pub compacted : RingBuf RawFd → RingBuf RawFd
compacted fd =
    if is_nil fd.items
    then record { before = []; items = []; unused = whole fd }
    else if ltb (length (unused_end fd)) 4
    then record { before = []; items = fd.items; unused = drop (length fd.items) (whole fd) }
    else fd

-- Items that are put behind the data, where there is memory for them.
unfoldable pub appended : {A : Type 0} → List A → RingBuf A → Option (RingBuf A)
appended new b =
    if ltb (length b.unused) (length new)
    then none
    else some (record b { items = b.items ++ new; unused = drop (length new) b.unused })

-- A control message: descriptors, or of another type.
pub data Control : Type 0 where
  rights : List RawFd → Control
  other : Control

-- The loop over the control messages: the descriptors of the first that has some.
unfoldable pub take_rights : List Control → RingBuf RawFd → Option (RingBuf RawFd)
take_rights [] fd = some fd
take_rights (rights fds ∷ later) fd = appended fds fd
take_rights (other ∷ later) fd = take_rights later fd

pub data RecvOutcome : Type 0 where
  recv_closed : RecvOutcome
  received : List ℕ → List Control → RecvOutcome
  recv_would_block : RecvOutcome
  recv_error : ℕ → RecvOutcome

abbrev pub no_recv : Io → Io
no_recv io = record io { interest = record io.interest { recv = false } }

abbrev pub filled : Io → Option (RingBuf ℕ) → Option (RingBuf RawFd) → Option (Progress × Io)
filled io (some da) (some fd) = some (more true, record io { rx = record { da = da; fd = fd } })
filled io (some da) none = none
filled io none fd = none

-- After the `recvmsg`.
abbrev pub on_recv : Io → RecvOutcome → Option (Progress × Io)
on_recv io RecvOutcome.recv_closed =
    some
      (more false, record io { interest = record io.interest { recv = false; recv_closed = true } })
on_recv io (received bytes ctrl) = filled io (appended bytes io.rx.da) (take_rights ctrl io.rx.fd)
on_recv io recv_would_block = some (more false, io)
on_recv io (recv_error code) = some (os_error code, io)

-- The socket fills no more than the window.
abbrev pub in_window : ℕ → RecvOutcome → RecvOutcome
in_window room (received bytes ctrl) = received (take room bytes) ctrl
in_window room RecvOutcome.recv_closed = RecvOutcome.recv_closed
in_window room recv_would_block = recv_would_block
in_window room (recv_error code) = recv_error code

abbrev pub recv_into : Io → RecvOutcome → Window → Option (Progress × Io)
recv_into io outcome stop = some (more false, no_recv io)
recv_into io outcome underflow = none
recv_into io outcome (room_of room) =
    on_recv (record io { rx = record { da = rewound io.rx.da; fd = compacted io.rx.fd } })
      (in_window room outcome)

unfoldable pub recv : RecvOutcome → Io → Option (Progress × Io)
recv outcome io =
    if io.interest.recv_closed
    then some (more false, no_recv io)
    else recv_into io outcome (data_window io.rx.da io.rx_hdr)

pub data SendOutcome : Type 0 where
  send_closed : SendOutcome
  taken : ℕ → SendOutcome
  send_would_block : SendOutcome
  send_error : ℕ → SendOutcome

-- What a step hands to the socket.
pub record Handed : Type 0 where
  pub bytes : List ℕ
  pub fds : List RawFd

abbrev pub nothing_handed : Handed
nothing_handed = record { bytes = []; fds = [] }

abbrev pub no_send : Io → Io
no_send io = record io { interest = record io.interest { send = false } }

abbrev pub with_progress : Handed → Io → Handed × Progress × Io
with_progress h io = if is_empty io.tx then (h, more false, no_send io) else (h, more true, io)

abbrev pub split_both :
    Io
    → Option (List ℕ × RingBuf ℕ)
    → Option (List RawFd × RingBuf RawFd)
    → Option (Handed × Progress × Io)
split_both io (some (bytes, da)) (some (fds, fd)) = some (
    with_progress (record { bytes = bytes; fds = fds })
      (record io { tx = record { da = da; fd = fd } }))
split_both io (some (bytes, da)) none = none
split_both io none fd = none

abbrev pub on_send : Io → SendOutcome → Option (Handed × Progress × Io)
on_send io SendOutcome.send_closed = some (
  nothing_handed,
  more false,
  record io { interest = record io.interest { send = false; send_closed = true } },
)
on_send io (taken count) =
    split_both io (split_data count io.tx.da)
      (split_data (min (length io.tx.fd.items) max_fds) io.tx.fd)
on_send io send_would_block = some (nothing_handed, more false, io)
on_send io (send_error code) = some (nothing_handed, os_error code, io)

unfoldable pub send : SendOutcome → Io → Option (Handed × Progress × Io)
unfolding split_data
send outcome io =
    if is_empty io.tx || io.interest.send_closed
    then some (nothing_handed, more false, no_send io)
    else on_send io outcome
