-- ===== src/WaylandTokio/Io/Drive.antt =====
-- `Io::drive_io` of crates/wayland-tokio/src/drive_io.rs: sending and receiving in turns.
--
-- A round is what the socket does at the two calls of one turn of the loop.
pub mod Stream
pub mod Room
use ecs_compositor.Prelude.{
  ℕ, List, [], ◌∷◌, ◌++◌, Bool, true, false, Option, none, some, not, if◌then◌else◌, ◌&&◌,
}
use ecs_compositor.Core.Value.{RawFd}
use ecs_compositor.WaylandTokio.Io.{Interest, Io}
use ecs_compositor.WaylandTokio.Io.Socket.{
  Progress, more, os_error, RecvOutcome, SendOutcome, Handed, nothing_handed, send, recv,
}
use ecs_compositor.WaylandTokio.Io.Socket.Bounds.{bytes_in, fds_in, window_at}

-- What the guard says of the socket.
pub record Ready : Type 0 where
  pub readable : Bool
  pub writable : Bool
  pub read_closed : Bool
  pub write_closed : Bool

abbrev pub Round : Type 0
Round = SendOutcome × RecvOutcome

-- What went through the socket: what was handed to it, and what it delivered.
pub record Traffic : Type 0 where
  pub handed : Handed
  pub bytes : List ℕ
  pub fds : List RawFd

abbrev pub no_traffic : Traffic
no_traffic = record { handed = nothing_handed; bytes = []; fds = [] }

abbrev pub handing : Handed → Traffic
handing h = record no_traffic { handed = h }

-- What the socket delivers at a call of `recv`, whatever is done with it: the bytes that the window
-- of the state lets in, and the descriptors of the first control message with some.
abbrev pub socket_delivers : RecvOutcome → Io → Traffic
socket_delivers outcome io = record {
  handed = nothing_handed;
  bytes = bytes_in (window_at io) outcome;
  fds = fds_in (window_at io) outcome;
}

-- How the call ends, with all that went through the socket: it returns, with or without an error,
-- or it panics; it is still looping behind the rounds of the run.
pub data Driven : Type 0 where
  returned : Traffic → Io → Driven
  failed : ℕ → Traffic → Io → Driven
  panicked : Driven
  looping : Traffic → Io → Driven

abbrev pub join : Traffic → Traffic → Traffic
join h k = record {
  handed = record { bytes = h.handed.bytes ++ k.handed.bytes; fds = h.handed.fds ++ k.handed.fds };
  bytes = h.bytes ++ k.bytes;
  fds = h.fds ++ k.fds;
}

abbrev pub before : Traffic → Driven → Driven
before h (returned k io) = returned (join h k) io
before h (failed code k io) = failed code (join h k) io
before h panicked = panicked
before h (looping k io) = looping (join h k) io

-- Half a turn: `writing = self.send(guard)?` and `reading = self.recv(guard)?`.
abbrev after_send : (Bool → Io → Driven) → Option (Handed × Progress × Io) → Driven
after_send next none = panicked
after_send next (some (h, more writing, io)) = before (handing h) (next writing io)
after_send next (some (h, os_error code, io)) = failed code (handing h) io

abbrev after_recv : Traffic → (Bool → Io → Driven) → Option (Progress × Io) → Driven
after_recv t next none = panicked
after_recv t next (some (more reading, io)) = before t (next reading io)
after_recv t next (some (os_error code, io)) = failed code t io

abbrev pub send_half : SendOutcome → Bool → Io → (Bool → Io → Driven) → Driven
send_half outcome writing io next = elim writing [
  | true ↦ after_send next (send outcome io)
  | false ↦ next false io
]

abbrev pub recv_half : RecvOutcome → Bool → Io → (Bool → Io → Driven) → Driven
recv_half outcome reading io next = elim reading [
  | true ↦ after_recv (socket_delivers outcome io) next (recv outcome io)
  | false ↦ next false io
]

unfoldable pub drive_loop : List Round → (reading writing : Bool) → Io → Driven
drive_loop [] true writing io = looping no_traffic io
drive_loop [] false true io = looping no_traffic io
drive_loop [] false false io = returned no_traffic io
drive_loop ((s, r) ∷ rounds) reading writing io = elim (not reading && not writing) [
  | true ↦ returned no_traffic io
  | false ↦ send_half s writing io (λ writing' io'.
      recv_half r reading io' (λ reading' io''. drive_loop rounds reading' writing' io''))
]

abbrev pub closed_reading : Bool → Io → Io
closed_reading closed io =
    if closed then record io { interest = record io.interest { recv_closed = true } } else io

abbrev pub closed_writing : Bool → Io → Io
closed_writing closed io =
    if closed
    then record io { interest = record io.interest { send_closed = true; send = false } }
    else io

abbrev pub noted : Ready → Io → Io
noted ready io = closed_writing ready.write_closed (closed_reading ready.read_closed io)

unfoldable pub drive_io : List Round → Ready → Io → Driven
drive_io rounds ready io =
    let io' = noted ready io in
    drive_loop rounds (io'.interest.recv && ready.readable) (io'.interest.send && ready.writable)
      io'
