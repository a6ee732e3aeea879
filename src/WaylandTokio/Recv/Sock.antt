-- ===== src/WaylandTokio/Recv/Sock.antt =====
-- `RecvState::read_sock_into_buf` of crates/wayland-tokio/src/buf/recv/io.rs: what the socket has is
-- taken into the receive buffer.
--
-- The socket writes to the memory of the free spans; the model has the spans.
pub mod Room
use ecs_compositor.Prelude.{ℕ, List, [], ◌∷◌, Bool, true, false, ◌==◌, ◌&&◌, if◌then◌else◌}
use ecs_compositor.WaylandTokio.Span.{produce, consume}
use ecs_compositor.WaylandTokio.Recv.{Bufs, Spans, RecvState}

-- What a call of `poll_recv` gives back: the counts of an `IoCount`, an error, or nothing yet.
pub data SockOutcome : Type 0 where
  io_count : (da ct : ℕ) → SockOutcome
  sock_error : ℕ → SockOutcome
  sock_pending : SockOutcome

-- How the loop ends: nothing is there, the socket was closed, an error; or the run is not over.
pub data SockEnd : Type 0 where
  sock_open : SockEnd
  sock_closed : SockEnd
  sock_failed : ℕ → SockEnd
  looping : SockEnd

abbrev pub taken_in : ℕ → ℕ → Bufs → Bufs
taken_in da ct b = record b {
  recv = record { da = produce b.recv.da da; ct = produce b.recv.ct ct };
  free = record { da = consume b.free.da da; ct = consume b.free.ct ct };
}

unfoldable pub read_loop : List SockOutcome → Bufs → SockEnd × Bufs
read_loop [] b = (looping, b)
read_loop (sock_pending ∷ later) b = (sock_open, b)
read_loop (sock_error code ∷ later) b = (sock_failed code, b)
read_loop (io_count da ct ∷ later) b =
    if da == 0 && ct == 0 then (sock_closed, b) else read_loop later (taken_in da ct b)

abbrev closed_by : SockEnd → RecvState → RecvState
closed_by sock_closed s = record s { socket_closed = true }
closed_by sock_open s = s
closed_by (sock_failed code) s = s
closed_by looping s = s

unfoldable pub read_sock_into_buf : List SockOutcome → RecvState → Bufs → SockEnd × RecvState × Bufs
read_sock_into_buf outcomes s b =
    if s.socket_closed
    then (sock_open, s, b)
    else (let (e, b') = read_loop outcomes b in (e, closed_by e s, b'))
