-- ===== src/WaylandTokio/Recv/Poll.antt =====
-- `RecvState::recv` of crates/wayland-tokio/src/buf/recv/io.rs: the socket is read, messages are
-- collected, and a handle is allocated for them.
pub mod Handle
pub mod Tests
use ecs_compositor.Prelude.{
  ℕ, List, Bool, true, false, Option, none, some, ◌==◌, ◌&&◌, ◌||◌, not, if◌then◌else◌,
}
use ecs_compositor.Phasesync.Position.{Pos}
use ecs_compositor.WaylandTokio.Recv.{Info, Bufs, RecvState, init_bufs, new_span}
use ecs_compositor.WaylandTokio.Recv.Collect.{
  Callback, Collected, Stop, parse_error, not_contiguous, no_header, excluded, no_message,
  collect_chunks,
}
use ecs_compositor.WaylandTokio.Recv.Slots.{
  RecvHandle, Allocated, no_handle, allocated, no_slots, too_few, alloc_handle,
}
use ecs_compositor.WaylandTokio.Recv.Sock.{
  SockOutcome, SockEnd, sock_open, sock_closed, sock_failed, read_sock_into_buf,
}
use ecs_compositor.WaylandTokio.Recv.Commit.{Committed, commit_buf_state}

-- What a poll returns: with a handle or without, an error of the socket, and whether a header is
-- invalid; a panic in the allocation of slots or
-- in the commit; or the run is not over in one of the first loops.
pub data PolledRecv : Type 0 where
  pending : PolledRecv
  ready : Option RecvHandle → Option ℕ → Bool → PolledRecv
  panicked : PolledRecv
  looping : PolledRecv

-- With the state, and what is done to the shared word where it is reached.
pub record RecvRun : Type 0 where
  pub polled : PolledRecv
  pub state : RecvState
  pub word : Option (Committed × List Pos)

abbrev pub stopped : PolledRecv → RecvState → RecvRun
stopped p s = record { polled = p; state = s; word = none }

abbrev pub after_commit :
    PolledRecv → RecvState → Option (RecvState × Committed × List Pos) → RecvRun
after_commit p s none = stopped panicked s
after_commit p s (some (s', end, cleared)) = record {
  polled = p;
  state = s';
  word = some (end, cleared);
}

abbrev pub io_err : SockEnd → Option ℕ
io_err sock_open = none
io_err sock_closed = none
io_err (sock_failed code) = some code
io_err SockEnd.looping = none

abbrev pub is_ok : Option ℕ → Bool
is_ok none = true
is_ok (some code) = false

abbrev pub parse_err : Stop → Bool
parse_err parse_error = true
parse_err not_contiguous = false
parse_err no_header = false
parse_err excluded = false
parse_err no_message = false
parse_err Stop.looping = false

abbrev pub still_looping : SockEnd → Stop → Bool
still_looping SockEnd.looping stop = true
still_looping sock_open Stop.looping = true
still_looping sock_closed Stop.looping = true
still_looping (sock_failed code) Stop.looping = true
still_looping sock_open stop = false
still_looping sock_closed stop = false
still_looping (sock_failed code) stop = false

module _ (slot_count : ℕ → ℕ) (mets : List Info) (wait : Info) where
  abbrev pub with_commit : PolledRecv → Bufs → Option RecvHandle → RecvState → RecvRun
  with_commit p b handle s = after_commit p s (commit_buf_state mets b handle wait s)

  abbrev pub with_slots : SockEnd → Stop → Bufs → RecvState → Allocated → RecvRun
  with_slots e stop b s no_handle = with_commit (ready none (io_err e) (parse_err stop)) b none s
  with_slots e stop b s (allocated handle b') =
      with_commit (ready (some handle) (io_err e) (parse_err stop)) b' (some handle) s
  with_slots e stop b s no_slots = stopped panicked s
  with_slots e stop b s too_few = stopped panicked s

  abbrev pub nothing_there : {S : Type 0} → SockEnd → RecvState → Collected S → Bool
  nothing_there e s c =
      c.span.count == 0 && not s.socket_closed && is_ok (io_err e) && not (parse_err c.stop)

  abbrev pub finish : {S : Type 0} → SockEnd → RecvState → Collected S → RecvRun
  finish e s c =
      if still_looping e c.stop
      then stopped looping s
      else if nothing_there e s c
      then with_commit pending c.bufs none s
      else with_slots e c.stop c.bufs s (alloc_handle slot_count c.span c.bufs)

  module _ {S : Type 0} (cb : Callback S) (memory : List ℕ) (rounds : ℕ) where
    abbrev pub collected_from : Bufs → S → Collected S
    collected_from b state =
        collect_chunks cb memory rounds b (new_span b.recv.da.free b.recv.ct.free) state

    -- The memory is that after the socket has written to it.
    unfoldable pub recv : List SockOutcome → Info → RecvState → S → RecvRun
    recv outcomes free s state =
        let (e, s', b) = read_sock_into_buf outcomes s (init_bufs s wait free) in
        finish e s' (collected_from b state)
