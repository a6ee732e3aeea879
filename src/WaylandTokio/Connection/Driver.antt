-- ===== src/WaylandTokio/Connection/Driver.antt =====
-- What the tasks see of `poll_with_io` (crates/wayland-tokio/src/connection/ready_fut.rs).
use ecs_compositor.Prelude.{Bool, true, false, ◌||◌, Option, none, some, if◌then◌else◌}
use ecs_compositor.WaylandTokio.Io.{Io, query_interest, TokioInterest}
use ecs_compositor.WaylandTokio.Io.Drive.{Driven}

pub data Driving : Type 0 where
  ready_io : Io → Driving
  failed_io : Io → Driving
  pending_io : Driving

-- What the future of the socket does: it is pending, it fails, or the socket is ready.
pub data SocketReady : Type 0 where
  not_ready : SocketReady
  ready_error : SocketReady
  guard_for : (Io → Driven) → SocketReady

-- After the call of `Io::drive_io`; `None` is a panic in it, or a call that does not return.
abbrev after_drive : Driven → Option Driving
after_drive (Driven.returned h io) = some (ready_io io)
after_drive (Driven.failed code h io) = some (failed_io io)
after_drive Driven.panicked = none
after_drive (Driven.looping h io) = none

abbrev on_ready : Io → SocketReady → Option Driving
on_ready io not_ready = some pending_io
on_ready io ready_error = some (failed_io io)
on_ready io (guard_for drive) = after_drive (drive io)

abbrev unless_closed : Io → Option Driving
unless_closed io =
    if io.interest.recv_closed || io.interest.send_closed
    then some (failed_io io)
    else some (ready_io io)

abbrev with_interest : Io → SocketReady → Option TokioInterest → Option Driving
with_interest io s none = unless_closed io
with_interest io s (some interest) = on_ready io s

-- `poll_with_io`: whether a future is there already, and what the socket does.
unfoldable pub poll_with_io : Bool → SocketReady → Io → Option Driving
unfolding query_interest
poll_with_io true s io = on_ready io s
poll_with_io false s io = with_interest io s (query_interest io)
