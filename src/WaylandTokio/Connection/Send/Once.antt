-- ===== src/WaylandTokio/Connection/Send/Once.antt =====
-- A message is put into the buffer once.
use ecs_compositor.Prelude.{ℕ, ◌+◌, ◌≡◌, ◌≢◌, ◌⊎◌, List, [], ◌∷◌, Bool, true, false}
use ecs_compositor.Core.Object.{Object}
use ecs_compositor.WaylandTokio.Registry.{Waker, Registry}
use ecs_compositor.WaylandTokio.Io.{Io}
use ecs_compositor.WaylandTokio.Io.Messages.{MessageType}
use ecs_compositor.WaylandTokio.Connection.Send.{ready, End, Environment, poll_send}

-- A poll of a task that has not sent: the message is in the buffer now; it is not, and the task is
-- not done; or the connection is closed.
abbrev FirstPoll : Io → End → Type 0
FirstPoll io e =
    ((e.did_send ≡ true) × (e.transmitted ≡ 1))
    ⊎ (((e.did_send ≡ false) × (e.transmitted ≡ 0) × (e.polled ≢ ready))
        ⊎ ((io.interest.send_closed ≡ true) × (e.did_send ≡ true) × (e.transmitted ≡ 0)))

-- A poll, with what the other tasks and the socket have made of the state before it.
pub record Turn : Type 0 where
  pub env : Environment
  pub cx : Waker
  pub io : Io
  pub registry : Registry

-- The connection was closed to the sender at one of the polls.
abbrev pub SomeClosed : List Turn → Type 0
SomeClosed [] = ⊥
SomeClosed (t ∷ ts) = (t.io.interest.send_closed ≡ true) ⊎ SomeClosed ts

module _ {A : Type 0} (M : MessageType A) (o : Object) (msg : A) where
  abbrev poll_at : Turn → Bool → End
  poll_at t b = poll_send t.env t.cx M o msg b t.io t.registry

  -- How often the message is put into the buffer in all polls of a `Send`.
  abbrev pub times_sent : List Turn → Bool → ℕ
  times_sent [] b = 0
  times_sent (t ∷ ts) b = (poll_at t b).transmitted + times_sent ts (poll_at t b).did_send

  abbrev pub SomeReady : List Turn → Bool → Type 0
  SomeReady [] b = ⊥
  SomeReady (t ∷ ts) b = ((poll_at t b).polled ≡ ready) ⊎ SomeReady ts (poll_at t b).did_send
