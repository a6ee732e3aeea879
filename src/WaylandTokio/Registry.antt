-- ===== src/WaylandTokio/Registry.antt =====
-- crates/wayland-tokio/src/connection/registry.rs: the ids of objects, and the tasks that wait for
-- a message or for their turn to send.
--
-- A `Waker` is the number of the task that it wakes, and a method that wakes tasks returns them in
-- order. The map is a `BTreeMap` of the standard library: a list with ascending keys. The lock of
-- the registry is held throughout each method.
pub mod Senders
pub mod Receivers
pub mod Objects
pub mod Tests
use ecs_compositor.Prelude.{
  ℕ, ◌+◌, ◌-◌, ◌^◌, min, List, [], ◌∷◌, ◌++◌, Bool, true, false, Option, none, some, ltb, ◌==◌,
  if◌then◌else◌, not,
}

abbrev pub Waker : Type 0
Waker = ℕ

pub record RecvEntry : Type 0 where
  pub waker : Waker
  pub fd_count : ℕ → Option ℕ

abbrev pub ReceiverMap : Type 0
ReceiverMap = List (ℕ × RecvEntry)

pub record Registry : Type 0 where
  pub next_id : ℕ
  pub receiver_map : ReceiverMap
  pub sender_queue : List Waker
  pub sender_locked : Option Waker

abbrev pub new : Registry
new = record { next_id = 2; receiver_map = []; sender_queue = []; sender_locked = none }

-- `new_object`: the id of the new object. (`saturating_add` of a `NonZeroU32`.)
unfoldable pub new_object : Registry → ℕ × Registry
new_object r = (r.next_id, record r { next_id = min (r.next_id + 1) (2 ^ 32 - 1) })

-- The map: `get`, and `entry` with what `register_recv` does in its two cases.
unfoldable pub get : ℕ → ReceiverMap → Option RecvEntry
get id [] = none
get id ((key, entry) ∷ rest) = if key == id then some entry else get id rest

unfoldable pub register_entry : ℕ → RecvEntry → ReceiverMap → ReceiverMap
register_entry id entry [] = (id, entry) ∷ []
register_entry id entry ((key, old) ∷ rest) =
    if key == id
    then (key, record old { waker = entry.waker }) ∷ rest
    else if ltb id key
    then (id, entry) ∷ (key, old) ∷ rest
    else (key, old) ∷ register_entry id entry rest

unfoldable pub register_recv : ℕ → (ℕ → Option ℕ) → Waker → Registry → Registry
register_recv id fd_count waker r = record r {
  receiver_map = register_entry id (record { waker = waker; fd_count = fd_count }) r.receiver_map;
}

unfoldable pub register_send : Waker → Registry → Registry
register_send waker r = record r { sender_queue = r.sender_queue ++ waker ∷ [] }

abbrev locked_or_queued : Waker → Option Waker → Registry → Registry
locked_or_queued waker none r = record r { sender_locked = some waker }
locked_or_queued waker (some locked) r = record r { sender_queue = r.sender_queue ++ waker ∷ [] }

unfoldable pub register_send_locked : Waker → Registry → Registry
register_send_locked waker r = locked_or_queued waker r.sender_locked r

abbrev pop_front : List Waker → Registry → Bool × List Waker × Registry
pop_front [] r = (false, [], r)
pop_front (waker ∷ rest) r = (true, waker ∷ [], record r { sender_queue = rest })

abbrev wake_locked : Option Waker → Registry → Bool × List Waker × Registry
wake_locked (some waker) r = (true, waker ∷ [], record r { sender_locked = none })
wake_locked none r = pop_front r.sender_queue r

-- `wake_sender`: its result, the tasks that it wakes and the new registry.
unfoldable pub wake_sender : Registry → Bool × List Waker × Registry
wake_sender r = wake_locked r.sender_locked r

abbrev pub woken : Option Waker → List Waker
woken none = []
woken (some waker) = waker ∷ []

-- `will_wake` compares the tasks.
abbrev pub first_other : Waker → ReceiverMap → List Waker
first_other cx [] = []
first_other cx ((key, entry) ∷ rest) = if not (entry.waker == cx) then entry.waker ∷ [] else []

-- `wake_recver`, with the waker of the context.
unfoldable pub wake_recver : Waker → Registry → List Waker × Registry
wake_recver cx r =
    (woken r.sender_locked ++ first_other cx r.receiver_map, record r { sender_locked = none })
