-- ===== src/WaylandTokio/Registry/Senders.antt =====
-- The tasks that wait to send: none is lost, and those that wait for their turn are woken in order.
use ecs_compositor.Prelude.{
  ℕ, ◌+◌, ◌≡◌, refl, sym, ap, ap₂, ◌∙◌, List, [], ◌∷◌, ◌++◌, append-nil, append_assoc, Option, none,
  some, arith, ◌==◌, if◌then◌else◌,
}
use ecs_compositor.WaylandTokio.Registry.{
  Waker, Registry, ReceiverMap, wake_sender, wake_recver, register_send, register_send_locked,
  woken, first_other,
}

-- The tasks that wait to send, in the order in which they are woken.
abbrev pub locked_task : Option Waker → List Waker
locked_task none = []
locked_task (some w) = w ∷ []

abbrev pub waiting : Registry → List Waker
waiting r = locked_task r.sender_locked ++ r.sender_queue

-- What happens to them: a task has to wait for its turn, or for the lock of the buffers; a sender
-- or a receiver has finished.
pub data SendEvent : Type 0 where
  wait_turn : Waker → SendEvent
  wait_lock : Waker → SendEvent
  sent : SendEvent
  received : Waker → SendEvent

-- The task of a receiver that is woken next: that of the first entry, where it is not the polling
-- task.
abbrev pub next_receiver : Waker → ReceiverMap → List Waker
next_receiver cx [] = []
next_receiver cx ((key, entry) ∷ rest) = if entry.waker == cx then [] else entry.waker ∷ []

-- The tasks that an event wakes, and the registry after it.
abbrev on_event : SendEvent → Registry → List Waker × Registry
on_event (wait_turn w) r = ([], register_send w r)
on_event (wait_lock w) r = ([], register_send_locked w r)
on_event sent r = ((wake_sender r).1, (wake_sender r).2)
on_event (received cx) r = wake_recver cx r

unfoldable pub run_senders : List SendEvent → Registry → List Waker × Registry
run_senders [] r = ([], r)
run_senders (e ∷ events) r =
    let (ws, r') = on_event e r in let (later, r'') = run_senders events r' in (ws ++ later, r'')

-- The tasks that the events make wait, and the receivers that are to be woken.
abbrev pub arrivals : ReceiverMap → List SendEvent → List Waker
arrivals map [] = []
arrivals map (wait_turn w ∷ events) = w ∷ arrivals map events
arrivals map (wait_lock w ∷ events) = w ∷ arrivals map events
arrivals map (sent ∷ events) = arrivals map events
arrivals map (received cx ∷ events) = next_receiver cx map ++ arrivals map events

abbrev pub times : Waker → List Waker → ℕ
times w [] = 0
times w (x ∷ xs) = (if x == w then 1 else 0) + times w xs

times-append : (w : Waker) (xs ys : List Waker) → times w (xs ++ ys) ≡ times w xs + times w ys
times-append w [] ys = omega arith
times-append w (x ∷ xs) ys = omega (arith, times-append w xs ys)

module _ (next_id : ℕ) (map_of : ReceiverMap) where
  abbrev registry : Option Waker → List Waker → Registry
  registry locked queue = record {
    next_id = next_id;
    receiver_map = map_of;
    sender_queue = queue;
    sender_locked = locked;
  }

  wake_sender_by :
      (locked : Option Waker) (queue : List Waker)
      → let r = registry locked queue in (wake_sender r).1 ++ waiting (wake_sender r).2 ≡ waiting r
  unfolding wake_sender
  wake_sender_by (some w) queue = refl
  wake_sender_by none [] = refl
  wake_sender_by none (w ∷ queue) = refl

  register_send_locked_by :
      (w x : Waker) (locked : Option Waker) (queue : List Waker)
      → let r = registry locked queue in
        times w (waiting (register_send_locked x r)) ≡ times w (waiting r) + times w (x ∷ [])
  unfolding register_send_locked
  register_send_locked_by w x none queue = omega arith
  register_send_locked_by w x (some y) queue = omega (arith, times-append w queue (x ∷ []))

-- An event wakes the first of the waiting tasks, or takes one in.
wake_sender-waiting : (r : Registry) → (wake_sender r).1 ++ waiting (wake_sender r).2 ≡ waiting r
wake_sender-waiting r = wake_sender_by r.next_id r.receiver_map r.sender_locked r.sender_queue

register_send-waiting :
    (w : Waker) (r : Registry) → waiting (register_send w r) ≡ waiting r ++ w ∷ []
unfolding register_send
register_send-waiting w r = sym (append_assoc (locked_task r.sender_locked) r.sender_queue (w ∷ []))

woken-locked : (locked : Option Waker) → woken locked ≡ locked_task locked
woken-locked none = refl
woken-locked (some w) = refl

first_other-next : (cx : Waker) (map : ReceiverMap) → first_other cx map ≡ next_receiver cx map
first_other-next cx [] = refl
first_other-next cx ((key, entry) ∷ rest) = ground arith

-- Finishing a receiver wakes the sender that waits for the lock, and the next receiver.
pub wake_recver-next :
    (cx : Waker) (r : Registry)
    → wake_recver cx r ≡ (
      locked_task r.sender_locked ++ next_receiver cx r.receiver_map,
      record r { sender_locked = none },
    )
unfolding wake_recver
wake_recver-next cx r =
    ap₂ (λ ws l. (ws ++ l, record r { sender_locked = none })) (woken-locked r.sender_locked)
      (first_other-next cx r.receiver_map)

wake_recver-times :
    (w cx : Waker) (r : Registry)
    → times w (wake_recver cx r).0 + times w (waiting (wake_recver cx r).1)
      ≡ times w (waiting r) + times w (next_receiver cx r.receiver_map)
wake_recver-times w cx r = omega (
  arith,
  ap (λ (p : List Waker × Registry). times w p.0 + times w (waiting p.1)) (wake_recver-next cx r),
  times-append w (locked_task r.sender_locked) (next_receiver cx r.receiver_map),
  times-append w (locked_task r.sender_locked) r.sender_queue,
)

-- No event of a sender or of a finished receiver registers a receiver.
module _ (next_id : ℕ) (map_of : ReceiverMap) where
  wake_sender-map :
      (locked : Option Waker) (queue : List Waker)
      → (wake_sender (registry next_id map_of locked queue)).2.receiver_map ≡ map_of
  unfolding wake_sender
  wake_sender-map (some w) queue = refl
  wake_sender-map none [] = refl
  wake_sender-map none (w ∷ queue) = refl

  register_send_locked-map :
      (x : Waker) (locked : Option Waker) (queue : List Waker)
      → (register_send_locked x (registry next_id map_of locked queue)).receiver_map ≡ map_of
  unfolding register_send_locked
  register_send_locked-map x none queue = refl
  register_send_locked-map x (some y) queue = refl

on_event-map : (e : SendEvent) (r : Registry) → (on_event e r).1.receiver_map ≡ r.receiver_map
unfolding register_send wake_recver
on_event-map (wait_turn x) r = refl
on_event-map (wait_lock x) r =
    register_send_locked-map r.next_id r.receiver_map x r.sender_locked r.sender_queue
on_event-map sent r = wake_sender-map r.next_id r.receiver_map r.sender_locked r.sender_queue
on_event-map (received cx) r = refl

on_event-times :
    (w : Waker) (e : SendEvent) (r : Registry)
    → times w (on_event e r).0 + times w (waiting (on_event e r).1)
      ≡ times w (waiting r) + times w (arrivals r.receiver_map (e ∷ []))
on_event-times w (wait_turn x) r =
    omega (arith, ap (times w) (register_send-waiting x r), times-append w (waiting r) (x ∷ []))
on_event-times w (wait_lock x) r =
    omega
      (arith, register_send_locked_by r.next_id r.receiver_map w x r.sender_locked r.sender_queue)
on_event-times w sent r = omega (
  arith,
  ap (times w) (wake_sender-waiting r),
  times-append w (wake_sender r).1 (waiting (wake_sender r).2),
)
on_event-times w (received cx) r =
    omega
      (arith, wake_recver-times w cx r, ap (times w) (append-nil (next_receiver cx r.receiver_map)))

arrivals-times :
    (w : Waker) (map : ReceiverMap) (e : SendEvent) (events : List SendEvent)
    → times w (arrivals map (e ∷ events))
      ≡ times w (arrivals map (e ∷ [])) + times w (arrivals map events)
arrivals-times w map (wait_turn x) events = omega arith
arrivals-times w map (wait_lock x) events = omega arith
arrivals-times w map sent events = omega arith
arrivals-times w map (received cx) events = omega (
  arith,
  ap (times w) (append-nil (next_receiver cx map)),
  times-append w (next_receiver cx map) (arrivals map events),
)

-- In every run of senders that wait or are woken, and of receivers that finish, no waker is lost
-- or made up: each is among those woken or the senders that still wait exactly as often as it
-- waited before, came to wait, or was the first receiver, and not the finishing task itself, when
-- a receiver finished.
pub run_senders-conserved :
    (w : Waker) (events : List SendEvent) (r : Registry)
    → let (ws, r') = run_senders events r in
      times w ws + times w (waiting r')
      ≡ times w (waiting r) + times w (arrivals r.receiver_map events)
unfolding run_senders
run_senders-conserved w [] r = omega arith
run_senders-conserved w (e ∷ events) r =
    let r' = (on_event e r).1 in
    omega (
      arith,
      on_event-times w e r,
      arrivals-times w r.receiver_map e events,
      ap (λ map. times w (arrivals map events)) (on_event-map e r),
      run_senders-conserved w events r',
      times-append w (on_event e r).0 (run_senders events r').0,
    )

-- No task is made to wait for the lock of the buffers, and no receiver finishes.
abbrev pub OnlyTurns : List SendEvent → Type 0
OnlyTurns [] = Unit {0}
OnlyTurns (wait_lock w ∷ events) = ⊥
OnlyTurns (wait_turn w ∷ events) = OnlyTurns events
OnlyTurns (sent ∷ events) = OnlyTurns events
OnlyTurns (received cx ∷ events) = ⊥

-- Where the senders only wait for their turn or finish, those that wait are woken in the order in
-- which they came to wait, and the others still wait in that order.
pub run_senders-fifo :
    (map : ReceiverMap) (events : List SendEvent) (r : Registry)
    → OnlyTurns events
    → let (ws, r') = run_senders events r in ws ++ waiting r' ≡ waiting r ++ arrivals map events
unfolding run_senders
run_senders-fifo map [] r h = sym (append-nil (waiting r))
run_senders-fifo map (wait_lock w ∷ events) r h = absurd h
run_senders-fifo map (wait_turn w ∷ events) r h =
    run_senders-fifo map events (register_send w r) h
    ∙ ap (λ l. l ++ arrivals map events) (register_send-waiting w r)
    ∙ append_assoc (waiting r) (w ∷ []) (arrivals map events)
run_senders-fifo map (sent ∷ events) r h =
    let r' = (wake_sender r).2 in
    append_assoc (wake_sender r).1 (run_senders events r').0 (waiting (run_senders events r').1)
    ∙ ap (λ l. (wake_sender r).1 ++ l) (run_senders-fifo map events r' h)
    ∙ sym (append_assoc (wake_sender r).1 (waiting r') (arrivals map events))
    ∙ ap (λ l. l ++ arrivals map events) (wake_sender-waiting r)
run_senders-fifo map (received cx ∷ events) r h = absurd h
