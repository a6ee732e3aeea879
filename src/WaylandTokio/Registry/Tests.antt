-- ===== src/WaylandTokio/Registry/Tests.antt =====
-- The theorems on the registry at concrete values.
use ecs_compositor.Prelude.{
  List, refl, ℕ, ◌+◌, ◌≤◌, ◌≡◌, ◌↔◌, [], ◌∷◌, ◌++◌, some, Option, arith, get_or, ◌==◌,
  if◌then◌else◌,
}
use ecs_compositor.WaylandTokio.Registry.{
  Registry, new, get, register_recv, register_send, register_send_locked, wake_recver, wake_sender,
  woken,
}
use ecs_compositor.WaylandTokio.Registry.Objects.{largest, new_objects, new_objects-distinct}
use ecs_compositor.WaylandTokio.Registry.Senders.{
  SendEvent, waiting, wait_turn, wait_lock, sent, received, run_senders, arrivals, times,
  run_senders-conserved, run_senders-fifo,
}
use ecs_compositor.WaylandTokio.Registry.Receivers.{
  new_object_of, register_recv_of, wake_sender_of, run_methods, IsRegistry, run_methods-IsRegistry,
  register_recv-dispatch,
}

new_objects-distinct_example :
    (get_or (new_objects 3 new) 0 0 ≡ get_or (new_objects 3 new) 2 0) ↔ (largest ≤ new.next_id + 0)
new_objects-distinct_example =
    new_objects-distinct 3 0 2 new (omega arith) (omega arith) (omega arith)

abbrev no_fds : ℕ → Option ℕ
no_fds opcode = some 0

-- The task 8 receives for the object 2.
abbrev receiving : Registry
receiving = record new { receiver_map = (2, record { waker = 8; fd_count = no_fds }) ∷ [] }

abbrev events : List SendEvent
events = wait_turn 4 ∷ wait_lock 5 ∷ received 6 ∷ sent ∷ []

run_senders-conserved_example :
    let (ws, r) = run_senders events receiving in
    times 5 ws + times 5 (waiting r)
    ≡ times 5 (waiting receiving) + times 5 (arrivals receiving.receiver_map events)
run_senders-conserved_example = run_senders-conserved 5 events receiving

-- The receiver wakes the sender that waits for the lock, and the task 8.
run_senders_received : (run_senders events receiving).0 ≡ 5 ∷ 8 ∷ 4 ∷ []
unfolding run_senders register_send register_send_locked wake_recver wake_sender
run_senders_received = refl

run_senders-fifo_example :
    let (ws, r) = run_senders (wait_turn 4 ∷ wait_turn 5 ∷ sent ∷ []) new in
    ws ++ waiting r ≡ waiting new ++ arrivals [] (wait_turn 4 ∷ wait_turn 5 ∷ sent ∷ [])
run_senders-fifo_example = run_senders-fifo [] (wait_turn 4 ∷ wait_turn 5 ∷ sent ∷ []) new tt

new-IsRegistry : IsRegistry new
new-IsRegistry = record { next_object = (omega arith, omega arith); ascending = tt }

run_methods-IsRegistry_example : IsRegistry (
    run_methods
      (new_object_of ∷ register_recv_of 2 (omega arith) no_fds 9 ∷ wake_sender_of ∷ [])
      new)
run_methods-IsRegistry_example =
    run_methods-IsRegistry
      (new_object_of ∷ register_recv_of 2 (omega arith) no_fds 9 ∷ wake_sender_of ∷ []) new
      new-IsRegistry

register_recv-dispatch_example :
    (wake_recver 1 (register_recv 2 no_fds 9 new)).0
    ≡ woken new.sender_locked ++ (if 9 == 1 then [] else 9 ∷ [])
unfolding get
register_recv-dispatch_example =
    register_recv-dispatch new 2 no_fds 9 1 new-IsRegistry (omega arith) (λ j e h. absurd (cc h))
