-- ===== src/Compositor/Tests.antt =====
-- The theorems on the queue at concrete values.
use ecs_compositor.Prelude.{ℕ, ◌≡◌, refl, arith, List, [], ◌∷◌, true, false}
use ecs_compositor.Compositor.Subqueue.{Attempt, allocated, looping, allocate, enough_space, fit}
use ecs_compositor.Compositor.Subqueue.Plan.{GoodPlan, enough_space-GoodPlan}
use ecs_compositor.Compositor.Subqueue.Run.{
  DecidedBy, allocate-DecidedBy, quiet, allocate_wrap_stuck,
}
use ecs_compositor.Prelude.{◌≢◌, ◌⊎◌, ◌+◌, some, none}
use ecs_compositor.Compositor.Deallocate.{Store, set_active, hand_over, cleanup, deallocate}
use ecs_compositor.Compositor.Deallocate.Cleanup.{IsBehind, marked, Cleaned, deallocate_cases}
use ecs_compositor.Compositor.MessageQueue.{
  MessageQueue, Others, Seen, processing, allocate_message, allocate_locked, refused, running,
}
use ecs_compositor.Compositor.MessageQueue.Allocate.{
  AllRespect, alone, GoodAllocation, allocate_message-Good, held, allocate_message_locks,
}

enough_space-GoodPlan_example : GoodPlan 16 4 14 8 (enough_space 16 4 14 8)
enough_space-GoodPlan_example =
    enough_space-GoodPlan 16 4 14 8 (omega arith, omega arith, omega arith)

-- Another thread has taken two places before the first exchange.
abbrev attempts : List Attempt
attempts =
    record { write_next = 6; spurious = false; write_until = 0 }
    ∷ record { write_next = 6; spurious = true; write_until = 0 }
    ∷ record { write_next = 6; spurious = false; write_until = 0 }
    ∷ []

allocate-DecidedBy_example : DecidedBy 16 4 4 0 attempts (allocate 16 4 4 0 attempts)
allocate-DecidedBy_example = allocate-DecidedBy 16 4 4 0 attempts

allocate_run : allocate 16 4 4 0 attempts ≡ allocated 6 10
unfolding allocate enough_space
allocate_run = refl

allocate_wrap_stuck_example : allocate 16 4 14 8 (quiet 3 14 8) ≡ looping
allocate_wrap_stuck_example =
    allocate_wrap_stuck 3 16 4 14 8 (omega arith) (omega arith) (omega arith) (omega arith)
      (omega arith)

-- Four messages, with 16 bytes and two descriptors.
abbrev queue : MessageQueue
queue = record {
  capacity = 4;
  write_next = 3;
  write_until = 1;
  content = record { capacity = 16; write_next = 4; write_until = 0 };
  fds = record { capacity = 2; write_next = 0; write_until = 0 };
}

-- Another thread holds the lock first.
abbrev seen : List Seen
seen =
    record { value = processing; spurious = false }
    ∷ record { value = 3; spurious = false }
    ∷ record { value = 3; spurious = false }
    ∷ []

-- Another thread frees the first message while this one allocates.
abbrev frees_one : MessageQueue → MessageQueue
frees_one q = record q { write_until = 1 }

abbrev busy : Others
busy = record alone { before_until = frees_one }

busy-AllRespect : AllRespect busy
busy-AllRespect = record {
  until_lock = λ q. refl;
  before_data = record { capacity = λ q. refl; lock_held = λ q e. e };
  before_fds = record { capacity = λ q. refl; lock_held = λ q e. e };
  before_until = λ q. refl;
}

allocate_message-Good_example :
    GoodAllocation busy queue 4 0 seen
      (quiet 1 4 0)
      (quiet 1 0 0)
      (allocate_message busy queue 4 0 seen (quiet 1 4 0) (quiet 1 0 0))
allocate_message-Good_example =
    allocate_message-Good busy queue 4 0 seen (quiet 1 4 0) (quiet 1 0 0) busy-AllRespect
      (omega arith)

-- No space for 20 bytes.
abbrev stuck : MessageQueue
stuck = record queue { write_next = processing }

refused_run : allocate_locked busy queue 3 20 0 (quiet 1 4 0) [] ≡ refused stuck
unfolding allocate_locked allocate enough_space fit
refused_run = refl

allocate_message_locks_example : allocate_message alone stuck 1 0 (held 2) [] [] ≡ running
allocate_message_locks_example =
    allocate_message_locks busy queue stuck 3 20 0 (quiet 1 4 0) [] busy-AllRespect refused_run
      alone 2 1 0 [] []

-- The message 1 is responsible, 2 is dead, and 0, behind the end of the ring, is active.
abbrev store : Store
store = record {
  queue = record queue { write_next = 3; write_until = 1; capacity = 3 };
  messages =
      record { is_active = true; content_start = 9; fds_start = 1 }
      ∷ record { is_active = true; content_start = 0; fds_start = 0 }
      ∷ record { is_active = false; content_start = 4; fds_start = 1 }
      ∷ [];
}

deallocate_cases_example :
    ((store.queue.write_until ≢ 1)
      × (deallocate (store.queue.capacity + 1) store 1
          ≡ some (record { queue = store.queue; messages = marked false store.messages 1 })))
    ⊎ ((store.queue.write_until ≡ 1)
        × (store.queue.write_next ≡ processing)
        × (deallocate (store.queue.capacity + 1) store 1 ≡ none))
    ⊎ ((store.queue.write_until ≡ 1)
        × (store.queue.write_next ≢ processing)
        × (first : ℕ) × IsBehind store.queue.capacity 1 first
        × Cleaned 1 store.queue.write_next store first
            (deallocate (store.queue.capacity + 1) store 1))
deallocate_cases_example = deallocate_cases store 1 (omega arith)

deallocate_run : deallocate 4 store 1 ≡ some (hand_over (set_active true 2 store) 0)
unfolding deallocate cleanup
deallocate_run = refl
