-- ===== src/Compositor/Deallocate.antt =====
-- crates/compositor/src/socket/buffer.rs: `MessageQueue::deallocate`, in a run where no other thread
-- changes the queue. Its loop is recursion on a number of rounds, and `none` is a run that is not
-- over.
pub mod Cleanup
use ecs_compositor.Prelude.{
  ℕ, zero, suc, ◌+◌, List, Bool, true, false, Option, none, some, ◌==◌, ◌||◌, if◌then◌else◌, get_or,
  set,
}
use ecs_compositor.Compositor.MessageQueue.{Queue, MessageQueue, processing}

-- `Message`; a field `data_start` of the code is the field `content_start`.
pub record Message : Type 0 where
  pub is_active : Bool
  pub content_start : ℕ
  pub fds_start : ℕ

-- `Message::INIT`.
abbrev pub init : Message
init = record { is_active = false; content_start = 0; fds_start = 0 }

-- The queue with its messages.
pub record Store : Type 0 where
  pub queue : MessageQueue
  pub messages : List Message

abbrev pub message_at : Store → ℕ → Message
message_at s i = get_or s.messages i init

-- A store to `is_active` of the message at an index.
abbrev pub set_active : Bool → ℕ → Store → Store
set_active b i s = record s {
  messages = set s.messages i (record (message_at s i) { is_active = b });
}

-- The queue starts again from its beginning.
abbrev pub emptied : Queue → Queue
emptied q = record { capacity = q.capacity; write_next = 0; write_until = 0 }

unfoldable pub reset_queue : Store → Store
reset_queue s = record s {
  queue = record {
    capacity = s.queue.capacity;
    write_next = 0;
    write_until = 0;
    content = emptied s.queue.content;
    fds = emptied s.queue.fds;
  };
}

-- The message at an index becomes responsible for the clean-up.
unfoldable pub hand_over : Store → ℕ → Store
hand_over s i = record s {
  queue = record {
    capacity = s.queue.capacity;
    write_next = s.queue.write_next;
    write_until = i;
    content = record {
      capacity = s.queue.content.capacity;
      write_next = s.queue.content.write_next;
      write_until = (message_at s i).content_start;
    };
    fds = record {
      capacity = s.queue.fds.capacity;
      write_next = s.queue.fds.write_next;
      write_until = (message_at s i).fds_start;
    };
  };
}

-- `cleanup_until`, wrapped around.
abbrev pub around : ℕ → ℕ → ℕ
around capacity i = if i == capacity then 0 else i

-- The loop `'cleanup`; `i` is where it has arrived.
unfoldable pub cleanup : ℕ → ℕ → ℕ → Store → ℕ → Option Store
cleanup zero index write_next s i = none
cleanup (suc rounds) index write_next s i =
    let later =
      cleanup rounds index write_next (set_active true i s) (around s.queue.capacity (i + 1)) in
    if (i == write_next) || (i == index)
    then some (reset_queue s)
    else if (message_at s i).is_active
    then some (hand_over s i)
    else later

-- `deallocate`.
unfoldable pub deallocate : ℕ → Store → ℕ → Option Store
deallocate rounds s index =
    let run = cleanup rounds index s.queue.write_next s (around s.queue.capacity (index + 1)) in
    if s.queue.write_until == index
    then (if s.queue.write_next == processing then none else run)
    else some (set_active false index s)
