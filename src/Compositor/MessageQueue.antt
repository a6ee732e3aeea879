-- ===== src/Compositor/MessageQueue.antt =====
-- crates/compositor/src/socket/buffer.rs: `MessageQueue::allocate_message`. The messages themselves
-- are left out. What other threads leave in the words that the loops read is an argument, and so is
-- what they do to the queue before each of the loads behind the lock.
pub mod Acquire
pub mod Allocate
use ecs_compositor.Prelude.{
  ℕ, ◌+◌, ◌-◌, ◌^◌, List, [], ◌∷◌, Bool, true, false, ltb, ◌==◌, if◌then◌else◌, not, ◌&&◌,
}
use ecs_compositor.Compositor.Subqueue
use ecs_compositor.Compositor.Subqueue.{Attempt, allocated, no_space, looping, allocate}

-- `Subqueue`, without its memory.
pub record Queue : Type 0 where
  pub capacity : ℕ
  pub write_next : ℕ
  pub write_until : ℕ

-- A field `data` of the code is the field `content`.
pub record MessageQueue : Type 0 where
  pub capacity : ℕ
  pub write_next : ℕ
  pub write_until : ℕ
  pub content : Queue
  pub fds : Queue

abbrev pub processing : ℕ
processing = 2 ^ 64 - 1

-- What a load, or a weak exchange, of `write_next` meets.
pub record Seen : Type 0 where
  pub value : ℕ
  pub spurious : Bool

-- What other threads do to the queue: until the loop at the head ends, and before the loads of the
-- data queue, of the queue of descriptors and of `write_until`.
pub record Others : Type 0 where
  pub until_lock : MessageQueue → MessageQueue
  pub before_data : MessageQueue → MessageQueue
  pub before_fds : MessageQueue → MessageQueue
  pub before_until : MessageQueue → MessageQueue

-- How the loop at the head of `allocate_message` ends.
pub data Lock : Type 0 where
  locked : (index : ℕ) → Lock
  full : Lock
  spinning : Lock

-- The loop, from the value that is loaded first.
unfoldable pub lock : ℕ → ℕ → List Seen → Lock
lock capacity write_next [] =
    if write_next == processing then spinning else if write_next == capacity then full else spinning
lock capacity write_next (s ∷ later) =
    let again = lock capacity s.value later in
    if write_next == processing
    then again
    else if write_next == capacity
    then full
    else if not s.spurious && (s.value == write_next)
    then locked write_next
    else again

pub data Allocation : Type 0 where
  handle : (index data_index fds_index : ℕ) → MessageQueue → Allocation
  refused : MessageQueue → Allocation
  running : Allocation

-- The index behind `index`, or the mark of a full queue.
unfoldable pub next_index : MessageQueue → ℕ → ℕ
next_index q index =
    let next = if ltb (index + 1) q.capacity then index + 1 else 0 in
    if next == q.write_until then q.capacity else next

-- The rest, from the load of `write_until` on.
abbrev pub released : MessageQueue → ℕ → MessageQueue
released q index = record q { write_next = next_index q index }

-- `self.fds.allocate(fds)?` and what follows it.
abbrev pub with_fds : Others → MessageQueue → ℕ → ℕ → Subqueue.Outcome → Allocation
with_fds others q index data_index (allocated i new) =
    handle index data_index i (
      released (others.before_until (record q { fds = record (q.fds) { write_next = new } })) index)
with_fds others q index data_index no_space = refused q
with_fds others q index data_index looping = running

abbrev pub try_fds : Others → MessageQueue → ℕ → ℕ → ℕ → List Attempt → Allocation
try_fds others q index data_index fds seen =
    with_fds others q index data_index
      (allocate q.fds.capacity fds q.fds.write_next q.fds.write_until seen)

-- `self.data.allocate(data)?` and what follows it.
abbrev pub with_data : Others → MessageQueue → ℕ → ℕ → List Attempt → Subqueue.Outcome → Allocation
with_data others q index fds seen (allocated i new) =
    try_fds others
      (others.before_fds (record q { content = record (q.content) { write_next = new } })) index i
      fds seen
with_data others q index fds seen no_space = refused q
with_data others q index fds seen looping = running

abbrev pub try_data : Others → MessageQueue → ℕ → ℕ → ℕ → List Attempt → List Attempt → Allocation
try_data others q index bytes fds seen_data seen_fds =
    with_data others q index fds seen_fds
      (allocate q.content.capacity bytes q.content.write_next q.content.write_until seen_data)

-- `allocate_message` behind the loop: the lock is held.
unfoldable pub allocate_locked :
    Others → MessageQueue → ℕ → ℕ → ℕ → List Attempt → List Attempt → Allocation
allocate_locked others q index bytes fds seen_data seen_fds =
    try_data others (others.before_data (record q { write_next = processing })) index bytes fds
      seen_data seen_fds

abbrev pub behind_lock : Lock → (ℕ → Allocation) → MessageQueue → Allocation
behind_lock (locked index) rest q = rest index
behind_lock full rest q = refused q
behind_lock spinning rest q = running

-- `allocate_message`.
unfoldable pub allocate_message :
    Others → MessageQueue → ℕ → ℕ → List Seen → List Attempt → List Attempt → Allocation
allocate_message others q bytes fds seen seen_data seen_fds =
    let now = others.until_lock q in
    behind_lock (lock q.capacity q.write_next seen)
      (λ index. allocate_locked others now index bytes fds seen_data seen_fds) now
