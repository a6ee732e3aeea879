-- ===== src/Compositor/MessageQueue/Allocate.antt =====
-- What `allocate_message` leaves in the queue.
use ecs_compositor.Prelude.{
  ℕ, zero, suc, ◌+◌, ◌≤◌, ◌<◌, ◌≡◌, ◌≢◌, refl, ap, ◌∙◌, ◌⊎◌, inl, inr, arith, List, [], ◌∷◌, false,
  if◌then◌else◌, ltb,
}
use ecs_compositor.Compositor.MessageQueue.Acquire.{Met, GoodLock, lock-GoodLock}
use mathlib.Core.Path.{subst}
use ecs_compositor.Compositor.Subqueue
use ecs_compositor.Compositor.Subqueue.{Attempt, allocated, no_space, looping, allocate}
use ecs_compositor.Compositor.MessageQueue.{
  MessageQueue, processing, Seen, Lock, locked, full, spinning, lock, Allocation, handle, refused,
  running, next_index, with_fds, with_data, Others, allocate_locked, behind_lock, allocate_message,
}

-- The index behind another in the ring of messages; where the first message in use stands there, the
-- queue is marked as full instead.
abbrev pub IsNext : MessageQueue → ℕ → ℕ → Type 0
IsNext q index n =
    (behind : ℕ) × (behind < q.capacity)
    × ((behind ≡ index + 1) ⊎ ((behind ≡ 0) × (q.capacity ≤ index + 1)))
    × (((behind ≡ q.write_until) × (n ≡ q.capacity)) ⊎ ((behind ≢ q.write_until) × (n ≡ behind)))

next_index-IsNext :
    (q : MessageQueue) (index : ℕ) → 0 < q.capacity → IsNext q index (next_index q index)
unfolding next_index
next_index-IsNext q index h =
    (if ltb (index + 1) q.capacity then index + 1 else 0, ground arith, ground arith, ground arith)

-- What other threads leave alone: the number of messages, and the lock while it is held.
pub record Respects (f : MessageQueue → MessageQueue) : Type 0 where
  pub capacity : (q : MessageQueue) → (f q).capacity ≡ q.capacity
  pub lock_held : (q : MessageQueue) → q.write_next ≡ processing → (f q).write_next ≡ processing

pub record AllRespect (others : Others) : Type 0 where
  pub until_lock : (q : MessageQueue) → (others.until_lock q).capacity ≡ q.capacity
  pub before_data : Respects others.before_data
  pub before_fds : Respects others.before_fds
  pub before_until : (q : MessageQueue) → (others.before_until q).capacity ≡ q.capacity

-- The queue before the load of the data queue: the lock is held.
abbrev pub at_data : Others → MessageQueue → MessageQueue
at_data others q = others.before_data (record (others.until_lock q) { write_next = processing })

-- From there, the data and then the descriptors are allocated, and the ends of both are moved; the
-- queue that is left before the load of `write_until` is `q'`.
abbrev pub Took :
    Others
    → MessageQueue
    → (bytes fds : ℕ) → (seen_data seen_fds : List Attempt) → (d f : ℕ) → MessageQueue
    → Type 0
Took others q bytes fds seen_data seen_fds d f q' =
    (new_d : ℕ) × (new_f : ℕ) × (allocate q.content.capacity bytes q.content.write_next
        q.content.write_until seen_data
      ≡ allocated d new_d)
    × (let p =
          others.before_fds (record q { content = record (q.content) { write_next = new_d } }) in
        (allocate p.fds.capacity fds p.fds.write_next p.fds.write_until seen_fds
          ≡ allocated f new_f)
        × (q' ≡ others.before_until (record p { fds = record (p.fds) { write_next = new_f } })))

-- How a call ends: a handle, with an index that was free, the lock released and nothing else
-- changed; no handle, with the queue as the others left it or with the lock still held; or the run
-- is not over. Whether the queue is full then depends on its `write_until` as it is by then.
module _ (others : Others) (q₀ : MessageQueue) (bytes fds : ℕ) (seen : List Seen)
    (seen_data seen_fds : List Attempt) where
  abbrev pub GoodAllocation : Allocation → Type 0
  GoodAllocation (handle index d f q') =
      (index ≢ processing)
      × (index ≢ q₀.capacity)
      × Met seen index
      × (q : MessageQueue) × Took others (at_data others q₀) bytes fds seen_data seen_fds d f q
      × (q.capacity ≡ q₀.capacity)
      × (n : ℕ) × IsNext q index n
      × (q' ≡ record q { write_next = n })
  GoodAllocation (refused q') = (q' ≡ others.until_lock q₀) ⊎ (q'.write_next ≡ processing)
  GoodAllocation running = Unit

  module _ (fair : AllRespect others) (some_messages : 0 < q₀.capacity) (index : ℕ)
      (free : (index ≢ processing) × (index ≢ q₀.capacity) × Met seen index) where
    abbrev q₁ : MessageQueue
    q₁ = at_data others q₀

    same_capacity : q₁.capacity ≡ q₀.capacity
    same_capacity =
        fair.before_data.capacity (record (others.until_lock q₀) { write_next = processing })
        ∙ fair.until_lock q₀

    held_by_us : q₁.write_next ≡ processing
    held_by_us =
        fair.before_data.lock_held (record (others.until_lock q₀) { write_next = processing }) refl

    module _ (d new_d : ℕ)
        (took : allocate q₁.content.capacity bytes q₁.content.write_next q₁.content.write_until
            seen_data
          ≡ allocated d new_d) where
      abbrev q₂ : MessageQueue
      q₂ = others.before_fds (record q₁ { content = record (q₁.content) { write_next = new_d } })

      with_fds-Good :
          (o : Subqueue.Outcome)
          → allocate q₂.fds.capacity fds q₂.fds.write_next q₂.fds.write_until seen_fds ≡ o
          → GoodAllocation (with_fds others q₂ index d o)
      with_fds-Good (allocated f new_f) e =
          let p : MessageQueue = record q₂ { fds = record (q₂.fds) { write_next = new_f } } in
          let q = others.before_until p in
          let same : q.capacity ≡ q₀.capacity =
            fair.before_until p
            ∙ fair.before_fds.capacity
                (record q₁ { content = record (q₁.content) { write_next = new_d } })
            ∙ same_capacity in
          (
            free.0,
            free.1,
            free.2,
            q,
            (new_d, new_f, took, (e, refl)),
            same,
            next_index q index,
            next_index-IsNext q index (omega (arith, same)),
            refl,
          )
      with_fds-Good no_space e = inr (
          fair.before_fds.lock_held
            (record q₁ { content = record (q₁.content) { write_next = new_d } }) held_by_us)
      with_fds-Good looping e = tt

    with_data-Good :
        (o : Subqueue.Outcome)
        → allocate q₁.content.capacity bytes q₁.content.write_next q₁.content.write_until seen_data
          ≡ o
        → GoodAllocation (with_data others q₁ index fds seen_fds o)
    with_data-Good (allocated d new_d) e = with_fds-Good d new_d e _ refl
    with_data-Good no_space e = inr held_by_us
    with_data-Good looping e = tt

-- A call on a queue for at least one message, whatever other threads do to the queue before each
-- of its loads, as long as they leave the number of messages alone and the lock while it is held.
-- It hands out an index that an exchange met in `write_next`, with the starts that the data queue
-- and then the queue of descriptors allocate as the others have left them, whose ends it moves;
-- and it leaves in `write_next` the index behind it in the ring, or the mark of a full queue where
-- `write_until`, as it is by then, stands there, and changes nothing else; or it hands out
-- nothing, and leaves the queue as the others did or with the lock held; or the run is not over.
pub allocate_message-Good :
    (others : Others) (q : MessageQueue) (bytes fds : ℕ) (seen : List Seen)
    (seen_data seen_fds : List Attempt)
    → AllRespect others
    → 0 < q.capacity
    → GoodAllocation others q bytes fds seen seen_data seen_fds
        (allocate_message others q bytes fds seen seen_data seen_fds)
unfolding allocate_message allocate_locked
allocate_message-Good others q bytes fds seen seen_data seen_fds fair h =
    go (lock q.capacity q.write_next seen) (lock-GoodLock q.capacity q.write_next seen)
  where
    now : MessageQueue
    now = others.until_lock q

    go :
        (l : Lock)
        → GoodLock q.capacity seen l
        → GoodAllocation others q bytes fds seen seen_data seen_fds (
            behind_lock l
              (λ index. allocate_locked others now index bytes fds seen_data seen_fds)
              now)
    go (locked index) g =
        with_data-Good others q bytes fds seen seen_data seen_fds fair h index g _ refl
    go full g = inl refl
    go spinning g = tt

-- A queue that is locked and that no other thread changes, for a number of loads.
abbrev pub held : ℕ → List Seen
held zero = []
held (suc n) = record { value = processing; spurious = false } ∷ held n

lock-held : (n capacity : ℕ) → lock capacity processing (held n) ≡ spinning
unfolding lock
lock-held zero capacity = refl
lock-held (suc n) capacity = lock-held n capacity

-- Behind the lock, nothing but a handle releases it.
abbrev pub KeepsLock : Allocation → Type 0
KeepsLock (handle index d f q') = Unit
KeepsLock (refused q') = q'.write_next ≡ processing
KeepsLock running = Unit

module _ (others : Others) (fair : AllRespect others) where
  with_fds-KeepsLock :
      (q : MessageQueue) (index data_index : ℕ) (o : Subqueue.Outcome)
      → q.write_next ≡ processing
      → KeepsLock (with_fds others q index data_index o)
  with_fds-KeepsLock q index data_index (allocated i new) h = tt
  with_fds-KeepsLock q index data_index no_space h = h
  with_fds-KeepsLock q index data_index looping h = tt

  with_data-KeepsLock :
      (q : MessageQueue) (index fds : ℕ) (seen : List Attempt) (o : Subqueue.Outcome)
      → q.write_next ≡ processing
      → KeepsLock (with_data others q index fds seen o)
  with_data-KeepsLock q index fds seen (allocated i new) h =
      let taken : MessageQueue = record q { content = record (q.content) { write_next = new } } in
      let q' = others.before_fds taken in
      with_fds-KeepsLock q' index i
        (allocate q'.fds.capacity fds q'.fds.write_next q'.fds.write_until seen)
        (fair.before_fds.lock_held taken h)
  with_data-KeepsLock q index fds seen no_space h = h
  with_data-KeepsLock q index fds seen looping h = tt

-- Nothing that other threads do.
abbrev pub alone : Others
alone = record {
  until_lock = λ q. q;
  before_data = λ q. q;
  before_fds = λ q. q;
  before_until = λ q. q;
}

-- A call that got the lock and then found no space, with other threads that leave the number of
-- messages and a lock that is held alone, leaves the queue so that no later call ever returns,
-- while no other thread releases the lock.
pub allocate_message_locks :
    (others : Others) (q q' : MessageQueue) (index bytes fds : ℕ)
    (seen_data seen_fds : List Attempt)
    → AllRespect others
    → allocate_locked others q index bytes fds seen_data seen_fds ≡ refused q'
    → (later : Others) (n bytes' fds' : ℕ) (seen_data' seen_fds' : List Attempt)
    → allocate_message later q' bytes' fds' (held n) seen_data' seen_fds' ≡ running
unfolding allocate_message allocate_locked
allocate_message_locks others q q' index bytes fds seen_data seen_fds fair e later n bytes' fds'
      seen_data' seen_fds' =
    ap (λ w. end (lock q'.capacity w (held n))) kept ∙ ap end (lock-held n q'.capacity)
  where
    end : Lock → Allocation
    end l =
        behind_lock l
          (λ i. allocate_locked later (later.until_lock q') i bytes' fds' seen_data' seen_fds')
          (later.until_lock q')

    held_by_us : MessageQueue
    held_by_us = others.before_data (record q { write_next = processing })

    kept : q'.write_next ≡ processing
    kept = subst KeepsLock e (
        with_data-KeepsLock others fair held_by_us index fds seen_fds
          (allocate held_by_us.content.capacity bytes held_by_us.content.write_next
            held_by_us.content.write_until seen_data)
          (fair.before_data.lock_held (record q { write_next = processing }) refl))
