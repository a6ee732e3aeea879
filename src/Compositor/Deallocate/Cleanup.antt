-- ===== src/Compositor/Deallocate/Cleanup.antt =====
-- Where the clean-up of `deallocate` ends.
use ecs_compositor.Prelude.{
  ℕ, zero, suc, ◌+◌, ◌-◌, ◌<◌, ◌≡◌, ◌≢◌, refl, ◌⊎◌, inl, inr, arith, List, Bool, true, false,
  get_or, set, Option, none, some, ◌==◌, ◌||◌, if◌then◌else◌, leb, Bool-cases, ==→eq, ==→ne,
}
use ecs_compositor.Compositor.MessageQueue.{Queue, processing}
use ecs_compositor.Compositor.Deallocate.{
  Message, init, Store, message_at, set_active, reset_queue, hand_over, around, cleanup, deallocate,
}

-- The index behind another in the ring.
abbrev pub IsBehind : ℕ → ℕ → ℕ → Type 0
IsBehind capacity i j = ((i + 1 ≡ capacity) × (j ≡ 0)) ⊎ ((i + 1 ≢ capacity) × (j ≡ i + 1))

-- The walk over dead messages, each of which is marked as active again.
abbrev pub at : List Message → ℕ → Message
at ms i = get_or ms i init

abbrev pub marked : Bool → List Message → ℕ → List Message
marked b ms i = set ms i (record (at ms i) { is_active = b })

pub data Walk (capacity index write_next : ℕ) : List Message → ℕ → List Message → ℕ → Type 0 where
  here : {ms : List Message} {i : ℕ} → Walk capacity index write_next ms i ms i
  skip :
      {ms ns : List Message} {i j k : ℕ}
      → i ≢ write_next
      → i ≢ index
      → (at ms i).is_active ≡ false
      → IsBehind capacity i j
      → Walk capacity index write_next (marked true ms i) j ns k
      → Walk capacity index write_next ms i ns k

-- A queue with new ends, and those of its contents and descriptors.
abbrev pub moved : Queue → ℕ → ℕ → Queue
moved q next until = record { capacity = q.capacity; write_next = next; write_until = until }

-- The clean-up ends at the end of the messages, with all three queues empty from their starts, or
-- at the first message that is active: it becomes responsible, and all before its contents and
-- descriptors is free.
abbrev pub Cleaned : ℕ → ℕ → Store → ℕ → Option Store → Type 0
Cleaned index write_next s i none = ⊥
Cleaned index write_next s i (some r) =
    (ms : List Message) × (k : ℕ) × Walk s.queue.capacity index write_next s.messages i ms k
    × (r.messages ≡ ms)
    × (((k ≡ write_next ⊎ k ≡ index)
          × (r.queue ≡ record {
            capacity = s.queue.capacity;
            write_next = 0;
            write_until = 0;
            content = moved s.queue.content 0 0;
            fds = moved s.queue.fds 0 0;
          }))
        ⊎ ((k ≢ write_next)
            × (k ≢ index)
            × ((at ms k).is_active ≡ true)
            × (r.queue ≡ record {
              capacity = s.queue.capacity;
              write_next = s.queue.write_next;
              write_until = k;
              content = moved s.queue.content s.queue.content.write_next (at ms k).content_start;
              fds = moved s.queue.fds s.queue.fds.write_next (at ms k).fds_start;
            })))

-- The places from `i` on to `index` in the ring.
abbrev pub distance : ℕ → ℕ → ℕ → ℕ
distance capacity index i = if leb i index then index - i else capacity - i + index

around-IsBehind : (capacity i : ℕ) → IsBehind capacity i (around capacity (i + 1))
around-IsBehind capacity i = ground arith

Cleaned-later :
    (index write_next : ℕ) (s : Store) (i : ℕ) (o : Option Store)
    → i ≢ write_next
    → i ≢ index
    → (message_at s i).is_active ≡ false
    → Cleaned index write_next (set_active true i s) (around s.queue.capacity (i + 1)) o
    → Cleaned index write_next s i o
Cleaned-later index write_next s i none a b c d = d
Cleaned-later index write_next s i (some r) a b c (ms, k, walk, kept, e) =
    (ms, k, skip a b c (around-IsBehind s.queue.capacity i) walk, kept, e)

cleanup-Cleaned :
    (rounds index write_next : ℕ) (s : Store) (i : ℕ)
    → index < s.queue.capacity
    → i < s.queue.capacity
    → distance s.queue.capacity index i < rounds
    → Cleaned index write_next s i (cleanup rounds index write_next s i)
unfolding cleanup reset_queue hand_over
cleanup-Cleaned zero index write_next s i p q d = absurd (omega arith)
cleanup-Cleaned (suc rounds) index write_next s i p q d =
    elim (Bool-cases ((i == write_next) || (i == index))) [
      | inl last ↦ rw last (s.messages, i, here, refl, inl (ground (arith, last), refl))
      | inr on ↦ elim (Bool-cases (message_at s i).is_active) [
        | inl live ↦
            rw (on, live)
              (s.messages, i, here, refl, inr (ground (arith, on), ground (arith, on), live, refl))
        | inr dead ↦
            rw (on, dead)
              (Cleaned-later index write_next s i
                (cleanup rounds index write_next (set_active true i s)
                  (around s.queue.capacity (i + 1)))
                (ground (arith, on)) (ground (arith, on)) dead
                (cleanup-Cleaned rounds index write_next (set_active true i s)
                  (around s.queue.capacity (i + 1)) p (ground arith) (ground (arith, on))))
      ]
    ]

-- Deallocating an index within the capacity in a run without interference, with one round more
-- than there are messages. A message that is not responsible is only marked as dead. The
-- responsible one cleans up, and marks each dead message that it passes as active again: over dead
-- messages to the end, where the ends of the messages, the data and the descriptors are all 0; or
-- to the first active one, which becomes responsible, and up to whose data and descriptors all is
-- free. Only a locked queue keeps it waiting.
pub deallocate_cases :
    (s : Store) (index : ℕ)
    → index < s.queue.capacity
    → ((s.queue.write_until ≢ index)
        × (deallocate (s.queue.capacity + 1) s index
            ≡ some (record { queue = s.queue; messages = marked false s.messages index })))
      ⊎ ((s.queue.write_until ≡ index)
          × (s.queue.write_next ≡ processing)
          × (deallocate (s.queue.capacity + 1) s index ≡ none))
      ⊎ ((s.queue.write_until ≡ index)
          × (s.queue.write_next ≢ processing)
          × (first : ℕ) × IsBehind s.queue.capacity index first
          × Cleaned index s.queue.write_next s first (deallocate (s.queue.capacity + 1) s index))
unfolding deallocate
deallocate_cases s index h = elim (Bool-cases (s.queue.write_until == index)) [
  | inr other ↦ inl (==→ne _ _ other, rw other)
  | inl own ↦ elim (Bool-cases (s.queue.write_next == processing)) [
    | inl locked ↦ inr (inl (==→eq _ _ own, ==→eq _ _ locked, rw (own, locked)))
    | inr unlocked ↦ inr (
        inr (
          ==→eq _ _ own,
          ==→ne _ _ unlocked,
          around s.queue.capacity (index + 1),
          around-IsBehind s.queue.capacity index,
          rw (own, unlocked)
              (cleanup-Cleaned (s.queue.capacity + 1) index s.queue.write_next s
                (around s.queue.capacity (index + 1)) h (ground arith) (ground arith)),
        ))
  ]
]
