-- ===== src/Message/TravelLogs/Allocate.antt =====
-- What `allocate` does on every branch, whatever other threads do between its two exchanges.
use ecs_compositor.Prelude.{
  ◌≡◌, ◌≢◌, refl, ◌⊎◌, inl, inr, Option, none, some, ◌==◌, Bool-cases, ==→eq, ==→ne,
}
use ecs_compositor.Message.TravelLogs.{
  PointRange, Metadata, Buffer, dealloc, dealloc_if, mark_dead, allocate_data, allocate,
  allocated_range,
}

module _ (T : Metadata) where
  -- What is left of a handle whose data were gone, from the state in which the other threads left
  -- the buffer: its slots without data, which the metadata are told to have dead.
  abbrev pub dead_slots : PointRange → PointRange
  dead_slots r = record { slot = r.slot; content = record { from = 0; upto = 0 } }

  abbrev pub in_use : Buffer T → PointRange
  in_use b = record {
    slot = record { from = b.slot_free; upto = b.slot_next };
    content = record { from = b.data_free; upto = b.data_next };
  }

  abbrev pub dead_answer : PointRange → Buffer T → Option PointRange × T.State
  dead_answer r b =
      let (handle, s) = T.alloc (dead_slots r) b.metadata in
      T.mark_dead (in_use b) (dead_slots r) handle s

  -- The buffer after the metadata have answered: nothing is freed, or what they say is freed by
  -- them, and the ends of what is free are where they say.
  pub data MarkedDead (b : Buffer T) (answer : Option PointRange × T.State) (c : Buffer T)
      : Type 0 where
    kept : answer.0 ≡ none → c ≡ record b { metadata = answer.1 } → MarkedDead b answer c
    freed :
        (free : PointRange)
        → answer.0 ≡ some free
        → c ≡ record b {
          metadata = (T.dealloc free answer.1).1;
          slot_free = (T.dealloc free answer.1).0.slot;
          data_free = (T.dealloc free answer.1).0.content;
        }
        → MarkedDead b answer c

  dealloc_if-MarkedDead :
      (b : Buffer T) (answer : Option PointRange × T.State) (s : T.State)
      → MarkedDead b answer (dealloc_if T answer (record b { metadata = s }))
  unfolding dealloc
  dealloc_if-MarkedDead b (none, s') s = kept refl refl
  dealloc_if-MarkedDead b (some free, s') s = freed free refl refl

  -- The buffer with the slots of `r` taken.
  abbrev pub slots_taken : PointRange → Buffer T → Buffer T
  slots_taken r b = record b { slot_next = r.slot.upto }

  -- `allocate` hands out the range exactly where the end of the slots stood at its start at the
  -- first exchange, and the end of the data at the second; it moves both ends to the end of the
  -- range, and allocates it in the metadata. Where the slots were gone already, nothing changes.
  -- Where only the data were gone, nothing is handed out: the slots are allocated without data and
  -- told to the metadata as dead, with what is in use by then; nothing is freed then, or what the
  -- metadata answer, up to where their `dealloc` says; the ends of what is in use stay as the
  -- other threads left them.
  pub allocate_cases :
      (others : Buffer T → Buffer T) (r : PointRange) (b : Buffer T)
      → let mid = others (slots_taken r b) in
        ((b.slot_next ≡ r.slot.from)
          × (mid.data_next ≡ r.content.from)
          × (allocate T others r b ≡ (
            some (record { range = r; handle = (T.alloc r mid.metadata).0 }),
            record mid { data_next = r.content.upto; metadata = (T.alloc r mid.metadata).1 },
          )))
        ⊎ ((b.slot_next ≡ r.slot.from)
            × (mid.data_next ≢ r.content.from)
            × ((allocate T others r b).0 ≡ none)
            × MarkedDead mid (dead_answer r mid) (allocate T others r b).1)
        ⊎ ((b.slot_next ≢ r.slot.from) × (allocate T others r b ≡ (none, b)))
  unfolding allocate allocate_data mark_dead allocated_range
  allocate_cases others r b = elim (Bool-cases (b.slot_next == r.slot.from)) [
    | inr gone ↦ inr (inr (==→ne _ _ gone, rw gone))
    | inl free ↦ elim (Bool-cases ((others (slots_taken r b)).data_next == r.content.from)) [
      | inl there ↦ inl (==→eq _ _ free, ==→eq _ _ there, rw (free, there))
      | inr taken ↦ inr (
          inl (
            ==→eq _ _ free,
            ==→ne _ _ taken,
            rw (free, taken),
            rw (free, taken)
                (dealloc_if-MarkedDead mid (dead_answer r mid)
                  (T.alloc (dead_slots r) mid.metadata).1),
          ))
    ]
  ]
    where
      mid : Buffer T
      mid = others (slots_taken r b)
