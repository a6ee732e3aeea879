-- ===== src/WaylandTokio/Connection/Receive/Dispatch.antt =====
-- Who gets a message whose header is read.
use ecs_compositor.Prelude.{
  ℕ, ◌≤◌, ◌<◌, ◌≡◌, ◌≢◌, refl, ap, ◌∙◌, ◌⊎◌, inl, inr, List, [], ◌∷◌, ◌++◌, Option, none, some,
  length, take, drop, eq→==, ne→==,
}
use ecs_compositor.Core.Header.{MessageHeader, content_len}
use ecs_compositor.WaylandTokio.Registry.{
  Waker, Registry, RecvEntry, get, wake_recver, register_recv,
}
use ecs_compositor.WaylandTokio.Registry.Senders.{locked_task, next_receiver, wake_recver-next}
use ecs_compositor.WaylandTokio.Io.{Io}
use ecs_compositor.WaylandTokio.Io.Messages.Deliver.{
  rx_msg_buf_cases, behind, restored-behind, waiting_for_data,
}
use ecs_compositor.WaylandTokio.Connection.Receive.{
  Receiver, pending, ready, panicked, end, End, Pass, drive, done, registered, dispatch,
  own_message, other_message,
}

-- There is a whole message of `da` bytes and `fd` descriptors.
abbrev pub HasMessage : ℕ → ℕ → Io → Type 0
HasMessage da fd io = (da ≤ length io.rx.da.items) × (fd ≤ length io.rx.fd.items)

abbrev pub LacksMessage : ℕ → ℕ → Io → Type 0
LacksMessage da fd io = (length io.rx.da.items < da) ⊎ (length io.rx.fd.items < fd)

module _ (obj : Receiver) (hdr : MessageHeader) (io : Io) (r : Registry) (fds : ℕ) where
  abbrev pub size : ℕ
  size = content_len hdr

  -- The message is handed out, the header is used up, and the next receiver is woken.
  abbrev pub handed_end : End
  handed_end =
      end (ready hdr (take size io.rx.da.items) (take fds io.rx.fd.items))
        (record (behind size fds io) { rx_hdr = none }) (wake_recver obj.cx (registered obj r)).1
        (wake_recver obj.cx (registered obj r)).0

  abbrev pub handed_out : Pass
  handed_out = done handed_end

  -- With the header of a message for the polling object, whose opcode is known.
  pub dispatch_known :
      obj.id ≡ hdr.object_id.id
      → obj.fd_count hdr.opcode ≡ some fds
      → (HasMessage size fds io × (dispatch obj hdr io r ≡ handed_out))
        ⊎ (LacksMessage size fds io × (dispatch obj hdr io r ≡ drive (waiting_for_data io)))
  unfolding dispatch
  dispatch_known e f = elim (rx_msg_buf_cases size fds io) [
    | inl (p, q, d) ↦
        inl ((p, q), rw (eq→== obj.id hdr.object_id.id e, f) (ap (own_message obj hdr r) d))
    | inr (short, d) ↦
        inr (short, rw (eq→== obj.id hdr.object_id.id e, f) (ap (own_message obj hdr r) d))
  ]

  -- The end of a poll that hands the message out: the message is gone from the front of the buffers
  -- and so is the header; the object is registered; the sender that waits for the lock is woken,
  -- and waits no more, and then the first receiver, where it is another task.
  pub record HandedOut (e : End) : Type 0 where
    pub message : e.polled ≡ ready hdr (take size io.rx.da.items) (take fds io.rx.fd.items)
    pub bytes_left : e.io.rx.da.items ≡ drop size io.rx.da.items
    pub fds_left : e.io.rx.fd.items ≡ drop fds io.rx.fd.items
    pub header_gone : e.io.rx_hdr ≡ none
    pub tx_kept : e.io.tx ≡ io.tx
    pub registry : e.registry ≡ record (registered obj r) { sender_locked = none }
    pub woken :
        e.woken
        ≡ locked_task r.sender_locked ++ next_receiver obj.cx (registered obj r).receiver_map

  handed_end-HandedOut : HandedOut handed_end
  unfolding register_recv
  handed_end-HandedOut = record {
    message = refl;
    bytes_left = refl;
    fds_left = refl;
    header_gone = refl;
    tx_kept = refl;
    registry = ap (λ (p : List Waker × Registry). p.1) (wake_recver-next obj.cx (registered obj r));
    woken = ap (λ (p : List Waker × Registry). p.0) (wake_recver-next obj.cx (registered obj r));
  }

  -- With the header of a message for another object that is registered, whose opcode is known:
  -- where all of the message is there, the buffers are as they were, that object is woken and the
  -- polling one is registered and pends; otherwise the buffers are as they were, and the poll
  -- drives the input.
  pub dispatch_other :
      (entry : RecvEntry)
      → obj.id ≢ hdr.object_id.id
      → get hdr.object_id.id r.receiver_map ≡ some entry
      → entry.fd_count hdr.opcode ≡ some fds
      → (HasMessage size fds io
          × (dispatch obj hdr io r ≡ done (end pending io (registered obj r) (entry.waker ∷ []))))
        ⊎ (LacksMessage size fds io × (dispatch obj hdr io r ≡ drive (waiting_for_data io)))
  unfolding dispatch
  dispatch_other entry ne g f = elim (rx_msg_buf_cases size fds io) [
    | inl (p, q, d) ↦ inl (
      (p, q),
      rw (ne→== obj.id hdr.object_id.id ne, g, f)
          (ap (other_message obj entry r) d
            ∙ ap (λ i. done (end pending i (registered obj r) (entry.waker ∷ [])))
                (restored-behind size fds io)),
    )
    | inr (short, d) ↦
        inr (short, rw (ne→== obj.id hdr.object_id.id ne, g, f) (ap (other_message obj entry r) d))
  ]

-- With a header for the polling object, for an opcode that is unknown, or of a message that is there
-- or not.
abbrev pub OwnCases : Receiver → MessageHeader → Io → Registry → Option ℕ → Type 0
OwnCases obj hdr io r none = dispatch obj hdr io r ≡ done (end panicked io r [])
OwnCases obj hdr io r (some fds) =
    (HasMessage (content_len hdr) fds io
      × (e : End) × (dispatch obj hdr io r ≡ done e)
      × HandedOut obj hdr io r fds e)
    ⊎ (LacksMessage (content_len hdr) fds io
        × (dispatch obj hdr io r ≡ drive (waiting_for_data io)))

-- With the header of a message for the polling object: where the opcode is unknown, the poll
-- panics. Where all bytes and descriptors of the message are there, they are handed out and gone
-- from the front of the buffers, the header is forgotten, the object is registered, and two tasks
-- at most are woken in order: the sender that waited for the lock, which waits no more, and the
-- first receiver, where it is another task. Otherwise the buffers are as they were, and the poll
-- drives the input.
pub dispatch_own :
    (obj : Receiver) (hdr : MessageHeader) (io : Io) (r : Registry)
    → obj.id ≡ hdr.object_id.id
    → OwnCases obj hdr io r (obj.fd_count hdr.opcode)
unfolding dispatch
dispatch_own obj hdr io r e = by_count (obj.fd_count hdr.opcode) refl
  where
    by_count : (count : Option ℕ) → obj.fd_count hdr.opcode ≡ count → OwnCases obj hdr io r count
    by_count none f = rw (eq→== obj.id hdr.object_id.id e, f) refl
    by_count (some fds) f = elim (dispatch_known obj hdr io r fds e f) [
      | inl (has, d) ↦
          inl (has, handed_end obj hdr io r fds, d, handed_end-HandedOut obj hdr io r fds)
      | inr few ↦ inr few
    ]

-- A message for an object that is neither the polling one nor registered is left where it is, and
-- no task is woken.
pub dispatch_unknown :
    (obj : Receiver) (hdr : MessageHeader) (io : Io) (r : Registry)
    → obj.id ≢ hdr.object_id.id
    → get hdr.object_id.id r.receiver_map ≡ none
    → dispatch obj hdr io r ≡ done (end pending io (registered obj r) [])
unfolding dispatch
dispatch_unknown obj hdr io r ne g = rw (ne→== obj.id hdr.object_id.id ne, g) refl
