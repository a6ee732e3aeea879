-- ===== src/WaylandTokio/Io/Socket/Stream.antt =====
-- What is handed to the socket, and what comes from it, in order.
use ecs_compositor.Prelude.{
  ℕ, ◌≤◌, ◌<◌, ◌≡◌, refl, sym, ap, inl, inr, ◌++◌, Bool-cases, ltb, ltb→lt, ltb→le, none, some,
  Option, arith, length, take, take-append-drop, length-take, subst, ◌||◌, min,
}
use ecs_compositor.WaylandTokio.Io.{max_fds, BufDir, Io, is_nil, is_empty}
use ecs_compositor.WaylandTokio.Io.Messages.Deliver.{advanced, split_data-some, split_data-none}
use ecs_compositor.WaylandTokio.Io.Socket.{
  Progress, Handed, SendOutcome, taken, send_closed, send_would_block, send_error, send,
  nothing_handed, on_send, with_progress, no_send,
}

-- A step of sending from one state to another: what it handed to the socket is what is gone from
-- the front of the data, and the unused memory is the same.
pub record Sends (io : Io) (h : Handed) (io' : Io) : Type 0 where
  pub bytes_in_order : h.bytes ++ io'.tx.da.items ≡ io.tx.da.items
  pub fds_in_order : h.fds ++ io'.tx.fd.items ≡ io.tx.fd.items
  pub few_fds : length h.fds ≤ max_fds
  pub no_more_room : (io'.tx.da.unused ≡ io.tx.da.unused) × (io'.tx.fd.unused ≡ io.tx.fd.unused)
  pub rx_kept : (io'.rx ≡ io.rx) × (io'.rx_hdr ≡ io.rx_hdr)

abbrev pub WellSent : Io → Option (Handed × Progress × Io) → Type 0
WellSent io none = Unit {0}
WellSent io (some (h, p, io')) = Sends io h io'

nothing-Sends :
    (io io' : Io)
    → io'.tx ≡ io.tx
    → io'.rx ≡ io.rx
    → io'.rx_hdr ≡ io.rx_hdr
    → Sends io nothing_handed io'
nothing-Sends io io' t r h = record {
  bytes_in_order = ap (λ (b : BufDir). b.da.items) t;
  fds_in_order = ap (λ (b : BufDir). b.fd.items) t;
  few_fds = omega arith;
  no_more_room = (ap (λ (b : BufDir). b.da.unused) t, ap (λ (b : BufDir). b.fd.unused) t);
  rx_kept = (r, h);
}

with_progress-WellSent :
    (io io' : Io) (h : Handed) → Sends io h io' → WellSent io (some (with_progress h io'))
with_progress-WellSent io io' h v = elim (Bool-cases (is_nil io'.tx.da.items)) [
  | inl e ↦ rw e (record {
    bytes_in_order = v.bytes_in_order;
    fds_in_order = v.fds_in_order;
    few_fds = v.few_fds;
    no_more_room = v.no_more_room;
    rx_kept = v.rx_kept;
  })
  | inr e ↦ rw e v
]

abbrev handed_fds : Io → ℕ
handed_fds io = min (length io.tx.fd.items) max_fds

abbrev sent_off : ℕ → Io → Io
sent_off count io = record io {
  tx = record { da = advanced count io.tx.da; fd = advanced (handed_fds io) io.tx.fd };
}

abbrev handed_off : ℕ → Io → Handed
handed_off count io = record {
  bytes = take count io.tx.da.items;
  fds = take (handed_fds io) io.tx.fd.items;
}

taken-some :
    (io : Io) (count : ℕ)
    → count ≤ length io.tx.da.items
    → on_send io (taken count) ≡ some (with_progress (handed_off count io) (sent_off count io))
taken-some io count h =
    rw (split_data-some count io.tx.da h, split_data-some (handed_fds io) io.tx.fd (omega arith))
      refl

taken-none : (io : Io) (count : ℕ) → length io.tx.da.items < count → on_send io (taken count) ≡ none
taken-none io count h = rw (split_data-none count io.tx.da h) refl

taken-WellSent : (io : Io) (count : ℕ) → WellSent io (on_send io (taken count))
taken-WellSent io count = elim (Bool-cases (ltb (length io.tx.da.items) count)) [
  | inl short ↦ subst (WellSent io) (sym (taken-none io count (ltb→lt _ _ short))) tt
  | inr roomy ↦ subst (WellSent io) (sym (taken-some io count (ltb→le _ _ roomy))) (
      with_progress-WellSent io (sent_off count io) (handed_off count io) (record {
        bytes_in_order = take-append-drop count io.tx.da.items;
        fds_in_order = take-append-drop (handed_fds io) io.tx.fd.items;
        few_fds = omega (arith, length-take (handed_fds io) io.tx.fd.items);
        no_more_room = (refl, refl);
        rx_kept = (refl, refl);
      }))
]

on_send-WellSent : (io : Io) (outcome : SendOutcome) → WellSent io (on_send io outcome)
on_send-WellSent io send_closed = nothing-Sends io _ refl refl refl
on_send-WellSent io send_would_block = nothing-Sends io io refl refl refl
on_send-WellSent io (send_error code) = nothing-Sends io io refl refl refl
on_send-WellSent io (taken count) = taken-WellSent io count

-- One step of sending that returns, for whatever the socket does: what is handed to the socket is
-- the front of the data to send, with at most 252 descriptors, the rest stays in order, and
-- neither the room in the buffers nor the receiving side changes.
pub send-WellSent : (outcome : SendOutcome) (io : Io) → WellSent io (send outcome io)
unfolding send
send-WellSent outcome io = elim (Bool-cases (is_empty io.tx || io.interest.send_closed)) [
  | inl e ↦ rw e (nothing-Sends io (no_send io) refl refl refl)
  | inr e ↦ rw e (on_send-WellSent io outcome)
]
