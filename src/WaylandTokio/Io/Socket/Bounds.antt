-- ===== src/WaylandTokio/Io/Socket/Bounds.antt =====
-- What comes from the socket stands behind what was there, within the memory of the buffers, or the
-- step is one outside of that memory; and where the latter happens.
use ecs_compositor.Prelude.{
  ℕ, ◌<◌, ◌≡◌, refl, sym, subst, ◌⊎◌, inl, inr, List, [], true, false, if◌then◌else◌, none, some,
  Option, length, take,
}
use ecs_compositor.Core.Value.{RawFd}
use ecs_compositor.WaylandTokio.Io.{RingBuf, Io}
use ecs_compositor.WaylandTokio.Io.Socket.{
  Progress, more, Window, stop, room_of, underflow, data_window, rewound, compacted, Control,
  take_rights, RecvOutcome, received, recv_closed, recv_would_block, recv_error, filled, on_recv,
  in_window, recv_into, recv, no_recv,
}
use ecs_compositor.WaylandTokio.Io.Socket.Growth.{
  Grows, same-Grows, Grows-after, appended_cases, first_rights, RightsCases, take_rights-Grows,
  rewound-Grows, compacted-Grows,
}

-- What an outcome delivers, and what of it a window lets in.
abbrev pub bytes_of : RecvOutcome → List ℕ
bytes_of (received bytes ctrl) = bytes
bytes_of recv_closed = []
bytes_of recv_would_block = []
bytes_of (recv_error code) = []

abbrev pub fds_of : RecvOutcome → List RawFd
fds_of (received bytes ctrl) = first_rights ctrl
fds_of recv_closed = []
fds_of recv_would_block = []
fds_of (recv_error code) = []

abbrev pub bytes_in : Window → RecvOutcome → List ℕ
bytes_in stop outcome = []
bytes_in underflow outcome = []
bytes_in (room_of room) outcome = bytes_of (in_window room outcome)

abbrev pub fds_in : Window → RecvOutcome → List RawFd
fds_in stop outcome = []
fds_in underflow outcome = []
fds_in (room_of room) outcome = fds_of outcome

-- The window of a state; nothing is received from a closed connection.
abbrev pub window_at : Io → Window
window_at io = if io.interest.recv_closed then stop else data_window io.rx.da io.rx_hdr

-- A step of receiving: both buffers grow by the new items, and what is sent is left alone.
pub record Receives (io : Io) (new : List ℕ) (new_fds : List RawFd) (io' : Io) : Type 0 where
  pub bytes_in_order : Grows io.rx.da new io'.rx.da
  pub fds_in_order : Grows io.rx.fd new_fds io'.rx.fd
  pub tx_kept : (io'.tx ≡ io.tx) × (io'.rx_hdr ≡ io.rx_hdr)

-- The memory is too short: for the window, for the bytes, or for the descriptors.
abbrev pub TooShort : Window → Io → RecvOutcome → Type 0
TooShort w io outcome =
    (w ≡ underflow)
    ⊎ (length (rewound io.rx.da).unused < length (bytes_in w outcome))
    ⊎ (length (compacted io.rx.fd).unused < length (fds_in w outcome))

abbrev ReceivedAt : Window → RecvOutcome → Io → Option (Progress × Io) → Type 0
ReceivedAt w outcome io none = TooShort w io outcome
ReceivedAt w outcome io (some (p, io')) = Receives io (bytes_in w outcome) (fds_in w outcome) io'

abbrev pub WellReceived : RecvOutcome → Io → Option (Progress × Io) → Type 0
WellReceived outcome io o = ReceivedAt (window_at io) outcome io o

unfoldable pub prepared : Io → Io
prepared io = record io { rx = record { da = rewound io.rx.da; fd = compacted io.rx.fd } }

filled-ReceivedAt :
    (io : Io) (room : ℕ) (bytes : List ℕ) (ctrl : List Control) (c : RingBuf ℕ)
    → Grows (rewound io.rx.da) (take room bytes) c
    → (o : Option (RingBuf RawFd)) → RightsCases (first_rights ctrl) (compacted io.rx.fd) o
    → ReceivedAt (room_of room) (received bytes ctrl) io (filled (prepared io) (some c) o)
unfolding prepared
filled-ReceivedAt io room bytes ctrl c g none k = inr (inr k)
filled-ReceivedAt io room bytes ctrl c g (some fd) k = record {
  bytes_in_order = Grows-after (rewound-Grows io.rx.da) g;
  fds_in_order = Grows-after (compacted-Grows io.rx.fd) k;
  tx_kept = (refl, refl);
}

received-ReceivedAt :
    (io : Io) (room : ℕ) (bytes : List ℕ) (ctrl : List Control)
    → ReceivedAt
        (room_of room)
        (received bytes ctrl)
        io
        (on_recv (prepared io) (received (take room bytes) ctrl))
unfolding prepared
received-ReceivedAt io room bytes ctrl =
    elim (appended_cases (take room bytes) (rewound io.rx.da)) [
      | inl (short, e) ↦ rw e (inr (inl short))
      | inr (c, e, g) ↦ rw e (
          filled-ReceivedAt io room bytes ctrl c g (take_rights ctrl (compacted io.rx.fd))
            (take_rights-Grows ctrl (compacted io.rx.fd)))
    ]

quiet-Receives :
    (io io' : Io)
    → io'.rx.da ≡ rewound io.rx.da
    → io'.rx.fd ≡ compacted io.rx.fd
    → (io'.tx ≡ io.tx) × (io'.rx_hdr ≡ io.rx_hdr)
    → Receives io [] [] io'
quiet-Receives io io' g h k = record {
  bytes_in_order = subst (Grows io.rx.da []) (sym g) (rewound-Grows io.rx.da);
  fds_in_order = subst (Grows io.rx.fd []) (sym h) (compacted-Grows io.rx.fd);
  tx_kept = k;
}

on_recv-ReceivedAt :
    (io : Io) (room : ℕ) (outcome : RecvOutcome)
    → ReceivedAt (room_of room) outcome io (on_recv (prepared io) (in_window room outcome))
unfolding prepared
on_recv-ReceivedAt io room recv_closed = quiet-Receives io _ refl refl (refl, refl)
on_recv-ReceivedAt io room recv_would_block = quiet-Receives io (prepared io) refl refl (refl, refl)
on_recv-ReceivedAt io room (recv_error code) =
    quiet-Receives io (prepared io) refl refl (refl, refl)
on_recv-ReceivedAt io room (received bytes ctrl) = received-ReceivedAt io room bytes ctrl

stop-Receives : (io : Io) → Receives io [] [] (no_recv io)
stop-Receives io = record {
  bytes_in_order = same-Grows io.rx.da io.rx.da refl refl;
  fds_in_order = same-Grows io.rx.fd io.rx.fd refl refl;
  tx_kept = (refl, refl);
}

recv_into-ReceivedAt :
    (io : Io) (outcome : RecvOutcome) (w : Window)
    → ReceivedAt w outcome io (recv_into io outcome w)
unfolding prepared
recv_into-ReceivedAt io outcome stop = stop-Receives io
recv_into-ReceivedAt io outcome underflow = inl refl
recv_into-ReceivedAt io outcome (room_of room) = on_recv-ReceivedAt io room outcome

-- One step of receiving, for whatever the socket does: where it returns, exactly the bytes that
-- the socket delivers into the window of the state, and the descriptors of its first control
-- message with some, stand behind what was there, in memory of the same size, and what is to be
-- sent is left alone. It only fails to return where the window has a negative length, or the
-- memory is too short for the bytes or for the descriptors.
pub recv-WellReceived :
    (outcome : RecvOutcome) (io : Io) → WellReceived outcome io (recv outcome io)
unfolding recv
recv-WellReceived outcome io =
    elim (io.interest.recv_closed)
      as (λ b. ReceivedAt (if b then stop else data_window io.rx.da io.rx_hdr) outcome io (
        if b
        then some (more false, no_recv io)
        else recv_into io outcome (data_window io.rx.da io.rx_hdr))) [
          | true ↦ stop-Receives io
          | false ↦ recv_into-ReceivedAt io outcome (data_window io.rx.da io.rx_hdr)
        ]
