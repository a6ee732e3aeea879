-- ===== src/WaylandTokio/Io/Socket/Faults.antt =====
-- Where a receive fails: a length that is negative, and a part that is larger than the buffer.
use ecs_compositor.Prelude.{
  ℕ, ◌*◌, ◌≤◌, ◌<◌, ◌≡◌, refl, ap, ◌∙◌, List, [], ◌∷◌, false, lt→ltb, le→ltb, lt→leb, if◌then◌else◌,
  none, some, arith, length, take, length-take,
}
use ecs_compositor.WaylandTokio.Io.{max_message_len, RingBuf, Io, is_nil}
use ecs_compositor.WaylandTokio.Io.Socket.{
  more, Window, room_of, underflow, data_window, rewound, compacted, appended, Control, take_rights,
  RecvOutcome, received, filled, recv_into, recv, no_recv,
}
use ecs_compositor.WaylandTokio.Io.Socket.Bounds.{prepared}

not_nil : {A : Type 0} (xs : List A) → 0 < length xs → is_nil xs ≡ false
not_nil [] h = absurd (omega arith)
not_nil (x ∷ xs) h = refl

recv_open :
    (outcome : RecvOutcome) (io : Io) (w : Window)
    → io.interest.recv_closed ≡ false
    → data_window io.rx.da io.rx_hdr ≡ w
    → recv outcome io ≡ recv_into io outcome w
unfolding recv
recv_open outcome io w c e =
    ap
      (λ b.
        if b
        then some (more false, no_recv io)
        else recv_into io outcome (data_window io.rx.da io.rx_hdr))
      c
    ∙ ap (recv_into io outcome) e

-- Where the connection is open to be read, no header is parsed, between one and seven bytes wait
-- and there is less room behind them than two messages may take, a step of receiving takes eight
-- from that number, which is negative.
pub recv_underflow :
    (outcome : RecvOutcome) (io : Io)
    → io.interest.recv_closed ≡ false
    → io.rx_hdr ≡ none
    → 0 < length io.rx.da.items
    → length io.rx.da.items < 8
    → length io.rx.da.unused < max_message_len * 2
    → recv outcome io ≡ none
unfolding data_window
recv_underflow outcome io c e pos few full = recv_open outcome io underflow c (
    rw
      (
        not_nil io.rx.da.items pos,
        lt→ltb (length io.rx.da.unused) (max_message_len * 2) full,
        e,
        lt→leb 8 (length io.rx.da.items) few,
        lt→ltb (length io.rx.da.items) 8 few,
      )
      refl)

appended-none :
    {A : Type 0} (new : List A) (b : RingBuf A)
    → length b.unused < length new
    → appended new b ≡ none
unfolding appended
appended-none new b h = rw (lt→ltb (length b.unused) (length new) h) refl

rewound-nonempty : (da : RingBuf ℕ) → 0 < length da.items → rewound da ≡ da
unfolding rewound
rewound-nonempty da h = rw (not_nil da.items h) refl

-- With room for two to three messages behind the data, the socket may deliver more than there is
-- room for.
pub recv_overflow :
    (io : Io) (bytes : List ℕ) (ctrl : List Control)
    → io.interest.recv_closed ≡ false
    → 0 < length io.rx.da.items
    → max_message_len * 2 ≤ length io.rx.da.unused
    → length io.rx.da.unused < length bytes
    → length io.rx.da.unused < max_message_len * 3
    → recv (received bytes ctrl) io ≡ none
unfolding data_window prepared
recv_overflow io bytes ctrl c pos half big room =
    recv_open (received bytes ctrl) io (room_of (max_message_len * 3)) c (
      rw (not_nil io.rx.da.items pos, le→ltb (length io.rx.da.unused) (max_message_len * 2) half)
        refl)
    ∙ ap (λ o. filled (prepared io) o (take_rights ctrl (compacted io.rx.fd)))
        (ap (appended (take (max_message_len * 3) bytes)) (rewound-nonempty io.rx.da pos)
          ∙ appended-none (take (max_message_len * 3) bytes) io.rx.da
              (omega (arith, length-take (max_message_len * 3) bytes)))
