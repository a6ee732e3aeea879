-- ===== src/WaylandTokio/Recv/Collect/Ends.antt =====
-- When the loop over the messages ends.
use ecs_compositor.Prelude.{
  ℕ, zero, suc, ◌<◌, ◌≡◌, ◌≢◌, refl, ap, inl, inr, List, [], Bool, true, false, Bool-cases, arith,
  length, length-drop,
}
use ecs_compositor.Core.Error.{Result, ok, fail}
use ecs_compositor.Core.Value.{ReadBuf}
use ecs_compositor.Core.Value.Law.{read_buf}
use ecs_compositor.Core.Header.{MessageHeader, message_header, data_len}
use ecs_compositor.WaylandTokio.Span.Queue.{indices, IsSpan}
use ecs_compositor.WaylandTokio.Span.Consume.{consume-drop}
use ecs_compositor.WaylandTokio.Recv.{
  Bufs, BufSpan, Slice, slice, absent, too_long, slice_of, read_slices, from_slices, data_hold,
  ctrl_hold,
}
use ecs_compositor.WaylandTokio.Recv.Collect.{
  Callback, Collected, Round, ends, message, contiguous, with_body, if_included, with_header,
  with_slices, round, continue, collect_chunks, bytes_at, looping,
}
use ecs_compositor.WaylandTokio.Recv.Collect.Cover.{slice-first_part, first_part-le-length}

module _ {S : Type 0} (cb : Callback S) (memory : List ℕ) where
  module _
      (progress : (s : S) (hdr : MessageHeader)
        → (cb.should_include s hdr).0 ≡ true
        → 0 < hdr.datalen) where
    -- A round ends, or a message has left fewer indices in use.
    abbrev Falls : Bufs → Round S → Type 0
    Falls b (ends c) = c.stop ≢ looping
    Falls b (message b' h s) =
        IsSpan b'.recv.da
        × IsSpan b'.recv.ct
        × (length (indices b'.recv.da) < length (indices b.recv.da))

    module _ (b : Bufs) (h : BufSpan) (v : IsSpan b.recv.da) (w : IsSpan b.recv.ct) where
      body-Falls :
          (da ct : ℕ) (s : S) (x y : Slice)
          → 0 < da
          → slice_of data_hold da b.recv.da ≡ x
          → slice_of ctrl_hold ct b.recv.ct ≡ y
          → Falls b (with_body cb memory da ct h s (from_slices true b x y))
      body-Falls da ct s (slice r) (slice q) pos e f =
          let p = slice-first_part data_hold da b.recv.da r v e in
          let (d, v') = consume-drop b.recv.da da v p in
          let (d', w') =
            consume-drop b.recv.ct ct w (slice-first_part ctrl_hold ct b.recv.ct q w f) in
          (
            v',
            w',
            omega (
              arith,
              ap length d,
              length-drop da (indices b.recv.da),
              first_part-le-length b.recv.da,
            ),
          )
      body-Falls da ct s (slice r) absent pos e f = λ k. cc
      body-Falls da ct s (slice r) (too_long hold) pos e f = λ k. cc
      body-Falls da ct s absent y pos e f = λ k. cc
      body-Falls da ct s (too_long hold) y pos e f = λ k. cc

      included-Falls :
          (hdr : MessageHeader) (p : Bool × S)
          → (p.0 ≡ true → 0 < hdr.datalen)
          → Falls b (if_included cb memory hdr b h p)
      unfolding read_slices
      included-Falls hdr (true, s) pos =
          body-Falls hdr.datalen (cb.fd_count s hdr).0 (cb.fd_count s hdr).1
            (slice_of data_hold hdr.datalen b.recv.da)
            (slice_of ctrl_hold (cb.fd_count s hdr).0 b.recv.ct) (pos refl) refl refl
      included-Falls hdr (false, s) pos = λ k. cc

      header-Falls :
          (s : S) (r : Result MessageHeader × ReadBuf) → Falls b (with_header cb memory b h s r)
      header-Falls s (ok hdr, rest) = included-Falls hdr (cb.should_include s hdr) (progress s hdr)
      header-Falls s (fail e, rest) = λ k. cc

      slices-Falls :
          (s : S) (x y : Slice) → Falls b (with_slices cb memory h s (from_slices false b x y))
      slices-Falls s (slice r) (slice q) =
          header-Falls s (message_header.read (read_buf (bytes_at memory r) []))
      slices-Falls s (slice r) absent = λ k. cc
      slices-Falls s (slice r) (too_long hold) = λ k. cc
      slices-Falls s absent y = λ k. cc
      slices-Falls s (too_long hold) y = λ k. cc

    round-Falls :
        (b : Bufs) (h : BufSpan) (s : S)
        → IsSpan b.recv.da
        → IsSpan b.recv.ct
        → Falls b (round cb memory b h s)
    unfolding round read_slices
    round-Falls b h s v w = elim (Bool-cases (contiguous b h)) [
      | inl at ↦ rw at (
          slices-Falls b h v w s (slice_of data_hold data_len b.recv.da)
            (slice_of ctrl_hold 0 b.recv.ct))
      | inr apart ↦ rw apart (λ k. cc)
    ]

    continue-ends :
        (next : Bufs → BufSpan → S → Collected S) (b : Bufs) (r : Round S)
        → ((b' : Bufs) (h' : BufSpan) (s' : S)
            → IsSpan b'.recv.da
            → IsSpan b'.recv.ct
            → length (indices b'.recv.da) < length (indices b.recv.da)
            → (next b' h' s').stop ≢ looping)
        → Falls b r
        → (continue cb memory next r).stop ≢ looping
    continue-ends next b (ends c) ih f = f
    continue-ends next b (message b' h' s') ih (v, w, lt) = ih b' h' s' v w lt

    -- Where the callback only includes headers that announce a length that is not 0, collecting
    -- messages from spans ends, within one round more than there are bytes in the receive span.
    pub collect_chunks-ends :
        (rounds : ℕ) (b : Bufs) (h : BufSpan) (s : S)
        → IsSpan b.recv.da
        → IsSpan b.recv.ct
        → length (indices b.recv.da) < rounds
        → (collect_chunks cb memory rounds b h s).stop ≢ looping
    unfolding collect_chunks
    collect_chunks-ends zero b h s v w lt = absurd (omega arith)
    collect_chunks-ends (suc rounds) b h s v w lt =
        continue-ends (λ b' h' s'. collect_chunks cb memory rounds b' h' s') b
          (round cb memory b h s)
          (λ b' h' s' v' w' fewer. collect_chunks-ends rounds b' h' s' v' w' (omega arith))
          (round-Falls b h s v w)
