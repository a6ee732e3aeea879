-- ===== src/WaylandTokio/Recv/Collect/Stuck.antt =====
-- Where the loop over the messages does not end.
use ecs_compositor.Prelude.{
  ℕ, zero, suc, ◌+◌, ◌≡◌, refl, ap, ap₂, ◌∙◌, List, [], Bool, true, false, none, some, arith,
  if◌then◌else◌,
}
use ecs_compositor.Core.Error.{ok}
use ecs_compositor.Core.Value.{ReadBuf}
use ecs_compositor.Core.Value.Law.{read_buf}
use ecs_compositor.Core.Header.{MessageHeader, message_header, data_len}
use ecs_compositor.WaylandTokio.Span.{Span, Range, consume}
use ecs_compositor.WaylandTokio.Span.Queue.{IsSpan}
use ecs_compositor.WaylandTokio.Recv.{
  Bufs, BufSpan, slice, slice_of, read_slices, from_slices, data_hold,
}
use ecs_compositor.WaylandTokio.Recv.Collect.{
  Callback, collected, ends, message, contiguous, consumed, extended, with_body, with_count,
  if_included, with_header, with_slices, round, collect_chunks, bytes_at, looping, not_contiguous,
}

-- Nothing is consumed of a span by a message without a length.
consume-zero : (s : Span) → IsSpan s → consume s 0 ≡ s
unfolding consume
consume-zero s v = ground arith

-- A header that announces no bytes, not even its own, in front of the data.
module _ {S : Type 0} (cb : Callback S) (memory : List ℕ) (b : Bufs) (v : IsSpan b.recv.da)
    (w : IsSpan b.recv.ct) (r : Range)
    (there : slice_of data_hold data_len b.recv.da ≡ slice (some r)) (hdr : MessageHeader)
    (rest : ReadBuf)
    (read : message_header.read (read_buf (bytes_at memory (some r)) []) ≡ (ok hdr, rest))
    (empty : hdr.datalen ≡ 0) (included : (s : S) → (cb.should_include s hdr).0 ≡ true)
    (no_fds : (s : S) → (cb.fd_count s hdr).0 ≡ 0) where
  after : S → S
  after s = (cb.fd_count (cb.should_include s hdr).1 hdr).1

  consumed-zero : consumed 0 0 b ≡ b
  consumed-zero = rw (consume-zero b.recv.da v, consume-zero b.recv.ct w) refl

  if_included-true :
      (h : BufSpan) (p : Bool × S)
      → p.0 ≡ true
      → if_included cb memory hdr b h p ≡ with_count cb memory hdr b h (cb.fd_count p.1 hdr)
  if_included-true h (true, s) e = refl
  if_included-true h (false, s) e = cc

  with_count-zero :
      (h : BufSpan) (q : ℕ × S)
      → q.0 ≡ 0
      → with_count cb memory hdr b h q ≡ message b (extended 0 0 h) q.1
  unfolding read_slices
  with_count-zero h (ct, s) e =
      ap₂ (λ d c. with_body cb memory d c h s (read_slices d c true b)) empty e
      ∙ ap (λ b'. message b' (extended 0 0 h) s) consumed-zero

  same_round :
      (h : BufSpan) (s : S)
      → contiguous b h ≡ true
      → round cb memory b h s ≡ message b (extended 0 0 h) (after s)
  unfolding round read_slices after
  same_round h s at =
      ap
        (λ t.
          if t
          then with_slices cb memory h s (read_slices data_len 0 false b)
          else ends (collected not_contiguous b h s))
        at
      ∙ ap (λ x. with_slices cb memory h s (from_slices false b x (slice none))) there
      ∙ ap (with_header cb memory b h s) read
      ∙ if_included-true h (cb.should_include s hdr) (included s)
      ∙ with_count-zero h (cb.fd_count (cb.should_include s hdr).1 hdr)
          (no_fds (cb.should_include s hdr).1)

  contiguous-extended : (h : BufSpan) → contiguous b h ≡ true → contiguous b (extended 0 0 h) ≡ true
  contiguous-extended h e = ground arith

  -- Where the header in front of the receive span announces the length 0, and the callback always
  -- includes it and gives it no descriptors, the loop over the messages never ends: after any
  -- number of rounds it is still looping, and has counted a message in each.
  pub collect_chunks_stuck :
      (rounds : ℕ) (h : BufSpan) (s : S)
      → contiguous b h ≡ true
      → ((collect_chunks cb memory rounds b h s).stop ≡ looping)
        × ((collect_chunks cb memory rounds b h s).span.count ≡ h.count + rounds)
  unfolding collect_chunks
  collect_chunks_stuck zero h s at = (refl, omega arith)
  collect_chunks_stuck (suc rounds) h s at =
      let (p, q) =
        collect_chunks_stuck rounds (extended 0 0 h) (after s) (contiguous-extended h at) in
      rw (same_round h s at) (p, q ∙ omega arith)
