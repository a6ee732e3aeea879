-- ===== src/WaylandTokio/Recv/Collect/Handle.antt =====
-- What a handle covers when the loop over the messages ends.
use ecs_compositor.Prelude.{
  ℕ, zero, suc, ◌≡◌, refl, sym, ap, subst, ◌∙◌, inl, inr, List, [], ◌++◌, Bool, true, false,
  Bool-cases,
}
use ecs_compositor.Core.Error.{Result, ok, fail}
use ecs_compositor.Core.Value.{ReadBuf}
use ecs_compositor.Core.Value.Law.{read_buf}
use ecs_compositor.Core.Header.{MessageHeader, message_header, data_len}
use ecs_compositor.WaylandTokio.Span.Queue.{indices, indices_from, IsSpan}
use ecs_compositor.WaylandTokio.Recv.{
  Bufs, BufSpan, Slice, slice, absent, too_long, slice_of, read_slices, from_slices, data_hold,
  ctrl_hold, new_span,
}
use ecs_compositor.WaylandTokio.Recv.Collect.{
  Callback, Collected, Round, ends, message, contiguous, with_body, if_included, with_header,
  with_slices, round, continue, collect_chunks, bytes_at,
}
use ecs_compositor.WaylandTokio.Recv.Collect.Cover.{BothCover, BothCover-consumed, slice-first_part}

-- A part of the indices that were in use at first, the oldest.
abbrev pub CoversOldest : Bufs → BufSpan → BufSpan → Type 0
CoversOldest first h h' =
    (rest : List ℕ) × (rest' : List ℕ) × (indices first.recv.da
      ≡ indices_from h.da h'.da_len ++ rest)
    × (indices first.recv.ct ≡ indices_from h.ct h'.ct_len ++ rest')
    × (h'.da ≡ h.da)
    × (h'.ct ≡ h.ct)

module _ {S : Type 0} (cb : Callback S) (memory : List ℕ) (first : Bufs) where
  -- A round that ends leaves the handle alone; a message is covered by it.
  abbrev RoundCovers : BufSpan → Round S → Type 0
  RoundCovers h (ends c) = c.span ≡ h
  RoundCovers h (message b h' s) = BothCover first b h' × (h'.da ≡ h.da) × (h'.ct ≡ h.ct)

  module _ (b : Bufs) (h : BufSpan) (c : BothCover first b h) (at : contiguous b h ≡ true) where
    body-covers :
        (da ct : ℕ) (s : S) (x y : Slice)
        → slice_of data_hold da b.recv.da ≡ x
        → slice_of ctrl_hold ct b.recv.ct ≡ y
        → RoundCovers h (with_body cb memory da ct h s (from_slices true b x y))
    body-covers da ct s (slice r) (slice q) e f = (
      BothCover-consumed first b h da ct c at (slice-first_part data_hold da b.recv.da r c.0.0 e)
          (slice-first_part ctrl_hold ct b.recv.ct q c.1.0 f),
      refl,
      refl,
    )
    body-covers da ct s (slice r) absent e f = refl
    body-covers da ct s (slice r) (too_long hold) e f = refl
    body-covers da ct s absent y e f = refl
    body-covers da ct s (too_long hold) y e f = refl

    included-covers :
        (hdr : MessageHeader) (p : Bool × S) → RoundCovers h (if_included cb memory hdr b h p)
    unfolding read_slices
    included-covers hdr (true, s) =
        body-covers hdr.datalen (cb.fd_count s hdr).0 (cb.fd_count s hdr).1
          (slice_of data_hold hdr.datalen b.recv.da)
          (slice_of ctrl_hold (cb.fd_count s hdr).0 b.recv.ct) refl refl
    included-covers hdr (false, s) = refl

    header-covers :
        (s : S) (r : Result MessageHeader × ReadBuf) → RoundCovers h (with_header cb memory b h s r)
    header-covers s (ok hdr, rest) = included-covers hdr (cb.should_include s hdr)
    header-covers s (fail e, rest) = refl

    slices-covers :
        (s : S) (x y : Slice) → RoundCovers h (with_slices cb memory h s (from_slices false b x y))
    slices-covers s (slice r) (slice q) =
        header-covers s (message_header.read (read_buf (bytes_at memory r) []))
    slices-covers s (slice r) absent = refl
    slices-covers s (slice r) (too_long hold) = refl
    slices-covers s absent y = refl
    slices-covers s (too_long hold) y = refl

  round-covers :
      (b : Bufs) (h : BufSpan) (s : S) → BothCover first b h → RoundCovers h (round cb memory b h s)
  unfolding round read_slices
  round-covers b h s c = elim (Bool-cases (contiguous b h)) [
    | inl at ↦ rw at (
        slices-covers b h c at s (slice_of data_hold data_len b.recv.da)
          (slice_of ctrl_hold 0 b.recv.ct))
    | inr apart ↦ rw apart refl
  ]

  covered : (b : Bufs) (h : BufSpan) → BothCover first b h → CoversOldest first h h
  covered b h (c, d) = (indices b.recv.da, indices b.recv.ct, c.1, d.1, refl, refl)

  -- What the rest of the loop does with a round.
  module _ (next : Bufs → BufSpan → S → Collected S) (b : Bufs) (h : BufSpan) where
    continue-covers :
        ((b' : Bufs) (h' : BufSpan) (s' : S)
          → BothCover first b' h'
          → CoversOldest first h' (next b' h' s').span)
        → BothCover first b h
        → (r : Round S) → RoundCovers h r
        → CoversOldest first h (continue cb memory next r).span
    continue-covers ih c (ends x) e = subst (CoversOldest first h) (sym e) (covered b h c)
    continue-covers ih c (message b' h' s') (c', e, f) =
        let (rest, rest', p, q, u, v) = ih b' h' s' c' in
        (
          rest,
          rest',
          p ∙ ap (λ n. indices_from n (next b' h' s').span.da_len ++ rest) e,
          q ∙ ap (λ n. indices_from n (next b' h' s').span.ct_len ++ rest') f,
          u ∙ e,
          v ∙ f,
        )

  collect-covers :
      (rounds : ℕ) (b : Bufs) (h : BufSpan) (s : S)
      → BothCover first b h
      → CoversOldest first h (collect_chunks cb memory rounds b h s).span
  unfolding collect_chunks
  collect-covers zero b h s c = covered b h c
  collect-covers (suc rounds) b h s c =
      continue-covers (λ b' h' s'. collect_chunks cb memory rounds b' h' s') b h
        (λ b' h' s' c'. collect-covers rounds b' h' s' c') c (round cb memory b h s)
        (round-covers b h s c)

-- For any callback and any memory, and after any number of rounds on spans: the data and the
-- descriptors of the handle are the oldest ones in the receive spans, in order, from where they
-- start.
pub collect_chunks-CoversOldest :
    {S : Type 0} (cb : Callback S) (memory : List ℕ) (rounds : ℕ) (b : Bufs) (s : S)
    → IsSpan b.recv.da
    → IsSpan b.recv.ct
    → let h = new_span b.recv.da.free b.recv.ct.free in
      CoversOldest b h (collect_chunks cb memory rounds b h s).span
collect_chunks-CoversOldest cb memory rounds b s v w =
    collect-covers cb memory b rounds b (new_span b.recv.da.free b.recv.ct.free) s
      ((v, refl), (w, refl))
