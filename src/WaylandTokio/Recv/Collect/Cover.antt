-- ===== src/WaylandTokio/Recv/Collect/Cover.antt =====
-- A handle covers the oldest indices that are in use, and no other.
use ecs_compositor.Prelude.{
  ℕ, zero, suc, ◌+◌, ◌-◌, ◌≤◌, ◌≡◌, refl, sym, ap, ap₂, ◌∙◌, inl, inr, ◌∷◌, ◌++◌, append_assoc,
  true, Bool-cases, Option, arith, length, take, take-append-drop, leb, leb→le, leb→lt,
  take-append_of_le, length-take,
}
use ecs_compositor.WaylandTokio.Span.{Span, Range, consume, free_space}
use ecs_compositor.WaylandTokio.Span.Queue.{
  IsSpan, indices, indices_from, indices-append, indices-straight, indices-wrapped, length-indices,
}
use ecs_compositor.WaylandTokio.Span.Consume.{first_part, consume-drop}
use ecs_compositor.WaylandTokio.Recv.{Bufs, BufSpan, slice, slice_of}
use ecs_compositor.WaylandTokio.Recv.Collect.{contiguous, consumed, extended}

-- A slice is within the first part of the indices in use, from `free` on.
pub slice-first_part :
    (default len : ℕ) (s : Span) (r : Option Range)
    → IsSpan s
    → slice_of default len s ≡ slice r
    → len ≤ first_part s
unfolding slice_of free_space
slice-first_part default len s r v e = ground arith

take-indices_from :
    (start count n : ℕ) → count ≤ n → take count (indices_from start n) ≡ indices_from start count
take-indices_from start zero n h = refl
take-indices_from start (suc count) zero h = absurd (omega arith)
take-indices_from start (suc count) (suc n) h =
    ap (λ l. start ∷ l) (take-indices_from (start + 1) count n (omega arith))

-- The oldest indices in use are those from `free` on, up to the first part.
take-indices :
    (s : Span) (count : ℕ)
    → count ≤ first_part s
    → take count (indices s) ≡ indices_from s.free count
take-indices s count h = elim (Bool-cases (leb s.free s.next)) [
  | inl le ↦
      ap (take count) (indices-straight s.free s.next s.hold (leb→le _ _ le))
      ∙ take-indices_from s.free count (s.next - s.free) (ground (arith, le))
  | inr gt ↦
      ap (take count) (indices-wrapped s.free s.next s.hold (leb→lt _ _ gt))
      ∙ take-append_of_le count (indices_from s.free (s.hold - s.free)) (indices_from 0 s.next)
          (ground (arith, gt, length-indices s.free (s.hold - s.free)))
      ∙ take-indices_from s.free count (s.hold - s.free) (ground (arith, gt))
]

pub first_part-le-length : (s : Span) → first_part s ≤ length (indices s)
first_part-le-length s = omega (
  arith,
  ap length (take-indices s (first_part s) (omega arith)),
  length-take (first_part s) (indices s),
  length-indices s.free (first_part s),
)

-- Of what was in use in a span at first, `len` indices from `start` on are covered, and the rest is
-- in use in the span `s`.
abbrev pub Covers : Span → ℕ → ℕ → Span → Type 0
Covers first start len s = IsSpan s × (indices first ≡ indices_from start len ++ indices s)

Covers-consume :
    (first s : Span) (start len count : ℕ)
    → Covers first start len s
    → start + len ≡ s.free
    → count ≤ first_part s
    → Covers first start (len + count) (consume s count)
Covers-consume first s start len count (v, c) at h =
    let (dropped, v') = consume-drop s count v h in
    (
      v',
      c
          ∙ ap (λ l. indices_from start len ++ l)
              (sym (take-append-drop count (indices s))
                ∙ ap₂ (λ l m. l ++ m) (take-indices s count h) (sym dropped))
          ∙ sym (
              append_assoc (indices_from start len) (indices_from s.free count)
                (indices (consume s count)))
          ∙ ap (λ l. l ++ indices (consume s count))
              (ap (λ n. indices_from start len ++ indices_from n count) (sym at)
                ∙ sym (indices-append start len count)),
    )

-- Both spans, and the handle.
abbrev pub BothCover : Bufs → Bufs → BufSpan → Type 0
BothCover first b h =
    Covers first.recv.da h.da h.da_len b.recv.da × Covers first.recv.ct h.ct h.ct_len b.recv.ct

contiguous-eq :
    (b : Bufs) (h : BufSpan)
    → contiguous b h ≡ true
    → (h.da + h.da_len ≡ b.recv.da.free) × (h.ct + h.ct_len ≡ b.recv.ct.free)
contiguous-eq b h e = ground arith

pub BothCover-consumed :
    (first b : Bufs) (h : BufSpan) (da ct : ℕ)
    → BothCover first b h
    → contiguous b h ≡ true
    → da ≤ first_part b.recv.da
    → ct ≤ first_part b.recv.ct
    → BothCover first (consumed da ct b) (extended da ct h)
BothCover-consumed first b h da ct (c, d) e p q =
    let (at, at') = contiguous-eq b h e in
    (
      Covers-consume first.recv.da b.recv.da h.da h.da_len da c at p,
      Covers-consume first.recv.ct b.recv.ct h.ct h.ct_len ct d at' q,
    )
