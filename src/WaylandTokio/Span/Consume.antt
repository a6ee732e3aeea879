-- ===== src/WaylandTokio/Span/Consume.antt =====
-- `consume` takes the oldest indices.
use ecs_compositor.Prelude.{
  ℕ, ◌+◌, ◌-◌, ◌≤◌, ◌<◌, ◌≡◌, ◌≢◌, sym, ap, ap₂, ◌∙◌, inl, inr, List, ◌++◌, arith, drop,
  drop-append, drop-append_of_le, leb, ◌==◌, Bool-cases, leb→le, leb→lt, ==→eq, ==→ne,
  if◌then◌else◌, eq→==, ne→==,
}
use ecs_compositor.WaylandTokio.Span.{Span, consume}
use ecs_compositor.WaylandTokio.Span.Queue.{
  indices_from, indices, IsSpan, span, drop-indices, length-indices, indices-straight,
  indices-wrapped,
}

-- `consume` where `free` does not reach the threshold, and where it does.
consume_on :
    (s : Span) (count : ℕ)
    → s.free + count ≢ s.hold
    → consume s count ≡ span (s.free + count) s.next s.hold
unfolding consume
consume_on s count h = rw (ne→== (s.free + count) s.hold h)

consume_reset : (s : Span) (count : ℕ) → s.free + count ≡ s.hold → consume s count ≡ span 0 s.next 0
unfolding consume
consume_reset s count h = rw (eq→== (s.free + count) s.hold h)

-- The number of indices up to the threshold or to `next`, which a slice may take.
abbrev pub first_part : Span → ℕ
first_part s = if leb s.free s.next then s.next - s.free else s.hold - s.free

consume-straight :
    (s : Span) (count : ℕ)
    → IsSpan s
    → s.free ≤ s.next
    → count ≤ s.next - s.free
    → indices (consume s count) ≡ drop count (indices s)
consume-straight s count v le h = elim (Bool-cases (s.free + count == s.hold)) [
  | inl e ↦
      ap indices (consume_reset s count (==→eq _ _ e))
      ∙ indices-straight 0 s.next 0 (omega arith)
      ∙ ap₂ indices_from (omega (arith, ==→eq _ _ e)) (omega (arith, ==→eq _ _ e))
      ∙ dropped
  | inr e ↦
      ap indices (consume_on s count (==→ne _ _ e))
      ∙ indices-straight (s.free + count) s.next s.hold (omega arith)
      ∙ ap (indices_from (s.free + count)) (omega arith)
      ∙ dropped
]
  where
    dropped : indices_from (s.free + count) (s.next - s.free - count) ≡ drop count (indices s)
    dropped =
        sym (drop-indices s.free count (s.next - s.free) h)
        ∙ ap (drop count) (sym (indices-straight s.free s.next s.hold le))

consume-wrapped :
    (s : Span) (count : ℕ)
    → s.next < s.free
    → s.free < s.hold
    → count ≤ s.hold - s.free
    → indices (consume s count) ≡ drop count (indices s)
consume-wrapped s count lt top h = elim (Bool-cases (s.free + count == s.hold)) [
  | inl e ↦
      ap indices (consume_reset s count (==→eq _ _ e))
      ∙ indices-straight 0 s.next 0 (omega arith)
      ∙ ap (indices_from 0) {x = s.next - 0} {y = s.next} (omega arith)
      ∙ sym (
          drop-append count front (indices_from 0 s.next)
            (length-indices s.free (s.hold - s.free) ∙ omega (arith, ==→eq _ _ e)))
      ∙ ap (drop count) (sym (indices-wrapped s.free s.next s.hold lt))
  | inr e ↦
      ap indices (consume_on s count (==→ne _ _ e))
      ∙ indices-wrapped (s.free + count) s.next s.hold (omega arith)
      ∙ ap (λ l. l ++ indices_from 0 s.next)
          (ap (indices_from (s.free + count)) (omega arith)
            ∙ sym (drop-indices s.free count (s.hold - s.free) h))
      ∙ sym (
          drop-append_of_le count front (indices_from 0 s.next)
            (omega (arith, length-indices s.free (s.hold - s.free))))
      ∙ ap (drop count) (sym (indices-wrapped s.free s.next s.hold lt))
]
  where
    front : List ℕ
    front = indices_from s.free (s.hold - s.free)

consume-IsSpan : (s : Span) (count : ℕ) → IsSpan s → count ≤ first_part s → IsSpan (consume s count)
unfolding consume
consume-IsSpan s count v h = ground arith

-- Consuming as much of a span as one slice may take, or less, removes the oldest indices in use
-- and no other, and leaves a span.
pub consume-drop :
    (s : Span) (count : ℕ)
    → IsSpan s
    → count ≤ first_part s
    → (indices (consume s count) ≡ drop count (indices s)) × IsSpan (consume s count)
consume-drop s count v h = elim (Bool-cases (leb s.free s.next)) [
  | inl le ↦
      (consume-straight s count v (leb→le _ _ le) (ground (arith, le)), consume-IsSpan s count v h)
  | inr gt ↦ (
    consume-wrapped s count (leb→lt _ _ gt) (ground (arith, leb→lt _ _ gt)) (ground (arith, gt)),
    consume-IsSpan s count v h,
  )
]
