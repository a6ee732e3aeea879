-- ===== src/WaylandTokio/Span/Produce.antt =====
-- `produce` adds new indices behind the others.
use ecs_compositor.Prelude.{
  ℕ, ◌+◌, ◌-◌, ◌≤◌, ◌<◌, ◌≡◌, sym, ap, ap₂, ◌∙◌, ◌⊎◌, inl, inr, List, ◌++◌, append_assoc, arith,
  leb, ◌==◌, Bool, Bool-cases, leb→le, if◌then◌else◌, true, false,
}
use ecs_compositor.WaylandTokio.Span.{Span, produce}
use ecs_compositor.WaylandTokio.Span.Queue.{
  indices_from, indices, IsSpan, span, indices-append, indices-straight, indices-wrapped,
}

-- The indices that `produce` puts in use: on to the threshold, and then from 0.
abbrev pub passes : Span → ℕ → Bool
passes s count = if s.hold == 0 then false else leb s.hold (s.next + count)

abbrev pub new_indices : Span → ℕ → List ℕ
new_indices s count =
    if passes s count
    then indices_from s.next (s.hold - s.next) ++ indices_from 0 (s.next + count - s.hold)
    else indices_from s.next count

-- There is room for `count` more: fewer than all up to the threshold would be in use.
abbrev pub HasRoom : Span → ℕ → Type 0
HasRoom s count =
    (s.hold ≡ 0)
    ⊎ (if leb s.free s.next then s.next + count < s.hold + s.free else s.next + count < s.free)

produce_on :
    (s : Span) (count : ℕ)
    → passes s count ≡ false
    → produce s count ≡ span s.free (s.next + count) s.hold
unfolding produce
produce_on s count h = ground arith

produce_past :
    (s : Span) (count : ℕ)
    → passes s count ≡ true
    → produce s count ≡ span s.free (s.next + count - s.hold) s.hold
unfolding produce
produce_past s count h = ground arith

produce-IsSpan : (s : Span) (count : ℕ) → IsSpan s → HasRoom s count → IsSpan (produce s count)
unfolding produce
produce-IsSpan s count v r = ground arith

produce-straight :
    (s : Span) (count : ℕ)
    → s.free ≤ s.next
    → passes s count ≡ false
    → indices (produce s count) ≡ indices s ++ indices_from s.next count
produce-straight s count le h =
    ap indices (produce_on s count h)
    ∙ indices-straight s.free (s.next + count) s.hold (omega arith)
    ∙ ap (indices_from s.free) {x = s.next + count - s.free} {y = s.next - s.free + count}
        (omega arith)
    ∙ indices-append s.free (s.next - s.free) count
    ∙ ap₂ (λ l c. l ++ indices_from c count) (sym (indices-straight s.free s.next s.hold le))
        (omega arith)

produce-wrapped :
    (s : Span) (count : ℕ)
    → s.next + count < s.free
    → passes s count ≡ false
    → indices (produce s count) ≡ indices s ++ indices_from s.next count
produce-wrapped s count lt h =
    ap indices (produce_on s count h)
    ∙ indices-wrapped s.free (s.next + count) s.hold lt
    ∙ ap (λ l. indices_from s.free (s.hold - s.free) ++ l) (indices-append 0 s.next count)
    ∙ sym (
        append_assoc (indices_from s.free (s.hold - s.free)) (indices_from 0 s.next)
          (indices_from (0 + s.next) count))
    ∙ ap₂ (λ l c. l ++ indices_from c count)
        (sym (indices-wrapped s.free s.next s.hold (omega arith))) (omega arith)

produce-around :
    (s : Span) (count : ℕ)
    → s.free ≤ s.next
    → s.next ≤ s.hold
    → s.next + count - s.hold < s.free
    → passes s count ≡ true
    → indices (produce s count)
      ≡ indices s
        ++ (indices_from s.next (s.hold - s.next) ++ indices_from 0 (s.next + count - s.hold))
produce-around s count le top lt h =
    ap indices (produce_past s count h)
    ∙ indices-wrapped s.free (s.next + count - s.hold) s.hold lt
    ∙ ap (λ l. l ++ rest)
        (ap (indices_from s.free) {x = s.hold - s.free} {y = s.next - s.free + (s.hold - s.next)}
            (omega arith)
          ∙ indices-append s.free (s.next - s.free) (s.hold - s.next)
          ∙ ap₂ (λ l c. l ++ indices_from c (s.hold - s.next))
              (sym (indices-straight s.free s.next s.hold le)) (omega arith))
    ∙ append_assoc (indices s) (indices_from s.next (s.hold - s.next)) rest
  where
    rest : List ℕ
    rest = indices_from 0 (s.next + count - s.hold)

-- Producing where a span has room (and is not filled up wholly) puts the new indices in use behind
-- the others, in order, and leaves a span.
pub produce-append :
    (s : Span) (count : ℕ)
    → IsSpan s
    → HasRoom s count
    → (indices (produce s count) ≡ indices s ++ new_indices s count) × IsSpan (produce s count)
produce-append s count v r = (appended, produce-IsSpan s count v r)
  where
    appended : indices (produce s count) ≡ indices s ++ new_indices s count
    appended = elim (Bool-cases (passes s count)) [
      | inl past ↦
          produce-around s count (ground (arith, past)) (ground (arith, past))
            (ground (arith, past)) past
          ∙ ap (λ l. indices s ++ l) (sym (rw past))
      | inr on ↦ elim (Bool-cases (leb s.free s.next)) [
        | inl le ↦
            produce-straight s count (leb→le _ _ le) on ∙ ap (λ l. indices s ++ l) (sym (rw on))
        | inr gt ↦
            produce-wrapped s count (ground (arith, gt)) on ∙ ap (λ l. indices s ++ l) (sym (rw on))
      ]
    ]
