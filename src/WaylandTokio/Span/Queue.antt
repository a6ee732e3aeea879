-- ===== src/WaylandTokio/Span/Queue.antt =====
-- A span as a queue of indices: what is produced is consumed in the same order.
use ecs_compositor.Prelude.{
  ℕ, zero, suc, ◌+◌, ◌-◌, ◌≤◌, ◌<◌, ◌≡◌, refl, ap, ap₂, ◌∙◌, ◌⊎◌, inl, inr, List, [], ◌∷◌, ◌++◌,
  arith, length, drop, ◌==◌, Bool-cases, le→leb, lt→leb, ==→eq,
}
use ecs_compositor.WaylandTokio.Span.{Span, Range, Bufs, no_buf, one, two, free_space, get_ranges}

-- `count` indices from `start` on.
abbrev pub indices_from : ℕ → ℕ → List ℕ
indices_from start zero = []
indices_from start (suc count) = start ∷ indices_from (start + 1) count

abbrev pub indices_in : Range → List ℕ
indices_in r = indices_from r.start (r.end - r.start)

abbrev pub indices_of : Bufs → List ℕ
indices_of no_buf = []
indices_of (one r) = indices_in r
indices_of (two r q) = indices_in r ++ indices_in q

-- The indices in use, the oldest first.
abbrev pub indices : Span → List ℕ
indices s = indices_of (get_ranges s)

-- Without a threshold the indices are those from `free` to `next`; with one, no index is above it,
-- and `free` does not stand on it.
abbrev pub IsSpan : Span → Type 0
IsSpan s = (s.free ≤ s.next × s.hold ≡ 0) ⊎ ((s.next < s.hold) × (s.free < s.hold))

pub indices-append :
    (start m n : ℕ)
    → indices_from start (m + n) ≡ indices_from start m ++ indices_from (start + m) n
indices-append start zero n = ap₂ indices_from (omega arith) (omega arith)
indices-append start (suc m) n =
    ap (λ c. indices_from start c) {x = suc m + n} {y = suc (m + n)} (omega arith)
    ∙ ap (λ l. start ∷ l)
        (indices-append (start + 1) m n
          ∙ ap (λ c. indices_from (start + 1) m ++ indices_from c n) {x = start + 1 + m}
              {y = start + suc m} (omega arith))

pub drop-indices :
    (start m n : ℕ) → m ≤ n → drop m (indices_from start n) ≡ indices_from (start + m) (n - m)
drop-indices start zero n h = ap₂ indices_from (omega arith) (omega arith)
drop-indices start (suc m) zero h = absurd (omega arith)
drop-indices start (suc m) (suc n) h =
    drop-indices (start + 1) m n (omega arith) ∙ ap₂ indices_from (omega arith) (omega arith)

pub length-indices : (start n : ℕ) → length (indices_from start n) ≡ n
length-indices start zero = refl
length-indices start (suc n) = ap suc (length-indices (start + 1) n)

no_indices : (start n : ℕ) → n ≡ 0 → [] ≡ indices_from start n
no_indices start zero h = refl
no_indices start (suc n) h = absurd (omega arith)

-- The two shapes of a span.
pub indices-straight :
    (free next hold : ℕ)
    → free ≤ next
    → indices (record { free = free; next = next; hold = hold }) ≡ indices_from free (next - free)
unfolding free_space
indices-straight free next hold h = elim (Bool-cases (free == next)) [
  | inl e ↦
      rw (le→leb free next h, e) (no_indices free (next - free) (omega (arith, ==→eq free next e)))
  | inr e ↦ rw (le→leb free next h, e)
]

pub indices-wrapped :
    (free next hold : ℕ)
    → next < free
    → indices (record { free = free; next = next; hold = hold })
      ≡ indices_from free (hold - free) ++ indices_from 0 next
unfolding free_space
indices-wrapped free next hold h = rw (lt→leb free next h) (
    ap (λ c. indices_from free (hold - free) ++ indices_from 0 c) {x = next - 0} {y = next}
      (omega arith))

abbrev pub span : ℕ → ℕ → ℕ → Span
span free next hold = record { free = free; next = next; hold = hold }
