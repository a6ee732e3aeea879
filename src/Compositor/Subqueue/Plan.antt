-- ===== src/Compositor/Subqueue/Plan.antt =====
-- Where a round of `allocate` would put the new part.
use ecs_compositor.Prelude.{
  ℕ, ◌+◌, ◌-◌, ◌≤◌, ◌<◌, ◌≡◌, ◌⊎◌, inl, inr, arith, Option, none, some, ltb, leb, ◌==◌,
  if◌then◌else◌, refl, Bool-cases, leb→le, leb→lt,
}
use ecs_compositor.Compositor.Subqueue.{Step, fit, enough_space}

-- The places of a queue that are free: those from `write_next` on, in the ring up to `write_until`.
abbrev pub IsFree : ℕ → ℕ → ℕ → ℕ → Type 0
IsFree capacity write_next write_until place =
    if leb write_until write_next
    then ((write_next ≤ place) × (place < capacity)) ⊎ (place < write_until)
    else (write_next ≤ place) × (place < write_until)

abbrev pub IsQueue : ℕ → ℕ → ℕ → Type 0
IsQueue capacity write_next write_until =
    (write_next ≤ capacity) × (write_until ≤ capacity) × (0 < capacity)

-- A part that is planned lies in the free places, and the end that is planned is the end of the
-- part, or the mark of a full queue where the part takes all up to `write_until`.
abbrev pub GoodPlan : ℕ → ℕ → ℕ → ℕ → Option Step → Type 0
GoodPlan capacity len write_next write_until none = Unit
GoodPlan capacity len write_next write_until (some s) =
    ((place : ℕ)
      → s.expected ≤ place
      → place < s.expected + len
      → IsFree capacity write_next write_until place)
    × (s.expected + len ≤ capacity)
    × ((s.new_write_next ≡ s.expected + len)
        ⊎ ((s.new_write_next ≡ capacity) × (s.expected + len ≡ write_until)))

fit-GoodPlan :
    (capacity len write_next write_until start : ℕ)
    → IsQueue capacity write_next write_until
    → (start ≡ write_next × (write_next < write_until)) ⊎ ((start ≡ 0) × (write_until ≤ write_next))
    → GoodPlan capacity len write_next write_until (fit capacity len start write_until)
unfolding fit
fit-GoodPlan capacity len write_next write_until start v h = ground arith

-- In a queue whose ends are within its capacity, whatever part a round plans lies in the free
-- places and within the capacity, and the new end is the end of the part, or marks the queue as
-- full where the part ends at `write_until`.
pub enough_space-GoodPlan :
    (capacity len write_next write_until : ℕ)
    → IsQueue capacity write_next write_until
    → GoodPlan capacity len write_next write_until
        (enough_space capacity len write_next write_until)
unfolding enough_space
enough_space-GoodPlan capacity len write_next write_until v =
    elim (Bool-cases (leb write_until write_next)) [
      | inr behind ↦ rw behind (
          fit-GoodPlan capacity len write_next write_until write_next v
            (inl (refl, leb→lt _ _ behind)))
      | inl ahead ↦ elim (Bool-cases (ltb len (capacity - write_next))) [
        | inl tail ↦
            rw (ahead, tail)
              ((λ place p q. ground (arith, ahead, tail, p, q)), ground (arith, tail), inl refl)
        | inr no_tail ↦ elim (Bool-cases (write_next == capacity)) [
          | inl full ↦ rw (ahead, no_tail, full) tt
          | inr wrap ↦
              rw (ahead, no_tail, wrap)
                (fit-GoodPlan capacity len write_next write_until 0 v
                  (inr (refl, leb→le _ _ ahead)))
        ]
      ]
    ]
