-- ===== src/RingQueue/Reader/Wrap.antt =====
-- Addition in a ring.
use ecs_compositor.Prelude.{ℕ, ◌+◌, ◌≤◌, ◌<◌, ◌≡◌, ◌⊎◌, arith}
use ecs_compositor.RingQueue.Reader.{assign_add_wrap, wrapping_add}

-- Up to one whole round, `assign_add_wrap` adds in the ring of `wrap` places.
pub assign_add_wrap_lem :
    (wrap s add : ℕ)
    → s < wrap
    → add ≤ wrap
    → (assign_add_wrap wrap s add < wrap)
      × ((assign_add_wrap wrap s add ≡ s + add) ⊎ (assign_add_wrap wrap s add + wrap ≡ s + add))
unfolding assign_add_wrap
assign_add_wrap_lem wrap s add h k = ground arith

-- `wrapping_add!` adds in the ring from `lower` to `upper`, up to one whole round.
pub wrapping_add_lem :
    (lhs rhs lower upper : ℕ)
    → lower ≤ lhs
    → lhs < upper
    → rhs + lower ≤ upper
    → (lower ≤ wrapping_add lhs rhs lower upper)
      × (wrapping_add lhs rhs lower upper < upper)
      × ((wrapping_add lhs rhs lower upper ≡ lhs + rhs)
          ⊎ (wrapping_add lhs rhs lower upper + upper ≡ lhs + rhs + lower))
unfolding wrapping_add
wrapping_add_lem lhs rhs lower upper p q r = ground arith
