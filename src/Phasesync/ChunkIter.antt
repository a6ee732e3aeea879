-- ===== src/Phasesync/ChunkIter.antt =====
-- crates/phasesync/src/chunk_iter.rs: the iterator over the parts of the chunks between two
-- positions. A `State::None` is the constructor `finished`.
pub mod Items
use ecs_compositor.Prelude.{
  ℕ, zero, suc, ◌+◌, List, [], ◌∷◌, Option, none, some, ◌==◌, if◌then◌else◌,
}
use ecs_compositor.Phasesync.Position.{Pos, new_usize, u6, usize}
use ecs_compositor.Phasesync.Helpers.{bitmask_range}

pub data State : Type 0 where
  start : State
  middle : (next_chunk : ℕ) → State
  end : State
  finished : State

pub record ChunkIter : Type 0 where
  pub state : State
  pub start : Pos
  pub end : Pos

pub record ChunkInfo : Type 0 where
  pub chunk : ℕ
  pub lower : ℕ
  pub upper : ℕ

-- `ChunkIter::new`.
abbrev pub chunk_iter : Pos → Pos → ChunkIter
chunk_iter p q = record { state = State.start; start = p; end = q }

-- `ChunkInfo::mask`.
unfoldable pub mask : ChunkInfo → Option ℕ
mask info = bitmask_range info.lower info.upper

module _ (largest : ℕ) where
  -- `wrapping_add`.
  unfoldable pub wrapping_add : ℕ → ℕ → ℕ
  wrapping_add lhs rhs = (usize largest).add (new_usize largest lhs) (new_usize largest rhs)

  -- The `match` on whether the next chunk is the last one.
  unfoldable pub state_after : ChunkIter → ℕ → State
  state_after it next_chunk =
      if next_chunk == it.end.chunk then State.middle next_chunk else State.end

  -- `next`.
  unfoldable pub next : ChunkIter → Option ChunkInfo × ChunkIter
  next it = elim (it.state) [
    | State.start ↦
        if it.start.chunk == it.end.chunk
        then (
          some (record { chunk = it.start.chunk; lower = it.start.index; upper = it.end.index }),
          record it { state = State.finished },
        )
        else (
          some (record { chunk = it.start.chunk; lower = it.start.index; upper = u6.largest }),
          record it { state = state_after it (wrapping_add it.start.chunk 1) },
        )
    | State.middle chunk ↦ (
      some (record { chunk = new_usize largest chunk; lower = 0; upper = u6.largest }),
      record it { state = state_after it (wrapping_add chunk 1) },
    )
    | State.end ↦ (
      some (record { chunk = it.end.chunk; lower = 0; upper = it.end.index }),
      record it { state = State.finished },
    )
    | State.finished ↦ (none, it)
  ]

  -- The items of the first `count` calls of `next`, up to the first `None`.
  unfoldable pub items : ℕ → ChunkIter → List ChunkInfo
  items zero it = []
  items (suc count) it =
      let rest = items count (next it).1 in
      elim ((next it).0) [ none ↦ [] | some info ↦ info ∷ rest ]
