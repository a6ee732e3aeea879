-- ===== src/Compositor/Subqueue.antt =====
-- crates/compositor/src/socket/buffer.rs: `Subqueue::allocate`. The memory of the queue is left
-- out; a handle is the index and the length of its part.
pub mod Plan
pub mod Run
use ecs_compositor.Prelude.{
  ℕ, ◌+◌, ◌-◌, List, [], ◌∷◌, Bool, true, false, Option, none, some, ltb, leb, ◌==◌, if◌then◌else◌,
  not, ◌&&◌,
}

-- What a round has decided before its exchange: the value that it expects in `write_next`, and the
-- one that it would put there.
pub record Step : Type 0 where
  pub expected : ℕ
  pub new_write_next : ℕ

abbrev pub step : ℕ → ℕ → Step
step a b = record { expected = a; new_write_next = b }

-- The `match` on `available_space.cmp(&len)`.
unfoldable pub fit : ℕ → ℕ → ℕ → ℕ → Option Step
fit capacity len write_next write_until =
    let available_space = write_until - write_next in
    if ltb available_space len
    then none
    else if available_space == len
    then some (step write_next capacity)
    else some (step write_next (write_next + len))

-- The block `'enough_space`.
unfoldable pub enough_space : ℕ → ℕ → ℕ → ℕ → Option Step
enough_space capacity len write_next write_until =
    if leb write_until write_next
    then (if ltb len (capacity - write_next)
        then some (step write_next (write_next + len))
        else if write_next == capacity
        then none
        else fit capacity len 0 write_until)
    else fit capacity len write_next write_until

-- What an exchange meets: the value of `write_next`, whether a weak exchange fails without a reason,
-- and the value of `write_until` that is loaded behind a failure.
pub record Attempt : Type 0 where
  pub write_next : ℕ
  pub spurious : Bool
  pub write_until : ℕ

pub data Outcome : Type 0 where
  allocated : (index new_write_next : ℕ) → Outcome
  no_space : Outcome
  looping : Outcome

abbrev pub succeeds : Step → Attempt → Bool
succeeds s a = not a.spurious && (a.write_next == s.expected)

-- `allocate`, from the loaded values on.
unfoldable pub allocate : ℕ → ℕ → ℕ → ℕ → List Attempt → Outcome
allocate capacity len write_next write_until [] =
    elim (enough_space capacity len write_next write_until) [ none ↦ no_space | some s ↦ looping ]
allocate capacity len write_next write_until (a ∷ later) =
    elim (enough_space capacity len write_next write_until) [
      | none ↦ no_space
      | some s ↦
          let again = allocate capacity len a.write_next a.write_until later in
          if succeeds s a then allocated s.expected s.new_write_next else again
    ]
