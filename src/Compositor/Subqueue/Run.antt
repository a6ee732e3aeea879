-- ===== src/Compositor/Subqueue/Run.antt =====
-- The loop of `allocate`.
use ecs_compositor.Prelude.{
  ℕ, zero, suc, ◌+◌, ◌≤◌, ◌<◌, ◌≡◌, ◌⊎◌, inl, inr, arith, none, some, ◌==◌, if◌then◌else◌, true,
  false, Bool-cases, Option-cases, List, [], ◌∷◌, ne→==,
}
use ecs_compositor.Compositor.Subqueue.{
  Step, step, fit, enough_space, Attempt, Outcome, allocated, no_space, looping, succeeds, allocate,
}

-- The values that a run decides by: the ones that are loaded first, and those behind each failure.
abbrev pub DecidedBy : ℕ → ℕ → ℕ → ℕ → List Attempt → Outcome → Type 0
DecidedBy capacity len write_next write_until seen looping = Unit
DecidedBy capacity len write_next write_until [] no_space =
    enough_space capacity len write_next write_until ≡ none
DecidedBy capacity len write_next write_until (a ∷ later) no_space =
    (enough_space capacity len write_next write_until ≡ none)
    ⊎ DecidedBy capacity len a.write_next a.write_until later no_space
DecidedBy capacity len write_next write_until [] (allocated index new) = ⊥
DecidedBy capacity len write_next write_until (a ∷ later) (allocated index new) =
    ((enough_space capacity len write_next write_until ≡ some (step index new))
      × (a.write_next ≡ index))
    ⊎ DecidedBy capacity len a.write_next a.write_until later (allocated index new)

-- An attempt that fails passes the rest of the run on.
decided_later :
    (capacity len write_next write_until : ℕ) (a : Attempt) (later : List Attempt) (o : Outcome)
    → DecidedBy capacity len a.write_next a.write_until later o
    → DecidedBy capacity len write_next write_until (a ∷ later) o
decided_later capacity len write_next write_until a later looping d = tt
decided_later capacity len write_next write_until a later no_space d = inr d
decided_later capacity len write_next write_until a later (allocated index new) d = inr d

-- Whatever other threads do: a part that is allocated was planned by values of both ends that were
-- loaded, and the exchange met the index of the part in `write_next`; and space is refused only by
-- a round that planned with loaded values and found none.
pub allocate-DecidedBy :
    (capacity len write_next write_until : ℕ) (seen : List Attempt)
    → DecidedBy capacity len write_next write_until seen
        (allocate capacity len write_next write_until seen)
unfolding allocate
allocate-DecidedBy capacity len write_next write_until [] =
    elim (Option-cases (enough_space capacity len write_next write_until)) [
      | inl (s, e) ↦ rw (e, allocate) tt
      | inr e ↦ rw (e, allocate) e
    ]
allocate-DecidedBy capacity len write_next write_until (a ∷ later) =
    elim (Option-cases (enough_space capacity len write_next write_until)) [
      | inr e ↦ rw (e, allocate) (inl e)
      | inl (s, e) ↦ elim (Bool-cases (succeeds s a)) [
        | inl won ↦ rw (e, won, allocate) (inl (e, met s a won))
        | inr lost ↦
            rw (e, lost, allocate)
              (decided_later capacity len write_next write_until a later
                (allocate capacity len a.write_next a.write_until later)
                (allocate-DecidedBy capacity len a.write_next a.write_until later))
      ]
    ]
  where
    met : (s : Step) (a : Attempt) → succeeds s a ≡ true → a.write_next ≡ s.expected
    met s a h = ground (arith, h)

-- A queue that no other thread changes, for a number of exchanges.
abbrev pub quiet : ℕ → ℕ → ℕ → List Attempt
quiet zero write_next write_until = []
quiet (suc n) write_next write_until =
    record { write_next = write_next; spurious = false; write_until = write_until }
    ∷ quiet n write_next write_until

-- A round that wraps around expects 0.
wraps :
    (capacity len write_next write_until : ℕ)
    → write_until ≤ write_next
    → write_next < capacity
    → capacity ≤ write_next + len
    → len ≤ write_until
    → enough_space capacity len write_next write_until
      ≡ some (step 0 (if write_until == len then capacity else len))
unfolding enough_space fit
wraps capacity len write_next write_until p q s t = ground arith

-- A part that would stand at the start of the queue, since the rest behind `write_next` is too
-- short, is never allocated while no other thread changes the queue: the exchange expects 0 in
-- `write_next`, where the old end is.
pub allocate_wrap_stuck :
    (n capacity len write_next write_until : ℕ)
    → write_until ≤ write_next
    → write_next < capacity
    → 0 < write_next
    → capacity ≤ write_next + len
    → len ≤ write_until
    → allocate capacity len write_next write_until (quiet n write_next write_until) ≡ looping
unfolding allocate
allocate_wrap_stuck zero capacity len write_next write_until p q r s t =
    rw (wraps capacity len write_next write_until p q s t, allocate)
allocate_wrap_stuck (suc n) capacity len write_next write_until p q r s t =
    rw
      (
        wraps capacity len write_next write_until p q s t,
        ne→== write_next 0 (omega arith),
        allocate,
      )
      (allocate_wrap_stuck n capacity len write_next write_until p q r s t)
