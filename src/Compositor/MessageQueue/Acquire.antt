-- ===== src/Compositor/MessageQueue/Acquire.antt =====
-- How the loop at the head of `allocate_message` ends.
use ecs_compositor.Prelude.{
  ℕ, ◌≡◌, ◌≢◌, ◌⊎◌, inl, inr, arith, List, [], ◌∷◌, ◌==◌, not, ◌&&◌, Bool-cases, ==→ne,
}
use ecs_compositor.Compositor.MessageQueue.{processing, Seen, Lock, locked, full, spinning, lock}

-- An exchange met the value.
abbrev pub Met : List Seen → ℕ → Type 0
Met [] i = ⊥
Met (s ∷ seen) i = (s.value ≡ i) ⊎ Met seen i

abbrev pub GoodLock : ℕ → List Seen → Lock → Type 0
GoodLock capacity seen (locked i) = (i ≢ processing) × (i ≢ capacity) × Met seen i
GoodLock capacity seen full = Unit
GoodLock capacity seen spinning = Unit

good_later :
    (capacity : ℕ) (s : Seen) (later : List Seen) (l : Lock)
    → GoodLock capacity later l
    → GoodLock capacity (s ∷ later) l
good_later capacity s later (locked i) (p, q, m) = (p, q, inr m)
good_later capacity s later full g = tt
good_later capacity s later spinning g = tt

pub lock-GoodLock :
    (capacity write_next : ℕ) (seen : List Seen)
    → GoodLock capacity seen (lock capacity write_next seen)
unfolding lock
lock-GoodLock capacity write_next [] = elim (Bool-cases (write_next == processing)) [
  | inl held ↦ rw held tt
  | inr unheld ↦ elim (Bool-cases (write_next == capacity)) [
    | inl top ↦ rw (unheld, top) tt
    | inr below ↦ rw (unheld, below) tt
  ]
]
lock-GoodLock capacity write_next (s ∷ later) = elim (Bool-cases (write_next == processing)) [
  | inl held ↦ rw held (good_later capacity s later _ (lock-GoodLock capacity s.value later))
  | inr unheld ↦ elim (Bool-cases (write_next == capacity)) [
    | inl top ↦ rw (unheld, top) tt
    | inr below ↦ elim (Bool-cases (not s.spurious && (s.value == write_next))) [
      | inl won ↦
          rw (unheld, below, won) (==→ne _ _ unheld, ==→ne _ _ below, inl (ground (arith, won)))
      | inr lost ↦
          rw (unheld, below, lost)
            (good_later capacity s later _ (lock-GoodLock capacity s.value later))
    ]
  ]
]
