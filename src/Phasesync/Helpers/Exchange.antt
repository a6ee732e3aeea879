-- ===== src/Phasesync/Helpers/Exchange.antt =====
-- What the loop around `compare_exchange` guarantees, however the other threads interfere.
use ecs_compositor.Prelude.{
  ℕ, ◌≡◌, ◌≢◌, refl, inl, inr, Bool, true, false, some, List, [], ◌∷◌, ◌++◌, eq→==, ◌==◌,
  Bool-cases, ==→ne, ==→eq, ◌⊎◌,
}
use ecs_compositor.Phasesync.Helpers.{Outcome, updated, refused, looping, returned, try_while_mut}

-- The exchanges that fail: the memory changed under each of them, to a value that `cond` accepts.
abbrev pub AllFail : (ℕ → Bool) → ℕ → List ℕ → Type 0
AllFail cond val [] = cond val ≡ true
AllFail cond val (memory ∷ later) = (cond val ≡ true) × (memory ≢ val) × AllFail cond memory later

-- The memory held a value at one of the exchanges.
abbrev pub Held : List ℕ → ℕ → Type 0
Held [] val = ⊥
Held (memory ∷ later) val = (memory ≡ val) ⊎ Held later val

-- What the run says of its end.
abbrev pub EndsWell : (ℕ → Bool) → (ℕ → ℕ) → ℕ → List ℕ → Outcome → Type 0
EndsWell cond f val seen (updated old new) = (cond old ≡ true) × (new ≡ f old) × Held seen old
EndsWell cond f val seen (refused last) = cond last ≡ false
EndsWell cond f val seen (looping last) = AllFail cond val seen

-- Whatever the memory holds at each exchange, `try_while_mut` ends with an update of a value that
-- `cond` accepts and that the memory held, to its image, or with a value that `cond` rejects; it
-- is still looping only if `cond` accepted each value it saw and the memory had changed before
-- each exchange.
pub try_while_mut-EndsWell :
    (cond : ℕ → Bool) (f : ℕ → ℕ) (val : ℕ) (seen : List ℕ)
    → EndsWell cond f val seen (try_while_mut cond f val seen)
unfolding try_while_mut
try_while_mut-EndsWell cond f val [] = elim (Bool-cases (cond val)) [
  | inl accepted ↦ rw accepted accepted
  | inr rejected ↦ rw rejected rejected
]
try_while_mut-EndsWell cond f val (memory ∷ later) = elim (Bool-cases (cond val)) [
  | inr rejected ↦ rw rejected rejected
  | inl accepted ↦ elim (Bool-cases (memory == val)) [
    | inl same ↦ rw (accepted, same) (accepted, refl, inl (==→eq memory val same))
    | inr changed ↦
        rw (accepted, changed)
          (longer cond f val memory later accepted (==→ne memory val changed)
            (try_while_mut cond f memory later) (try_while_mut-EndsWell cond f memory later))
  ]
]
  where
    longer :
        (cond : ℕ → Bool) (f : ℕ → ℕ) (val memory : ℕ) (later : List ℕ)
        → cond val ≡ true
        → memory ≢ val
        → (o : Outcome) → EndsWell cond f memory later o
        → EndsWell cond f val (memory ∷ later) o
    longer cond f val memory later accepted ne (updated old new) (c, n, h) = (c, n, inr h)
    longer cond f val memory later accepted ne (refused last) e = e
    longer cond f val memory later accepted ne (looping last) e = (accepted, ne, e)

-- `try_while_mut` returns once the memory is left alone for two exchanges in a row, whatever the
-- other threads did before.
pub try_while_mut_quiet :
    (cond : ℕ → Bool) (f : ℕ → ℕ) (val memory : ℕ) (before later : List ℕ)
    → (b : Bool) × (returned (try_while_mut cond f val (before ++ (memory ∷ memory ∷ later)))
        ≡ some b)
unfolding try_while_mut
try_while_mut_quiet cond f val memory [] later = elim (Bool-cases (cond val)) [
  | inr rejected ↦ (false, rw rejected)
  | inl accepted ↦ elim (Bool-cases (memory == val)) [
    | inl same ↦ (true, rw (accepted, same))
    | inr changed ↦ elim (Bool-cases (cond memory)) [
      | inl again ↦ (true, rw (accepted, changed, again, eq→== memory memory refl))
      | inr rejected ↦ (false, rw (accepted, changed, rejected))
    ]
  ]
]
try_while_mut_quiet cond f val memory (b ∷ before) later = elim (Bool-cases (cond val)) [
  | inr rejected ↦ (false, rw rejected)
  | inl accepted ↦ elim (Bool-cases (b == val)) [
    | inl same ↦ (true, rw (accepted, same))
    | inr changed ↦ rw (accepted, changed) (try_while_mut_quiet cond f b memory before later)
  ]
]
