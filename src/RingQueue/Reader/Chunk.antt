-- ===== src/RingQueue/Reader/Chunk.antt =====
-- What `handle_chunk` leaves in a chunk, and the loop around its exchange.
use ecs_compositor.Prelude.{
  ℕ, ◌-◌, ◌≤◌, ◌^◌, ◌≡◌, ◌≢◌, refl, ap, ◌∙◌, ◌⊎◌, inl, inr, arith, Bool, true, false, List, [], ◌∷◌,
  ◌==◌, max, none, some, Bool-cases, Option-cases, ==→ne, ==→eq, bit_and, ◌&&◌,
}
use ecs_compositor.Prelude.Digits.{bit_at, bit_at-or}
use ecs_compositor.Phasesync.Helpers.{u64_max, Outcome, updated, refused, looping}
use ecs_compositor.Phasesync.Helpers.Mask.{bit_of}
use ecs_compositor.Phasesync.Helpers.Exchange.{Held}
use ecs_compositor.RingQueue.Reader.{
  Bound, excluded, bit_mask_range, find_first_one, loop_until_success, select, fill, handle_chunk,
}
use ecs_compositor.RingQueue.Reader.Bounds.{behind, in_front, bit_mask_range-bit}

-- The exchanges that fail: the memory changed under each of them, to a value that goes on.
abbrev pub AllFail : (ℕ → Bool) → ℕ → List ℕ → Type 0
AllFail go_on val [] = Unit
AllFail go_on val (memory ∷ later) =
    (memory ≢ val) × (go_on memory ≡ true) × AllFail go_on memory later

abbrev pub EndsWell : (ℕ → ℕ) → (ℕ → Bool) → ℕ → List ℕ → Outcome → Type 0
EndsWell f go_on val seen (updated old new) = (new ≡ f old) × Held seen old
EndsWell f go_on val seen (refused last) = go_on last ≡ false
EndsWell f go_on val seen (looping last) = AllFail go_on val seen

-- Whatever the memory holds at each exchange, `loop_until_success` ends with an update of a value
-- that the memory held, to its image, or with a value for which it should not go on; it still
-- loops only if each exchange met a changed memory with a value for which it should go on.
pub loop_until_success-EndsWell :
    (f : ℕ → ℕ) (go_on : ℕ → Bool) (val : ℕ) (seen : List ℕ)
    → EndsWell f go_on val seen (loop_until_success f go_on val seen)
unfolding loop_until_success
loop_until_success-EndsWell f go_on val [] = tt
loop_until_success-EndsWell f go_on val (memory ∷ later) = elim (Bool-cases (memory == val)) [
  | inl same ↦ rw same (refl, inl (==→eq memory val same))
  | inr changed ↦ elim (Bool-cases (go_on memory)) [
    | inr stop ↦ rw (changed, stop) stop
    | inl on ↦
        rw (changed, on)
          (longer f go_on val memory later (==→ne memory val changed) on
            (loop_until_success f go_on memory later)
            (loop_until_success-EndsWell f go_on memory later))
  ]
]
  where
    longer :
        (f : ℕ → ℕ) (go_on : ℕ → Bool) (val memory : ℕ) (later : List ℕ)
        → memory ≢ val
        → go_on memory ≡ true
        → (o : Outcome) → EndsWell f go_on memory later o
        → EndsWell f go_on val (memory ∷ later) o
    longer f go_on val memory later ne on (updated old new) (n, h) = (n, inr h)
    longer f go_on val memory later ne on (refused last) e = e
    longer f go_on val memory later ne on (looping last) e = (ne, on, e)

-- The two ends of `handle_chunk`.
handle_chunk_found :
    (start end : Bound) (val first : ℕ)
    → find_first_one (bit_and val (bit_mask_range start end)) ≡ some first
    → handle_chunk start end val ≡ (true, select start first val)
unfolding handle_chunk
handle_chunk_found start end val first found = rw (found, handle_chunk)

handle_chunk_empty :
    (start end : Bound) (val : ℕ)
    → find_first_one (bit_and val (bit_mask_range start end)) ≡ none
    → handle_chunk start end val ≡ (false, fill start end val)
unfolding handle_chunk
handle_chunk_empty start end val nothing = rw (nothing, handle_chunk)

-- In a chunk that no other thread changes, `handle_chunk` clears no bit, the bit that it has found
-- included; where it returns `false`, the ones are those before and those of the range.
pub handle_chunk_lem :
    (start end : Bound) (val i : ℕ)
    → i ≤ 63
    → let (found, after) = handle_chunk start end val in
      (bit_at i val ≤ bit_at i after)
      × ((found ≡ true)
          ⊎ (bit_at i after ≡ max (bit_at i val) (bit_of (behind start i && in_front end i))))
handle_chunk_lem start end val i h =
    elim (Option-cases (find_first_one (bit_and val (bit_mask_range start end)))) [
      | inl (first, found) ↦ rw (handle_chunk_found start end val first found) (
        omega (
          arith,
          bit_at-or i val (bit_and (bit_mask_range start (excluded first)) (u64_max - 2 ^ first)),
        ),
        inl refl,
      )
      | inr nothing ↦ rw (handle_chunk_empty start end val nothing) (
        omega (arith, bit_at-or i val (bit_mask_range start end)),
        inr (
            bit_at-or i val (bit_mask_range start end)
            ∙ ap (max (bit_at i val)) (bit_mask_range-bit start end i h)),
      )
    ]
