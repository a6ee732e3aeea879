-- ===== src/Phasesync/Helpers/Search.antt =====
-- Which bit `lowest_one` finds.
use ecs_compositor.Prelude.{
  ℕ, zero, suc, ◌/◌, ◌^◌, ◌≤◌, ◌<◌, ◌≡◌, refl, ap, arith, ◌⊎◌, inl, inr, none, some,
}
use native.Mathlib.Nat.{pow-suc}
use ecs_compositor.Phasesync.Helpers.{bit_length, lowest_one}

bit_length_zero : (w : ℕ) → bit_length w 0 ≡ 0
unfolding bit_length
bit_length_zero zero = refl
bit_length_zero (suc w) = refl

-- The digits of a number are as many as its bound says.
bit_length_lem :
    (w x : ℕ)
    → 0 < x
    → x < 2 ^ w
    → (k : ℕ) × (bit_length w x ≡ suc k) × (k < w) × (2 ^ k ≤ x) × (x < 2 ^ suc k)
unfolding bit_length
bit_length_lem zero x p q = absurd (omega arith)
bit_length_lem (suc w) zero p q = absurd (omega arith)
bit_length_lem (suc w) (suc zero) p q =
    (0, ap suc (bit_length_zero w), omega arith, omega arith, omega arith)
bit_length_lem (suc w) (suc (suc x)) p q =
    let (k, e, lt, lo, hi) =
      bit_length_lem w (suc (suc x) / 2) (omega arith) (omega (arith, pow-suc 2 w)) in
    (
      suc k,
      ground arith,
      omega arith,
      omega (arith, pow-suc 2 k),
      omega (arith, pow-suc 2 k, pow-suc 2 (suc k)),
    )

-- For a `u64`, `lowest_one` finds no bit exactly in 0; otherwise it finds the highest bit that is
-- one.
pub lowest_one_lem :
    (val : ℕ)
    → val < 2 ^ 64
    → ((val ≡ 0) × (lowest_one val ≡ none))
      ⊎ ((k : ℕ) × (lowest_one val ≡ some k) × (k ≤ 63) × (2 ^ k ≤ val) × (val < 2 ^ suc k))
unfolding lowest_one
lowest_one_lem zero h = inl (refl, refl)
lowest_one_lem (suc n) h =
    let (k, e, lt, lo, hi) = bit_length_lem 64 (suc n) (omega arith) h in
    inr (k, ground arith, omega arith, lo, hi)
