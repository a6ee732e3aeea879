-- ===== src/Phasesync/Helpers/Mask.antt =====
-- The bits of `bitmask_range`.
use ecs_compositor.Prelude.{
  ℕ, zero, suc, ◌+◌, ◌-◌, ◌/◌, ◌^◌, ◌≤◌, ◌<◌, ◌≡◌, ap, ◌∙◌, arith, Bool, true, false, none, some,
  ltb, leb, Bool-cases, ◌⊎◌, inl, inr, if◌then◌else◌, ◌&&◌,
}
use ecs_compositor.Prelude.{leb→le, leb→lt, lt→leb, le→leb}
use native.Mathlib.Nat.{pow-suc, one-le-pow}
use ecs_compositor.Prelude.Digits.{bit_at, bit_at-zero}
use ecs_compositor.Phasesync.Helpers.{mask_between, bitmask_range}

abbrev pub bit_of : Bool → ℕ
bit_of b = if b then 1 else 0

-- Whether `l ≤ i < u`.
abbrev pub between : ℕ → ℕ → ℕ → Bool
between l u i = if leb l i then ltb i u else false

pow_mono : (l u : ℕ) → l ≤ u → 2 ^ l ≤ 2 ^ u
pow_mono zero u h = one-le-pow u 2 (omega arith)
pow_mono (suc l) zero h = absurd (omega arith)
pow_mono (suc l) (suc u) h = omega (arith, pow-suc 2 l, pow-suc 2 u, pow_mono l u (omega arith))

-- A difference of two powers of two has the ones between.
power_bits : (l u i : ℕ) → l ≤ u → bit_at i (2 ^ u - 2 ^ l) ≡ bit_of (between l u i)
power_bits zero zero i h = bit_at-zero i ∙ ground arith
power_bits zero (suc u) zero h = ground (arith, pow-suc 2 u, one-le-pow u 2)
power_bits zero (suc u) (suc i) h =
    ap (bit_at i) halved ∙ power_bits zero u i (omega arith) ∙ ground arith
  where
    halved : (2 ^ suc u - 2 ^ 0) / 2 ≡ 2 ^ u - 2 ^ 0
    halved = omega (arith, pow-suc 2 u, one-le-pow u 2)
power_bits (suc l) zero i h = absurd (omega arith)
power_bits (suc l) (suc u) zero h = ground (arith, pow-suc 2 u, pow-suc 2 l)
power_bits (suc l) (suc u) (suc i) h =
    ap (bit_at i) halved ∙ power_bits l u i (omega arith) ∙ ground arith
  where
    halved : (2 ^ suc u - 2 ^ suc l) / 2 ≡ 2 ^ u - 2 ^ l
    halved = omega (arith, pow-suc 2 u, pow-suc 2 l)

mask_between_empty : (l u : ℕ) → u ≤ l → mask_between l u ≡ 0
unfolding mask_between
mask_between_empty l u h = ground arith

mask_between_lem : (l u : ℕ) → l < u → u ≤ 64 → mask_between l u ≡ 2 ^ u - 2 ^ l
unfolding mask_between
mask_between_lem l u h p = elim (Bool-cases (leb 64 u)) [
  | inl wide ↦
      rw (lt→leb u l h, lt→leb 64 l (omega arith), wide)
        (omega (arith, one-le-pow l 2, pow_mono l 64 (omega arith), full (leb→le 64 u wide)))
  | inr narrow ↦ rw (lt→leb u l h, lt→leb 64 l (omega arith), narrow)
]
  where
    full : 64 ≤ u → 2 ^ u ≡ 2 ^ 64
    full q = ap (λ (t : ℕ). 2 ^ t) {x = u} {y = 64} (omega arith)

mask_between_out : (l u : ℕ) → 64 ≤ l → mask_between l u ≡ 0
unfolding mask_between
mask_between_out l u h = ground arith

mask_between_wide : (l u : ℕ) → l < 64 → 64 ≤ u → mask_between l u ≡ 2 ^ 64 - 2 ^ l
unfolding mask_between
mask_between_wide l u h w =
    rw (lt→leb u l (omega arith), lt→leb 64 l h, le→leb 64 u w)
      (omega (arith, one-le-pow l 2, pow_mono l 64 (omega arith)))

-- The mask from the bit `l` to the bit in front of `u`, for any two numbers.
pub mask_between-bit : (l u i : ℕ) → i ≤ 63 → bit_at i (mask_between l u) ≡ bit_of (between l u i)
mask_between-bit l u i h = elim (Bool-cases (leb u l)) [
  | inl empty ↦
      ap (bit_at i) (mask_between_empty l u (leb→le u l empty))
      ∙ bit_at-zero i
      ∙ ground (arith, leb→le u l empty)
  | inr more ↦ elim (Bool-cases (leb 64 l)) [
    | inl out ↦
        ap (bit_at i) (mask_between_out l u (leb→le 64 l out))
        ∙ bit_at-zero i
        ∙ ground (arith, leb→le 64 l out)
    | inr low ↦ elim (Bool-cases (leb 64 u)) [
      | inl wide ↦
          ap (bit_at i) (mask_between_wide l u (leb→lt 64 l low) (leb→le 64 u wide))
          ∙ power_bits l 64 i (omega (arith, leb→lt 64 l low))
          ∙ ground (arith, leb→le 64 u wide)
      | inr narrow ↦
          ap (bit_at i) (mask_between_lem l u (leb→lt u l more) (omega (arith, leb→lt 64 u narrow)))
          ∙ power_bits l u i (omega (arith, leb→lt u l more))
    ]
  ]
]

pub mask_between-lt : (l u : ℕ) → mask_between l u < 2 ^ 64
mask_between-lt l u = elim (Bool-cases (leb u l)) [
  | inl empty ↦ omega (arith, mask_between_empty l u (leb→le u l empty))
  | inr more ↦ elim (Bool-cases (leb 64 l)) [
    | inl out ↦ omega (arith, mask_between_out l u (leb→le 64 l out))
    | inr low ↦ elim (Bool-cases (leb 64 u)) [
      | inl wide ↦
          omega (arith, mask_between_wide l u (leb→lt 64 l low) (leb→le 64 u wide), one-le-pow l 2)
      | inr narrow ↦ omega (
        arith,
        mask_between_lem l u (leb→lt u l more) (omega (arith, leb→lt 64 u narrow)),
        one-le-pow l 2,
        pow_mono u 64 (omega (arith, leb→lt 64 u narrow)),
      )
    ]
  ]
]

mask_bits :
    (lower upper i : ℕ)
    → upper ≤ 63
    → bit_at i (mask_between lower (upper + 1)) ≡ bit_of (leb lower i && leb i upper)
mask_bits lower upper i p = elim (Bool-cases (leb lower upper)) [
  | inl some_bit ↦
      ap (bit_at i) (mask_between_lem lower (upper + 1) (within some_bit) (omega arith))
      ∙ power_bits lower (upper + 1) i (omega (arith, within some_bit))
      ∙ ground arith
  | inr no_bit ↦
      ap (bit_at i)
        (mask_between_empty lower (upper + 1) (omega (arith, leb→lt lower upper no_bit)))
      ∙ bit_at-zero i
      ∙ ground (arith, leb→lt lower upper no_bit)
]
  where
    within : leb lower upper ≡ true → lower < upper + 1
    within e = omega (arith, leb→le lower upper e)

-- With both bounds at most 63, `bitmask_range` gives the mask whose bit `i` is one exactly where
-- `lower ≤ i ≤ upper`; with a larger bound it panics.
pub bitmask_range_lem :
    (lower upper : ℕ)
    → ((lower ≤ 63)
        × (upper ≤ 63)
        × (m : ℕ) × (bitmask_range lower upper ≡ some m)
        × ((i : ℕ) → bit_at i m ≡ bit_of (leb lower i && leb i upper)))
      ⊎ (((63 < lower) ⊎ (63 < upper)) × (bitmask_range lower upper ≡ none))
unfolding bitmask_range
bitmask_range_lem lower upper = elim (Bool-cases (leb lower 63)) [
  | inl p ↦ elim (Bool-cases (leb upper 63)) [
    | inl q ↦ inl (
      leb→le lower 63 p,
      leb→le upper 63 q,
      mask_between lower (upper + 1),
      rw (p, q),
      λ i. mask_bits lower upper i (leb→le upper 63 q),
    )
    | inr q ↦ inr (inr (leb→lt upper 63 q), rw (p, q))
  ]
  | inr p ↦ inr (inl (leb→lt lower 63 p), rw p)
]
