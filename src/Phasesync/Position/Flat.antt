-- ===== src/Phasesync/Position/Flat.antt =====
-- Positions as numbers of bits: arithmetic on positions against arithmetic on flat indices.
use ecs_compositor.Prelude.{
  ℕ, ◌+◌, ◌*◌, ◌%◌, ◌≤◌, ◌<◌, ◌≡◌, refl, sym, ap, ◌∙◌, ◌≢◌, ◌⊎◌, inl, inr, arith, min, Bool, true,
  false, if◌then◌else◌, none, some,
}
use ecs_compositor.Prelude.Bits.{bit_and_mask}
use ecs_compositor.Phasesync.Position.{
  carry_int, carrying_add, borrowing_sub, u6, usize, new_u6, new_usize, Pos, from_flat_index,
  add_pos, sub_pos, checked_sub_pos, add_index,
}
use ecs_compositor.Phasesync.Position.Carry.{
  u6-IsExact, usize-IsExact, carrying_add_lem, borrowing_sub_lem, borrowing_sub_self,
}
use native.Mathlib.Nat.{mod-eq_of_lt, add-mod_right}

-- A number that was reduced by the modulus once or not at all is the remainder.
wraps_mod : (n s m : ℕ) (out : Bool) → s < m → s + (if out then m else 0) ≡ n → s ≡ n % m
wraps_mod n s m false lt e = ground (arith, mod-eq_of_lt {n = s} {m = m} lt)
wraps_mod n s m true lt e =
    sym (ap (λ t. t % m) (sym e) ∙ add-mod_right s m ∙ mod-eq_of_lt {n = s} {m = m} lt)

-- The bits before a position.
abbrev pub flat : Pos → ℕ
flat p = p.chunk * 64 + p.index

module _ (largest : ℕ) where
  abbrev pub IsPos : Pos → Type 0
  IsPos p = (p.chunk ≤ largest) × (p.index ≤ 63)

  -- The number of bits in all chunks.
  abbrev pub capacity : ℕ
  capacity = (largest + 1) * 64

  abbrev pub weigh : Bool → ℕ
  weigh carry = if carry then capacity else 0

  -- Splitting a flat index into a position loses nothing, up to the capacity.
  pub flat-from_flat_index :
      (n : ℕ)
      → n < capacity
      → IsPos (from_flat_index largest n) × (flat (from_flat_index largest n) ≡ n)
  unfolding from_flat_index new_u6 new_usize
  flat-from_flat_index n h = ground (arith, bit_and_mask 6 n, bit_and_mask 6 (n % 64))

  -- The sum of two positions in range, with a carry in, is the sum of their flat indices modulo
  -- the capacity and is in range, and the carry out says whether it wrapped.
  pub add_pos_lem :
      (p q : Pos) (carry : Bool)
      → IsPos p
      → IsPos q
      → let (sum, out) = add_pos largest p q carry in
        (flat sum + weigh out ≡ flat p + flat q + carry_int carry) × IsPos sum
  unfolding add_pos
  add_pos_lem p q carry vp vq = ground (
    arith,
    carrying_add_lem u6 u6-IsExact p.index q.index carry vp.1 vq.1,
    carrying_add_lem (usize largest) (usize-IsExact largest) p.chunk q.chunk
        (carrying_add u6 p.index q.index carry).1 vp.0 vq.0,
  )

  -- The difference of two positions in range is that of their flat indices modulo the capacity and
  -- is in range, and the borrow out says whether it wrapped, unless the chunks are equal and the
  -- index borrows.
  pub sub_pos_lem :
      (p q : Pos)
      → IsPos p
      → IsPos q
      → (p.chunk ≢ q.chunk) ⊎ (q.index ≤ p.index)
      → let (dif, out) = sub_pos largest p q false in
        (flat dif + flat q ≡ flat p + weigh out) × IsPos dif
  unfolding sub_pos
  sub_pos_lem p q vp vq ne = ground (
    arith,
    borrowing_sub_lem u6 u6-IsExact p.index q.index false vp.1 vq.1 (inr refl),
    borrowing_sub_lem (usize largest) (usize-IsExact largest) p.chunk q.chunk
        (borrowing_sub u6 p.index q.index false).1 vp.0 vq.0,
  )

  -- For two positions in range with equal chunks where the index borrows, the difference has the
  -- chunk 0 and a borrow out: it is smaller by the largest chunk than the difference modulo the
  -- capacity.
  pub sub_pos_same_chunk :
      (p q : Pos)
      → IsPos p
      → IsPos q
      → p.chunk ≡ q.chunk
      → p.index < q.index
      → let (dif, out) = sub_pos largest p q false in
        (out ≡ true) × (dif.chunk ≡ 0) × (flat dif + flat q + largest * 64 ≡ flat p + capacity)
  unfolding sub_pos
  sub_pos_same_chunk p q vp vq e lt = ground (
    arith,
    borrowing_sub_lem u6 u6-IsExact p.index q.index false vp.1 vq.1 (inr refl),
    borrowing_sub_self (usize largest) p.chunk,
  )

  -- The borrow out is right in every case.
  sub_pos_borrows :
      (p q : Pos)
      → IsPos p
      → IsPos q
      → ((sub_pos largest p q false).1 ≡ true × (flat p < flat q))
        ⊎ ((sub_pos largest p q false).1 ≡ false × (flat q ≤ flat p))
  sub_pos_borrows p q vp vq = ground (arith, sub_pos_lem p q vp vq, sub_pos_same_chunk p q vp vq)

  -- For positions in range, `checked_sub` answers with `None` where the difference is not
  -- negative, and with a position where it is.
  pub checked_sub_pos_inverted :
      (p q : Pos)
      → IsPos p
      → IsPos q
      → (flat q ≤ flat p → checked_sub_pos largest p q ≡ none)
        × (flat p < flat q → (d : Pos) × (checked_sub_pos largest p q ≡ some d))
  unfolding checked_sub_pos
  checked_sub_pos_inverted p q vp vq = elim (sub_pos_borrows p q vp vq) [
    | inl (b, lt) ↦ (λ le. absurd (omega arith), λ _. ((sub_pos largest p q false).0, rw b))
    | inr (b, le) ↦ (λ _. rw b, λ lt. absurd (omega arith))
  ]

  -- The position a number of bits behind one in range.
  pub add_index_lem :
      (p : Pos) (n : ℕ)
      → IsPos p
      → n < capacity
      → (flat (add_index largest p n) ≡ (flat p + n) % capacity) × IsPos (add_index largest p n)
  unfolding add_index
  add_index_lem p n vp h = ground (
    arith,
    flat-from_flat_index n h,
    add_pos_lem p (from_flat_index largest n) false vp,
    wraps_mod (flat p + n) (flat (add_pos largest p (from_flat_index largest n) false).0) capacity
        (add_pos largest p (from_flat_index largest n) false).1,
  )

  -- With two or more chunks, the position that the slow path computes behind one in range is the
  -- next bit, and the first bit behind the last.
  pub add_index-one :
      (p : Pos)
      → IsPos p
      → 1 ≤ largest
      → flat (add_index largest p (new_usize largest 1)) ≡ (flat p + 1) % capacity
  unfolding new_usize
  add_index-one p vp h = ground (arith, add_index_lem p (min 1 largest) vp (omega arith))
