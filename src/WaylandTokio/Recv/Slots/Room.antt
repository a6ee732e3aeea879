-- ===== src/WaylandTokio/Recv/Slots/Room.antt =====
-- A handle gets the slots behind those in use, exactly where there are as many.
use ecs_compositor.Prelude.{
  ℕ, ◌+◌, ◌-◌, ◌%◌, ◌≤◌, ◌<◌, ◌≡◌, refl, ap, ◌∙◌, ◌⊎◌, inl, inr, false, Bool-cases, max, ltb, leb,
  leb→le, leb→lt, ◌==◌, if◌then◌else◌, ◌&&◌, arith,
}
use ecs_compositor.Prelude.Bits.{bit_and_mask}
use ecs_compositor.Phasesync.Position.{Pos, new_usize, new_u6}
use ecs_compositor.Phasesync.Position.Flat.{flat, IsPos, capacity, add_index_lem}
use ecs_compositor.WaylandTokio.Recv.{Bufs, BufSpan, slot_chunk_max, slot_pos}
use ecs_compositor.WaylandTokio.Recv.Slots.{
  RecvHandle, Allocated, allocated, no_slots, too_few, pos_lt, pos_le, behind, is_in_bounds,
  new_handle, alloc_slots, alloc_handle,
}

abbrev IsSlot : Pos → Type 0
IsSlot p = IsPos slot_chunk_max p

abbrev slots : ℕ
slots = capacity slot_chunk_max

-- The order of positions in range is that of their flat indices.
pos_lt-flat : (p q : Pos) → IsSlot p → IsSlot q → pos_lt p q ≡ ltb (flat p) (flat q)
unfolding pos_lt
pos_lt-flat p q v w = ground arith

pos_le-flat : (p q : Pos) → IsSlot p → IsSlot q → pos_le p q ≡ leb (flat p) (flat q)
unfolding pos_le
pos_le-flat p q v w = ground arith

pub behind_lem :
    (p : Pos) (n : ℕ)
    → IsSlot p
    → n ≤ slot_chunk_max
    → (flat (behind p n) ≡ (flat p + n) % slots) × IsSlot (behind p n)
unfolding new_usize
behind_lem p n v h = ground (arith, add_index_lem slot_chunk_max p n v (omega arith))

-- The free slots of the ring; all of them where start and end are equal.
abbrev pub room : Bufs → ℕ
room b =
    if ltb (flat b.slots_start) (flat b.slots_end)
    then flat b.slots_end - flat b.slots_start
    else slots - flat b.slots_start + flat b.slots_end

in_bounds_lem :
    (b : Bufs) (n : ℕ)
    → IsSlot b.slots_start
    → IsSlot b.slots_end
    → 1 ≤ n
    → n ≤ slot_chunk_max
    → is_in_bounds b.slots_start b.slots_end (behind b.slots_start (n - 1)) ≡ leb n (room b)
in_bounds_lem b n v w pos few =
    let (e, u) = behind_lem b.slots_start (n - 1) v (omega arith) in
    ground (
      arith,
      pos_lt-flat b.slots_start b.slots_end v w,
      pos_le-flat b.slots_start (behind b.slots_start (n - 1)) v u,
      pos_lt-flat (behind b.slots_start (n - 1)) b.slots_end u w,
    )

slot_pos-free :
    (first last : Pos) (h : BufSpan)
    → IsSlot last
    → flat (slot_pos (new_handle first last h).free) ≡ (flat last + 1) % slots
unfolding new_usize new_u6
slot_pos-free first last h v =
    let (e, u) = behind_lem last 1 v (omega arith) in
    ground (arith, bit_and_mask 6 (behind last 1).index)

-- The slots of a handle: `n` from the start on, which then stands behind them, as does the position
-- that is free again after the handle.
pub record Gets (b : Bufs) (h : BufSpan) (n : ℕ) (k : RecvHandle) (b' : Bufs) : Type 0 where
  pub first : k.first ≡ b.slots_start
  pub last : (flat k.last ≡ (flat b.slots_start + (n - 1)) % slots) × IsSlot k.last
  pub next : (flat b'.slots_start ≡ (flat b.slots_start + n) % slots) × IsSlot b'.slots_start
  pub free_next : flat (slot_pos k.free) ≡ flat b'.slots_start
  pub span : k.span ≡ h
  pub same_end : b'.slots_end ≡ b.slots_end

-- A handle with the `n` slots from the start on.
abbrev with_slots : ℕ → BufSpan → Bufs → Allocated
with_slots n h b =
    allocated (new_handle b.slots_start (behind b.slots_start (n - 1)) h)
      (record b { slots_start = behind b.slots_start n })

some_data : (h : BufSpan) → 0 < h.da_len + h.ct_len → (h.da_len == 0 && h.ct_len == 0) ≡ false
some_data h some = ground arith

alloc_slots-decided :
    (n : ℕ) (h : BufSpan) (b : Bufs)
    → IsSlot b.slots_start
    → IsSlot b.slots_end
    → 1 ≤ n
    → n ≤ slot_chunk_max
    → alloc_slots n h b ≡ (if leb n (room b) then with_slots n h b else too_few)
alloc_slots-decided n h b v w pos few =
    ap
      (λ t.
        if t
        then no_slots
        else if is_in_bounds b.slots_start b.slots_end (behind b.slots_start (n - 1))
        then with_slots n h b
        else too_few)
      {x = n == 0} {y = false} (ground arith)
    ∙ ap (λ t. if t then with_slots n h b else too_few) (in_bounds_lem b n v w pos few)

handle-Gets :
    (n : ℕ) (h : BufSpan) (b : Bufs)
    → IsSlot b.slots_start
    → 1 ≤ n
    → n ≤ slot_chunk_max
    → Gets b h n
        (new_handle b.slots_start (behind b.slots_start (n - 1)) h)
        (record b { slots_start = behind b.slots_start n })
handle-Gets n h b v pos few =
    let last = behind_lem b.slots_start (n - 1) v (omega arith) in
    let next = behind_lem b.slots_start n v few in
    record {
      first = refl;
      last = last;
      next = next;
      free_next = omega (
        arith,
        slot_pos-free b.slots_start (behind b.slots_start (n - 1)) h last.1,
        last.0,
        next.0,
      );
      span = refl;
      same_end = refl;
    }

-- A handle that is not empty, with slots in range and a callback that asks for one to 511 of them:
-- it is allocated exactly where the ring has that many free slots from the start on (all of them
-- where start and end are equal). It then has the slots from the old start to the one before the
-- new start, which wraps at the capacity and is also where the handle is free again; otherwise the
-- call ends in `todo!`.
pub alloc_handle_cases :
    (slot_count : ℕ → ℕ) (h : BufSpan) (b : Bufs)
    → IsSlot b.slots_start
    → IsSlot b.slots_end
    → 0 < h.da_len + h.ct_len
    → 1 ≤ slot_count (max h.count 1)
    → slot_count (max h.count 1) ≤ slot_chunk_max
    → let n = slot_count (max h.count 1) in
      ((n ≤ room b)
        × ((k : RecvHandle) × (b' : Bufs) × (alloc_handle slot_count h b ≡ allocated k b')
            × Gets b h n k b'))
      ⊎ ((room b < n) × (alloc_handle slot_count h b ≡ too_few))
unfolding alloc_handle
alloc_handle_cases slot_count h b v w some pos few =
    let n = slot_count (max h.count 1) in
    let decided = alloc_slots-decided n h b v w pos few in
    elim (Bool-cases (leb n (room b))) [
      | inl le ↦ inl (
        leb→le _ _ le,
        (
          new_handle b.slots_start (behind b.slots_start (n - 1)) h,
          record b { slots_start = behind b.slots_start n },
          rw (some_data h some) (decided ∙ ap (λ t. if t then with_slots n h b else too_few) le),
          handle-Gets n h b v pos few,
        ),
      )
      | inr gt ↦ inr (
        leb→lt _ _ gt,
        rw (some_data h some) (decided ∙ ap (λ t. if t then with_slots n h b else too_few) gt),
      )
    ]
