-- ===== src/Phasesync/FreeSlots/Search.antt =====
-- Where the search in a chunk ends, in a run without interference.
use ecs_compositor.Prelude.{
  ℕ, zero, suc, ◌+◌, ◌-◌, ◌%◌, ◌≤◌, ◌<◌, ◌≡◌, refl, ap, ◌∙◌, ◌⊎◌, inl, inr, arith, bit_and, true,
  false, none, some, ltb, ltb→lt, ltb→le, ne→==, eq→==, ◌==◌, ==→eq, Bool-cases, Option-cases,
}
use ecs_compositor.Prelude.Bits.{bit_and-halves, bit_and_mask, ◌>>>◌}
use native.Mathlib.Nat.{pow-suc, one-le-pow, mul-div_cancel}
use ecs_compositor.Phasesync.Helpers.{lowest_one, try_while_mut, updated, refused}
use ecs_compositor.Phasesync.FreeSlots.{
  bit, complement, first_cond, second_cond, fill_exchange, clear_exchange, selected, no_slot,
  endless, search,
}

-- A masked bit other than the lowest is not 1.
first_cond-false : (index val : ℕ) → 1 ≤ index → first_cond index val ≡ false
first_cond-false zero val h = absurd (omega arith)
first_cond-false (suc k) val h =
    ne→== (bit_and val (bit (suc k))) 1
      (λ e. omega (arith, bit_and-halves val (bit (suc k)), pow-suc 2 k, e))

-- A bit moved down by its own index is the lowest one.
second_cond_lem : (index val : ℕ) → second_cond index val ≡ (val % 2 == 1)
second_cond_lem index val =
    ap (λ t. t == 1)
      (ap (bit_and val) {x = bit index >>> index} {y = 1}
          (mul-div_cancel 1 (omega (arith, one-le-pow index 2)))
        ∙ bit_and_mask 1 val)

-- The exchanges where the code holds what the chunk has.
fill_refused :
    (lower index val : ℕ)
    → first_cond index val ≡ false
    → fill_exchange lower index val val ≡ refused val
unfolding try_while_mut
fill_refused lower index val h = rw (h, try_while_mut)

clear_refused :
    (index val : ℕ) → second_cond index val ≡ false → clear_exchange index val val ≡ refused val
unfolding try_while_mut
clear_refused index val h = rw (h, try_while_mut)

clear_updated :
    (index val : ℕ)
    → second_cond index val ≡ true
    → clear_exchange index val val ≡ updated val (bit_and val (complement (bit index)))
unfolding try_while_mut
clear_updated index val h = rw (h, eq→== val val refl, try_while_mut)

-- A slot that is neither the first of the range nor right behind it: the code never gets past it.
search_behind :
    (rounds lower upper mask val index : ℕ)
    → lowest_one (bit_and val mask) ≡ some index
    → ltb lower (index - 1) ≡ true
    → search rounds lower upper mask val val ≡ endless
unfolding search
search_behind zero lower upper mask val index found far = refl
search_behind (suc rounds) lower upper mask val index found far =
    rw
      (
        found,
        far,
        fill_refused lower index val (first_cond-false index val (omega (arith, ltb→lt _ _ far))),
        search,
      )
      (search_behind rounds lower upper mask val index found far)

-- Otherwise the lowest bit of the chunk decides.
search_even :
    (rounds lower upper mask val index : ℕ)
    → lowest_one (bit_and val mask) ≡ some index
    → ltb lower (index - 1) ≡ false
    → (val % 2 == 1) ≡ false
    → search rounds lower upper mask val val ≡ endless
unfolding search
search_even zero lower upper mask val index found near even = refl
search_even (suc rounds) lower upper mask val index found near even =
    rw (found, near, clear_refused index val (second_cond_lem index val ∙ even), search)
      (search_even rounds index upper mask val index found (ground arith) even)

search_odd :
    (rounds lower upper mask val index : ℕ)
    → lowest_one (bit_and val mask) ≡ some index
    → ltb lower (index - 1) ≡ false
    → (val % 2 == 1) ≡ true
    → search (suc rounds) lower upper mask val val
      ≡ selected index (bit_and val (complement (bit index)))
unfolding search
search_odd rounds lower upper mask val index found near odd =
    rw (found, near, clear_updated index val (second_cond_lem index val ∙ odd), search)

search-none :
    (rounds lower upper mask val : ℕ)
    → lowest_one (bit_and val mask) ≡ none
    → search (suc rounds) lower upper mask val val ≡ no_slot val
unfolding search
search-none rounds lower upper mask val nothing = rw (nothing, search)

-- The search in a chunk that no other thread changes, for any mask and lower bound. With no bit of
-- the mask set it finds no slot. With `index` the bit that `lowest_one` finds, it selects that
-- slot and clears its bit where `index` is at most one behind `lower` and the lowest bit of the
-- chunk is one; in all other cases it never ends, however many rounds it takes.
pub search_lem :
    (lower upper mask val : ℕ)
    → ((lowest_one (bit_and val mask) ≡ none)
        × ((rounds : ℕ) → search (suc rounds) lower upper mask val val ≡ no_slot val))
      ⊎ ((index : ℕ) × (lowest_one (bit_and val mask) ≡ some index)
          × (((index ≤ lower + 1)
                × (val % 2 ≡ 1)
                × ((rounds : ℕ)
                    → search (suc rounds) lower upper mask val val
                      ≡ selected index (bit_and val (complement (bit index)))))
              ⊎ (((lower + 1 < index) ⊎ (val % 2 ≡ 0))
                  × ((rounds : ℕ) → search rounds lower upper mask val val ≡ endless))))
search_lem lower upper mask val = elim (Option-cases (lowest_one (bit_and val mask))) [
  | inr nothing ↦ inl (nothing, λ rounds. search-none rounds lower upper mask val nothing)
  | inl (index, found) ↦ inr (index, found, ends index found)
]
  where
    ends :
        (index : ℕ)
        → lowest_one (bit_and val mask) ≡ some index
        → ((index ≤ lower + 1)
            × (val % 2 ≡ 1)
            × ((rounds : ℕ)
                → search (suc rounds) lower upper mask val val
                  ≡ selected index (bit_and val (complement (bit index)))))
          ⊎ (((lower + 1 < index) ⊎ (val % 2 ≡ 0))
              × ((rounds : ℕ) → search rounds lower upper mask val val ≡ endless))
    ends index found = elim (Bool-cases (ltb lower (index - 1))) [
      | inl far ↦ inr (
        inl (omega (arith, ltb→lt _ _ far)),
        λ rounds. search_behind rounds lower upper mask val index found far,
      )
      | inr near ↦ elim (Bool-cases (val % 2 == 1)) [
        | inl odd ↦ inl (
          omega (arith, ltb→le _ _ near),
          ==→eq _ _ odd,
          λ rounds. search_odd rounds lower upper mask val index found near odd,
        )
        | inr even ↦ inr (
          inr (ground (arith, even)),
          λ rounds. search_even rounds lower upper mask val index found near even,
        )
      ]
    ]
