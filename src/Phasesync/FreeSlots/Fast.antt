-- ===== src/Phasesync/FreeSlots/Fast.antt =====
-- What the fast path and the reset of the slow path leave in the chunks.
use ecs_compositor.Prelude.{
  ℕ, ◌+◌, ◌≤◌, ◌<◌, ◌≡◌, refl, ap, ◌∙◌, inl, inr, arith, bit_and, bit_or, Bool, true, false, ◌==◌,
  ==→eq, ==→ne, eq→==, Bool-cases, if◌then◌else◌, List, [], ◌∷◌, length, get_or, set,
  get_or-set_self, get_or-set_ne, length-set,
}
use ecs_compositor.Prelude.Digits.{bit_at, bit_at-le, bit_at-and, bit_at-or, bit_at-not}
use ecs_compositor.Phasesync.Helpers.{try_while_mut, updated, refused}
use ecs_compositor.Phasesync.Helpers.Mask.{bit_of, between, mask_between-bit, mask_between-lt}
use ecs_compositor.Phasesync.ChunkIter.{ChunkInfo}
use ecs_compositor.Phasesync.FreeSlots.{
  Chunks, complement, mask_of, update, all_set, fast_path, reset, store,
}

-- Whether an item has the bit `i` of the chunk `c`, and whether one of several has.
abbrev pub has_bit : ChunkInfo → ℕ → ℕ → Bool
has_bit info c i = if info.chunk == c then between info.lower (info.upper + 1) i else false

abbrev pub any_has : List ChunkInfo → ℕ → ℕ → Bool
any_has [] c i = false
any_has (info ∷ infos) c i = if has_bit info c i then true else any_has infos c i

-- The bit `i` of the chunk `c`.
abbrev pub chunk_bit : Chunks → ℕ → ℕ → ℕ
chunk_bit chunks c i = bit_at i (get_or chunks c 0)

-- An update succeeds exactly where the condition holds for the chunk.
quiet_on :
    (cond : ℕ → Bool) (f : ℕ → ℕ) (val : ℕ)
    → cond val ≡ true
    → try_while_mut cond f val (val ∷ []) ≡ updated val (f val)
unfolding try_while_mut
quiet_on cond f val h = rw (h, eq→== val val refl, try_while_mut)

quiet_off :
    (cond : ℕ → Bool) (f : ℕ → ℕ) (val : ℕ)
    → cond val ≡ false
    → try_while_mut cond f val (val ∷ []) ≡ refused val
unfolding try_while_mut
quiet_off cond f val h = rw (h, try_while_mut)

pub update_on :
    (cond : ℕ → Bool) (f : ℕ → ℕ) (info : ChunkInfo) (chunks : Chunks)
    → cond (get_or chunks info.chunk 0) ≡ true
    → update cond f info chunks ≡ (true, set chunks info.chunk (f (get_or chunks info.chunk 0)))
unfolding update
update_on cond f info chunks h =
    ap (λ o. store info o chunks) (quiet_on cond f (get_or chunks info.chunk 0) h)

pub update_off :
    (cond : ℕ → Bool) (f : ℕ → ℕ) (info : ChunkInfo) (chunks : Chunks)
    → cond (get_or chunks info.chunk 0) ≡ false
    → update cond f info chunks ≡ (false, chunks)
unfolding update
update_off cond f info chunks h =
    ap (λ o. store info o chunks) (quiet_off cond f (get_or chunks info.chunk 0) h)

-- The bits of the mask of an item.
mask_bit :
    (info : ChunkInfo) (i : ℕ)
    → i ≤ 63
    → bit_at i (mask_of info) ≡ bit_of (between info.lower (info.upper + 1) i)
mask_bit info i h = mask_between-bit info.lower (info.upper + 1) i h

-- One chunk is changed and the others are not.
set_bit :
    (chunks : Chunks) (info : ChunkInfo) (new c i : ℕ)
    → c < length chunks
    → chunk_bit (set chunks info.chunk new) c i
      ≡ (if info.chunk == c then bit_at i new else chunk_bit chunks c i)
set_bit chunks info new c i h = elim (Bool-cases (info.chunk == c)) [
  | inl same ↦ rw (same, ==→eq _ _ same) (ap (bit_at i) (get_or-set_self chunks c new 0 h))
  | inr other ↦ rw other (ap (bit_at i) (get_or-set_ne chunks info.chunk c new 0 (==→ne _ _ other)))
]

-- `val | mask` and `val & !mask`, bit by bit.
or_mask_bit :
    (info : ChunkInfo) (val i : ℕ)
    → i ≤ 63
    → bit_at i (bit_or val (mask_of info))
      ≡ (if between info.lower (info.upper + 1) i then 1 else bit_at i val)
or_mask_bit info val i h =
    ground (arith, bit_at-or i val (mask_of info), mask_bit info i h, bit_at-le i val)

clear_mask_bit :
    (info : ChunkInfo) (val i : ℕ)
    → i ≤ 63
    → bit_at i (bit_and val (complement (mask_of info)))
      ≡ (if between info.lower (info.upper + 1) i then 0 else bit_at i val)
clear_mask_bit info val i h = ground (
  arith,
  bit_at-and i val (complement (mask_of info)),
  bit_at-not 64 i (mask_of info) (mask_between-lt info.lower (info.upper + 1)) (omega arith),
  mask_bit info i h,
  bit_at-le i val,
)

-- The reset of the slow path sets the bits of all items and changes no other, in every chunk.
pub reset-bit :
    (infos : List ChunkInfo) (chunks : Chunks) (c i : ℕ)
    → c < length chunks
    → i ≤ 63
    → chunk_bit (reset infos chunks) c i ≡ (if any_has infos c i then 1 else chunk_bit chunks c i)
unfolding reset
reset-bit [] chunks c i h k = refl
reset-bit (info ∷ infos) chunks c i h k =
    ap (λ (u : Bool × Chunks). chunk_bit (reset infos u.1) c i)
      (update_on (λ val. true) (λ val. bit_or val (mask_of info)) info chunks refl)
    ∙ reset-bit infos after c i (omega (arith, length-set chunks info.chunk new)) k
    ∙ ground (arith, set_bit chunks info new c i h, or_mask_bit info old i k)
  where
    old : ℕ
    old = get_or chunks info.chunk 0

    new : ℕ
    new = bit_or old (mask_of info)

    after : Chunks
    after = set chunks info.chunk new

-- What the fast path may do to a bit: on success it clears those of the items, and in no case does
-- it change another.
abbrev pub Cleared : List ChunkInfo → Chunks → ℕ → ℕ → Bool × Chunks → Type 0
Cleared infos chunks c i (success, after) =
    (success ≡ true → chunk_bit after c i ≡ (if any_has infos c i then 0 else chunk_bit chunks c i))
    × (any_has infos c i ≡ false → chunk_bit after c i ≡ chunk_bit chunks c i)

-- The fast path, in a run without interference and for each bit of a chunk that the array has:
-- where it succeeds, exactly the bits of the items are cleared; where it fails, no bit outside of
-- the items is changed.
pub fast_path-Cleared :
    (infos : List ChunkInfo) (chunks : Chunks) (c i : ℕ)
    → c < length chunks
    → i ≤ 63
    → Cleared infos chunks c i (fast_path infos chunks)
unfolding fast_path
fast_path-Cleared [] chunks c i h k = ((λ _. refl), (λ _. refl))
fast_path-Cleared (info ∷ infos) chunks c i h k = elim (Bool-cases (all_set (mask_of info) old)) [
  | inr unset ↦
      rw
        (update_off (all_set (mask_of info)) (λ val. bit_and val (complement (mask_of info))) info
          chunks unset)
        ((λ e. absurd (ground (arith, e))), (λ _. refl))
  | inl on ↦
      rw
        (update_on (all_set (mask_of info)) (λ val. bit_and val (complement (mask_of info))) info
          chunks on)
        (first (fast_path infos after)
          (fast_path-Cleared infos after c i (omega (arith, length-set chunks info.chunk new)) k))
]
  where
    old : ℕ
    old = get_or chunks info.chunk 0

    new : ℕ
    new = bit_and old (complement (mask_of info))

    after : Chunks
    after = set chunks info.chunk new

    stepped : chunk_bit after c i ≡ (if has_bit info c i then 0 else chunk_bit chunks c i)
    stepped = ground (arith, set_bit chunks info new c i h, clear_mask_bit info old i k)

    first : (r : Bool × Chunks) → Cleared infos after c i r → Cleared (info ∷ infos) chunks c i r
    first (b, last) (done, kept) =
        ((λ e. ground (arith, done e, stepped)), (λ e. ground (arith, kept, stepped, e)))
