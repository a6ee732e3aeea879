-- ===== src/Phasesync/ChunkIter/Items.antt =====
-- All items of the iterator, by how far the last chunk is from the first.
use ecs_compositor.Prelude.{
  ℕ, zero, suc, ◌+◌, ◌≤◌, ◌<◌, ◌≡◌, ◌≢◌, refl, ap, ap₂, ltb, ltb→lt, ltb→le, ==→eq, ==→ne,
  Bool-cases, ◌∙◌, ◌⊎◌, inl, inr, [], ◌∷◌, Option, none, some, ◌==◌, arith, eq→==, ne→==, length,
}
use ecs_compositor.Phasesync.Position.{Pos, new_usize}
use ecs_compositor.Phasesync.ChunkIter.{
  State, ChunkIter, ChunkInfo, chunk_iter, wrapping_add, state_after, next, items,
}

abbrev pub info : ℕ → ℕ → ℕ → ChunkInfo
info chunk lower upper = record { chunk = chunk; lower = lower; upper = upper }

abbrev pub at_state : State → Pos → Pos → ChunkIter
at_state s p q = record { state = s; start = p; end = q }

-- An item that `next` yields comes in front of the items after it.
items-suc :
    (largest n : ℕ) (it it' : ChunkIter) (i : ChunkInfo)
    → next largest it ≡ (some i, it')
    → items largest (suc n) it ≡ i ∷ items largest n it'
unfolding items
items-suc largest n it it' i e =
    ap
      (λ (r : Option ChunkInfo × ChunkIter). elim (r.0) [
        | none ↦ []
        | some info ↦ info ∷ items largest n r.1
      ])
      e

module _ (largest : ℕ) (p q : Pos) where
  abbrev first_part : ChunkInfo
  first_part = info p.chunk p.index 63

  abbrev last_part : ChunkInfo
  last_part = info q.chunk 0 q.index

  finished_items : (n : ℕ) → items largest n (at_state State.finished p q) ≡ []
  unfolding items next
  finished_items zero = refl
  finished_items (suc n) = refl

  end_items : (n : ℕ) → items largest (suc n) (at_state State.end p q) ≡ last_part ∷ []
  unfolding items next
  end_items n = ap (λ l. last_part ∷ l) (finished_items n)

  items_same :
      (n : ℕ)
      → p.chunk ≡ q.chunk
      → items largest (suc n) (chunk_iter p q) ≡ info p.chunk p.index q.index ∷ []
  unfolding next
  items_same n e =
      items-suc largest n (chunk_iter p q) (at_state State.finished p q)
        (info p.chunk p.index q.index) (rw (eq→== p.chunk q.chunk e))
      ∙ ap (λ l. info p.chunk p.index q.index ∷ l) (finished_items n)

  module _ (vp : p.chunk ≤ largest) (vq : q.chunk ≤ largest) (ne : p.chunk ≢ q.chunk) where
    first_next :
        (s : State)
        → state_after largest (chunk_iter p q) (wrapping_add largest p.chunk 1) ≡ s
        → next largest (chunk_iter p q) ≡ (some first_part, at_state s p q)
    unfolding next
    first_next s e = rw (ne→== p.chunk q.chunk ne, e)

    items_far :
        (n : ℕ)
        → p.chunk + 1 ≢ q.chunk
        → items largest (suc (suc n)) (chunk_iter p q) ≡ first_part ∷ last_part ∷ []
    unfolding state_after wrapping_add new_usize
    items_far n far =
        items-suc largest (suc n) (chunk_iter p q) (at_state State.end p q) first_part
          (first_next State.end (ground arith))
        ∙ ap (λ l. first_part ∷ l) (end_items n)

    middle-next :
        (s : State)
        → state_after largest (chunk_iter p q) (wrapping_add largest q.chunk 1) ≡ s
        → next largest (at_state (State.middle q.chunk) p q)
          ≡ (some (info q.chunk 0 63), at_state s p q)
    unfolding next new_usize state_after
    middle-next s e = ap₂ (λ (c : ℕ) t. (some (info c 0 63), at_state t p q)) (omega arith) e

    -- The last chunk comes next, and is not the last of all: it comes twice.
    items_next :
        (n : ℕ)
        → p.chunk + 1 ≡ q.chunk
        → q.chunk < largest
        → items largest (suc (suc (suc n))) (chunk_iter p q)
          ≡ first_part ∷ info q.chunk 0 63 ∷ last_part ∷ []
    unfolding state_after wrapping_add new_usize
    items_next n e lt =
        items-suc largest (suc (suc n)) (chunk_iter p q) (at_state (State.middle q.chunk) p q)
          first_part (first_next (State.middle q.chunk) (ground arith))
        ∙ ap (λ l. first_part ∷ l)
            (items-suc largest (suc n) (at_state (State.middle q.chunk) p q)
                (at_state State.end p q) (info q.chunk 0 63) (middle-next State.end (ground arith))
              ∙ ap (λ l. info q.chunk 0 63 ∷ l) (end_items n))

    middle-items :
        (n : ℕ)
        → q.chunk ≡ largest
        → length (items largest n (at_state (State.middle q.chunk) p q)) ≡ n
    unfolding state_after wrapping_add new_usize items
    middle-items zero e = refl
    middle-items (suc n) e =
        ap length (
          items-suc largest n (at_state (State.middle q.chunk) p q)
            (at_state (State.middle q.chunk) p q) (info q.chunk 0 63)
            (middle-next (State.middle q.chunk) (ground arith)))
        ∙ ap suc (middle-items n e)

    items_endless :
        (n : ℕ)
        → p.chunk + 1 ≡ q.chunk
        → q.chunk ≡ largest
        → length (items largest n (chunk_iter p q)) ≡ n
    unfolding state_after wrapping_add new_usize items
    items_endless zero e m = refl
    items_endless (suc n) e m =
        ap length (
          items-suc largest n (chunk_iter p q) (at_state (State.middle q.chunk) p q) first_part
            (first_next (State.middle q.chunk) (ground arith)))
        ∙ ap suc (middle-items n m)

-- What the chunk iterator yields between two positions in range. In one chunk: that part of it.
-- For the next chunk, where that is not the largest: the rest of the first chunk, all of the last
-- one, and its part up to the end once more; where it is the largest, the iterator never ends. In
-- all other cases: the rest of the first chunk and the part of the last one, and no chunk between
-- them.
pub items_lem :
    (largest : ℕ) (p q : Pos)
    → p.chunk ≤ largest
    → q.chunk ≤ largest
    → let it = chunk_iter p q in
      (p.chunk ≡ q.chunk × ((n : ℕ) → items largest (suc n) it ≡ info p.chunk p.index q.index ∷ []))
      ⊎ ((p.chunk + 1 ≡ q.chunk)
          × (q.chunk < largest)
          × ((n : ℕ)
              → items largest (suc (suc (suc n))) it
                ≡ info p.chunk p.index 63 ∷ info q.chunk 0 63 ∷ info q.chunk 0 q.index ∷ []))
      ⊎ ((p.chunk + 1 ≡ q.chunk)
          × (q.chunk ≡ largest)
          × ((n : ℕ) → length (items largest n it) ≡ n))
      ⊎ ((p.chunk ≢ q.chunk)
          × (p.chunk + 1 ≢ q.chunk)
          × ((n : ℕ)
              → items largest (suc (suc n)) it
                ≡ info p.chunk p.index 63 ∷ info q.chunk 0 q.index ∷ []))
items_lem largest p q vp vq = elim (Bool-cases (p.chunk == q.chunk)) [
  | inl same ↦ inl (==→eq _ _ same, λ n. items_same largest p q n (==→eq _ _ same))
  | inr other ↦ elim (Bool-cases (p.chunk + 1 == q.chunk)) [
    | inl near ↦ elim (Bool-cases (ltb q.chunk largest)) [
      | inl lt ↦ inr (
          inl (
            ==→eq _ _ near,
            ltb→lt _ _ lt,
            λ n. items_next largest p q vp vq (==→ne _ _ other) n (==→eq _ _ near) (ltb→lt _ _ lt),
          ))
      | inr ge ↦ inr (
          inr (
            inl (
              ==→eq _ _ near,
              omega (arith, ltb→le _ _ ge),
              λ n.
                  items_endless largest p q vp vq (==→ne _ _ other) n (==→eq _ _ near)
                    (omega (arith, ltb→le _ _ ge)),
            )))
    ]
    | inr far ↦ inr (
        inr (
          inr (
            ==→ne _ _ other,
            ==→ne _ _ far,
            λ n. items_far largest p q vp vq (==→ne _ _ other) n (==→ne _ _ far),
          )))
  ]
]
