-- ===== src/WaylandTokio/Recv/Layout/Packed.antt =====
-- The fields of a bit field stand one behind the other.
use ecs_compositor.Prelude.{
  ℕ, ◌+◌, ◌^◌, ◌≤◌, ◌≡◌, refl, subst, List, [], ◌∷◌, Bool, Option, none, some, true, false, leb,
  ◌==◌, ◌&&◌, not, if◌then◌else◌, arith,
}
use ecs_compositor.WaylandTokio.Recv.Layout.{Bitfield, Declared, ilog2, bitfield, in_front, layout}

-- From a bit on: each field starts where the one before it ends, has the size that was declared, and
-- no more bits than its type.
abbrev pub IsPacked : ℕ → List Declared → List Bitfield → Type 0
IsPacked offset [] [] = Unit {0}
IsPacked offset [] (f ∷ fs) = ⊥
IsPacked offset (d ∷ ds) [] = ⊥
IsPacked offset (d ∷ ds) (f ∷ fs) =
    (f.lsb ≡ offset)
    × (f.msb + 1 ≡ offset + f.len)
    × (d.size ≡ 2 ^ f.len)
    × (f.len ≤ d.bits)
    × (offset ≤ 64)
    × IsPacked (offset + f.len) ds fs

abbrev accepted : Declared → ℕ → ℕ → Bool
accepted d offset len =
    d.size == 2 ^ len && not (offset + len == 0) && leb offset 64 && leb len d.bits

fields-IsPacked :
    (d : Declared) (ds : List Declared) (offset len : ℕ) (t : Bool) (o : Option (List Bitfield))
    (fs : List Bitfield)
    → accepted d offset len ≡ t
    → ((gs : List Bitfield) → o ≡ some gs → IsPacked (offset + len) ds gs)
    → (if t then in_front (bitfield offset len) o else none) ≡ some fs
    → IsPacked offset (d ∷ ds) fs
fields-IsPacked d ds offset len false o fs a h e = cc
fields-IsPacked d ds offset len true none fs a h e = cc
fields-IsPacked d ds offset len true (some gs) fs a h e =
    let l : (bitfield offset len ∷ gs) ≡ fs = cc in
    subst (IsPacked offset (d ∷ ds)) l
      (refl, ground arith, ground arith, ground arith, ground arith, h gs refl)

-- The fields of a bit field, where their constant can be computed, stand one behind the other from
-- the first bit on, each with the size that was declared and no more bits than its type, and each
-- starts at bit 64 or below it.
pub layout-IsPacked :
    (ds : List Declared) (offset : ℕ) (fs : List Bitfield)
    → layout offset ds ≡ some fs
    → IsPacked offset ds fs
unfolding layout
layout-IsPacked [] offset [] e = tt
layout-IsPacked [] offset (f ∷ fs) e = cc
layout-IsPacked (d ∷ ds) offset fs e =
    fields-IsPacked d ds offset (ilog2 d.size) (accepted d offset (ilog2 d.size))
      (layout (offset + ilog2 d.size) ds) fs refl
      (λ gs g. layout-IsPacked ds (offset + ilog2 d.size) gs g) e
