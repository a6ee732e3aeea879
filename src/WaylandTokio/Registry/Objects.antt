-- ===== src/WaylandTokio/Registry/Objects.antt =====
-- The ids that a registry gives to new objects.
use ecs_compositor.Prelude.{
  ℕ, zero, suc, ◌+◌, ◌-◌, ◌^◌, ◌<◌, ◌≤◌, ◌≡◌, ◌↔◌, ◌∙◌, min, List, [], ◌∷◌, arith, get_or,
}
use ecs_compositor.WaylandTokio.Registry.{Registry, new_object}

-- The ids of `count` objects that are made one after the other.
unfoldable pub new_objects : ℕ → Registry → List ℕ
new_objects zero r = []
new_objects (suc count) r = let (id, r') = new_object r in id ∷ new_objects count r'

abbrev pub largest : ℕ
largest = 2 ^ 32 - 1

new_objects-nth :
    (count i : ℕ) (r : Registry)
    → i < count
    → r.next_id ≤ largest
    → get_or (new_objects count r) i 0 ≡ min (r.next_id + i) largest
unfolding new_objects new_object
new_objects-nth zero i r h v = absurd (omega arith)
new_objects-nth (suc count) zero r h v = omega arith
new_objects-nth (suc count) (suc i) r h v =
    new_objects-nth count i (new_object r).1 (omega arith) (omega arith) ∙ omega arith

-- Two of the objects that are made in a row have the same id exactly where the first of the two
-- has the largest one.
pub new_objects-distinct :
    (count i j : ℕ) (r : Registry)
    → i < j
    → j < count
    → r.next_id ≤ largest
    → (get_or (new_objects count r) i 0 ≡ get_or (new_objects count r) j 0)
      ↔ (largest ≤ r.next_id + i)
new_objects-distinct count i j r lt h v = (
  λ e. omega (arith, new_objects-nth count i r, new_objects-nth count j r),
  λ le. omega (arith, new_objects-nth count i r, new_objects-nth count j r),
)
