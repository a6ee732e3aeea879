-- ===== src/Codegen/Builder/Walk.antt =====
-- The iterator over the events of a tree, against the recursive walk through the tree.
use ecs_compositor.Prelude.{
  ℕ, zero, suc, ◌<◌, ◌≡◌, refl, sym, ap, List, [], ◌∷◌, ◌++◌, append-nil, append_assoc, false,
  Option, none, some, arith, length,
}
use ecs_compositor.Codegen.Builder.Paths.{FilePath, ◌>>=◌}
use ecs_compositor.Codegen.Builder.{
  Dir, dir_of, Children, no_child, sub_dir, proto, Event, enter_dir, on_protocol, exit_dir,
  IntoIter, into_iter, next, is_some,
}

-- The events of a tree: a directory is entered, its children are walked through from the last to
-- the first, and it is left.
unfoldable mutual
  pub walk : Dir → List Event
  walk (dir_of i o children) = enter_dir i o ∷ walk_children i o children

  pub walk_children : Option FilePath → Option FilePath → Children → List Event
  walk_children i o no_child = exit_dir (is_some i) (is_some o) ∷ []
  walk_children i o (proto p rest) = on_protocol p ∷ walk_children i o rest
  walk_children i o (sub_dir d rest) = walk d ++ walk_children i o rest

-- A `for` loop over the iterator: it is asked for at most as many items as the first argument says,
-- and `none` is a loop that goes on.
unfoldable pub collect : ℕ → IntoIter → Option (List Event)
collect zero s = none
collect (suc rounds) s = elim (next s) [
  | none ↦ some []
  | some (event, s') ↦ do events ← collect rounds s'; some (event ∷ events)
]

-- What is left of the directories on the stack.
left : List Dir → List Event
left [] = []
left (dir_of i o children ∷ below) = walk_children i o children ++ left below

left-sub_dir :
    (i o : Option FilePath) (d : Dir) (rest : Children) (below : List Dir)
    → left (dir_of i o (sub_dir d rest) ∷ below) ≡ walk d ++ left (dir_of i o rest ∷ below)
unfolding left walk walk_children
left-sub_dir i o d rest below = append_assoc (walk d) (walk_children i o rest) (left below)

abbrev on_stack : List Dir → IntoIter
on_stack stack = record { first = false; stack = stack }

collect-left :
    (rounds : ℕ) (stack : List Dir)
    → length (left stack) < rounds
    → collect rounds (on_stack stack) ≡ some (left stack)
unfolding collect next left walk walk_children
collect-left zero stack h = absurd (omega arith)
collect-left (suc n) [] h = refl
collect-left (suc n) (dir_of i o no_child ∷ below) h = rw (collect-left n below (omega arith)) refl
collect-left (suc n) (dir_of i o (proto p rest) ∷ below) h =
    rw (collect-left n (dir_of i o rest ∷ below) (omega arith)) refl
collect-left (suc n) (dir_of i o (sub_dir (dir_of j k inner) rest) ∷ below) h =
    let e = left-sub_dir i o (dir_of j k inner) rest below in
    rw (collect-left n (dir_of j k inner ∷ dir_of i o rest ∷ below) (omega (arith, ap length e)))
      (ap some (sym e))

-- The iterator yields the events of the recursive walk, in its order, and then ends: it is asked
-- once more than there are events.
pub collect-walk :
    (d : Dir) (rounds : ℕ) → length (walk d) < rounds → collect rounds (into_iter d) ≡ some (walk d)
unfolding collect next into_iter walk left
collect-walk (dir_of i o children) zero h = absurd (omega arith)
collect-walk (dir_of i o children) (suc n) h =
    let e : left (dir_of i o children ∷ []) ≡ walk_children i o children = append-nil _ in
    rw (collect-left n (dir_of i o children ∷ []) (omega (arith, ap length e)), e) refl
