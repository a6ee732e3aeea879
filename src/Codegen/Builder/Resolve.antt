-- ===== src/Codegen/Builder/Resolve.antt =====
-- What `Wayland::protocols` does with a tree: each file is taken below the directories that the
-- tree puts it in.
use ecs_compositor.Prelude.{
  ℕ, ◌≡◌, refl, sym, ap, ◌∙◌, List, [], ◌∷◌, ◌++◌, append_assoc, Option, none, some, Option-cases,
  inl, inr,
}
use ecs_compositor.Codegen.Builder.Paths.{FilePath, ◌>>=◌}
use ecs_compositor.Codegen.Builder.{
  Dir, dir_of, Children, no_child, sub_dir, proto, Event, into_iter, Context, Call, entered,
  is_some, on_file, Protocol, on_protocol, enter_dir, exit_dir, on_event, run,
}
use ecs_compositor.Codegen.Builder.Walk.{walk, walk_children, collect}

-- The directories around what stands in a directory.
abbrev pub inside : Option FilePath → Option FilePath → Context → Context
inside i o c = record { in_dirs = entered i c.in_dirs; out_dirs = entered o c.out_dirs }

abbrev followed_by : Option (List Call) → Option (List Call) → Option (List Call)
followed_by calls later = do cs ← calls; ds ← later; some (cs ++ ds)

abbrev alone : Option Call → Option (List Call)
alone none = none
alone (some call) = some (call ∷ [])

-- The calls for a tree that stands below the directories of a context.
unfoldable mutual
  pub resolve : Context → Dir → Option (List Call)
  resolve c (dir_of i o children) = resolve_children (inside i o c) children

  pub resolve_children : Context → Children → Option (List Call)
  resolve_children c no_child = some []
  resolve_children c (proto p rest) = followed_by (alone (on_file c p)) (resolve_children c rest)
  resolve_children c (sub_dir d rest) = followed_by (resolve c d) (resolve_children c rest)

followed_by_assoc :
    (a b c : Option (List Call)) → followed_by (followed_by a b) c ≡ followed_by a (followed_by b c)
followed_by_assoc none b c = refl
followed_by_assoc (some x) none c = refl
followed_by_assoc (some x) (some y) none = refl
followed_by_assoc (some x) (some y) (some z) = ap some (append_assoc x y z)

nothing-followed_by : (a : Option (List Call)) → followed_by (some []) a ≡ a
nothing-followed_by none = refl
nothing-followed_by (some x) = refl

run-file :
    (c : Context) (p : Protocol) (rest : List Event)
    → run (on_protocol p ∷ rest) c ≡ followed_by (alone (on_file c p)) (run rest c)
unfolding run on_event
run-file c p rest = elim (Option-cases (on_file c p)) [ inr e ↦ rw e | inl (call, e) ↦ rw e ]

run-leave :
    (i o : Option FilePath) (c : Context) (rest : List Event)
    → run (exit_dir (is_some i) (is_some o) ∷ rest) (inside i o c) ≡ run rest c
unfolding run on_event
run-leave none none c rest = nothing-followed_by (run rest c)
run-leave none (some o) c rest = nothing-followed_by (run rest c)
run-leave (some i) none c rest = nothing-followed_by (run rest c)
run-leave (some i) (some o) c rest = nothing-followed_by (run rest c)

run-enter :
    (i o : Option FilePath) (c : Context) (rest : List Event)
    → run (enter_dir i o ∷ rest) c ≡ run rest (inside i o c)
unfolding run on_event
run-enter i o c rest = nothing-followed_by (run rest (inside i o c))

mutual
  unfolding walk resolve

  run-walk :
      (d : Dir) (c : Context) (rest : List Event)
      → run (walk d ++ rest) c ≡ followed_by (resolve c d) (run rest c)
  run-walk (dir_of i o children) c rest =
      run-enter i o c (walk_children i o children ++ rest) ∙ run-walk_children i o children c rest

  run-walk_children :
      (i o : Option FilePath) (children : Children) (c : Context) (rest : List Event)
      → run (walk_children i o children ++ rest) (inside i o c)
        ≡ followed_by (resolve_children (inside i o c) children) (run rest c)
  run-walk_children i o no_child c rest =
      run-leave i o c rest ∙ sym (nothing-followed_by (run rest c))
  run-walk_children i o (proto p below) c rest =
      run-file (inside i o c) p (walk_children i o below ++ rest)
      ∙ ap (followed_by (alone (on_file (inside i o c) p))) (run-walk_children i o below c rest)
      ∙ sym (
          followed_by_assoc (alone (on_file (inside i o c) p))
            (resolve_children (inside i o c) below) (run rest c))
  run-walk_children i o (sub_dir d below) c rest =
      ap (λ l. run l (inside i o c)) (append_assoc (walk d) (walk_children i o below) rest)
      ∙ run-walk d (inside i o c) (walk_children i o below ++ rest)
      ∙ ap (followed_by (resolve (inside i o c) d)) (run-walk_children i o below c rest)
      ∙ sym (
          followed_by_assoc (resolve (inside i o c) d) (resolve_children (inside i o c) below)
            (run rest c))

-- `Context::default`.
abbrev pub start : Context
start = record { in_dirs = []; out_dirs = [] }

-- `Wayland::protocols` on a tree.
unfoldable pub run_protocols : ℕ → Dir → Option (List Call)
run_protocols rounds d = do events ← collect rounds (into_iter d); run events start
