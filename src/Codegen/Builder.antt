-- ===== src/Codegen/Builder.antt =====
-- crates/codegen/src/builder/dir.rs and builder/mod.rs: the tree of directories with protocol
-- files, the iterator over its events, and what `Wayland::protocols` does for them.
--
-- A `Vec` that is only pushed to and popped from is the list of its items, the last one first. A
-- path is the standard library's, by its components.
pub mod Paths
pub mod Walk
pub mod Resolve
pub mod Tests
use ecs_compositor.Prelude.{
  ℕ, zero, suc, List, [], ◌∷◌, ◌++◌, Bool, true, false, Option, none, some, if◌then◌else◌, not,
}
use ecs_compositor.Codegen.Builder.Paths.{
  FilePath, is_empty, push, extend, parent, file_name, empty_path, ◌>>=◌,
}

pub record Protocol : Type 0 where
  pub in_file : FilePath
  pub out_file : FilePath
  pub formatted : Bool

-- `Dir`; its `children` are the constructors of `Children`, which are those of `Child`.
mutual
  pub data Dir : Type 0 where
    dir_of : (in_dir out_dir : Option FilePath) → Children → Dir

  pub data Children : Type 0 where
    no_child : Children
    sub_dir : Dir → Children → Children
    proto : Protocol → Children → Children

-- `path.as_os_str().is_empty().not().then_some(path)`.
abbrev unless_empty : FilePath → Option FilePath
unless_empty path = if not (is_empty path) then some path else none

abbrev pub new_dir : Dir
new_dir = dir_of none none no_child

unfoldable pub in_dir : FilePath → Dir → Dir
in_dir path (dir_of i o children) = dir_of (unless_empty path) o children

unfoldable pub out_dir : FilePath → Dir → Dir
out_dir path (dir_of i o children) = dir_of i (unless_empty path) children

unfoldable pub with_dirs : FilePath → FilePath → Dir
with_dirs i o = out_dir o (in_dir i new_dir)

unfoldable pub protocol : FilePath → FilePath → Dir → Dir
protocol in_file out_file (dir_of i o children) =
    dir_of i o
      (proto (record { in_file = in_file; out_file = out_file; formatted = true }) children)

unfoldable pub protocols : List (FilePath × FilePath) → Dir → Dir
protocols [] d = d
protocols ((in_file, out_file) ∷ paths) d = protocols paths (protocol in_file out_file d)

unfoldable pub add_dir : Dir → Dir → Dir
add_dir child (dir_of i o children) = dir_of i o (sub_dir child children)

pub data Event : Type 0 where
  enter_dir : (in_dir out_dir : Option FilePath) → Event
  on_protocol : Protocol → Event
  exit_dir : (in_dir out_dir : Bool) → Event

pub record IntoIter : Type 0 where
  pub first : Bool
  pub stack : List Dir

unfoldable pub into_iter : Dir → IntoIter
into_iter d = record { first = true; stack = d ∷ [] }

abbrev pub is_some : Option FilePath → Bool
is_some none = false
is_some (some path) = true

abbrev on_stack : List Dir → IntoIter
on_stack stack = record { first = false; stack = stack }

-- `next`, by the item that the directory on top of the stack gives up.
abbrev enter : Dir → Event
enter (dir_of i o children) = enter_dir i o

abbrev next_child : Option FilePath → Option FilePath → Children → List Dir → Event × IntoIter
next_child i o (sub_dir d rest) below = (enter d, on_stack (d ∷ dir_of i o rest ∷ below))
next_child i o (proto p rest) below = (on_protocol p, on_stack (dir_of i o rest ∷ below))
next_child i o no_child below = (exit_dir (is_some i) (is_some o), on_stack below)

abbrev next_of : Bool → List Dir → Option (Event × IntoIter)
next_of first [] = none
next_of true (dir_of i o children ∷ below) =
    some (enter_dir i o, on_stack (dir_of i o children ∷ below))
next_of false (dir_of i o children ∷ below) = some (next_child i o children below)

unfoldable pub next : IntoIter → Option (Event × IntoIter)
next s = next_of s.first s.stack

-- `Context`: the directories that were entered, the innermost first. (Its two buffers are cleared
-- before each use.)
pub record Context : Type 0 where
  pub in_dirs : List FilePath
  pub out_dirs : List FilePath

-- What happens for a protocol: a directory is created, and `crate::protocol` is called.
pub record Call : Type 0 where
  pub created : FilePath
  pub in_path : FilePath
  pub out_path : FilePath
  pub formatted : Bool

abbrev pub entered : Option FilePath → List FilePath → List FilePath
entered none dirs = dirs
entered (some path) dirs = path ∷ dirs

abbrev pop : List FilePath → List FilePath
pop [] = []
pop (path ∷ dirs) = dirs

abbrev once : Option FilePath → List FilePath
once none = []
once (some path) = path ∷ []

-- The arm for a protocol; `none` is the panic where the output file has no name.
unfoldable pub on_file : Context → Protocol → Option Call
on_file c p =
    let in_path = push (extend empty_path c.in_dirs) p.in_file in
    let out_dir_path = extend (extend empty_path c.out_dirs) (once (parent p.out_file)) in
    do
      name ← file_name p.out_file
      some (record {
        created = out_dir_path;
        in_path = in_path;
        out_path = push out_dir_path name;
        formatted = p.formatted;
      })

-- `Wayland::protocols`, one event and all of them.
unfoldable pub on_event : Context → Event → Option (List Call × Context)
on_event c (enter_dir i o) =
    some ([], record { in_dirs = entered i c.in_dirs; out_dirs = entered o c.out_dirs })
on_event c (on_protocol p) = do call ← on_file c p; some (call ∷ [], c)
on_event c (exit_dir i o) = some (
  [],
  record {
    in_dirs = if i then pop c.in_dirs else c.in_dirs;
    out_dirs = if o then pop c.out_dirs else c.out_dirs;
  },
)

unfoldable pub run : List Event → Context → Option (List Call)
run [] c = some []
run (e ∷ events) c = do (calls, c') ← on_event c e; rest ← run events c'; some (calls ++ rest)
