-- ===== src/Codegen/Builder/Tests.antt =====
-- The protocol builder on a tree with a directory below another.
use ecs_compositor.Prelude.{◌≡◌, refl, [], ◌∷◌, arith, String, true, false, some, none}
use ecs_compositor.Codegen.Builder.Paths.{FilePath, normal, parent_dir}
use ecs_compositor.Codegen.Builder.{
  Dir, dir_of, no_child, sub_dir, proto, on_file, with_dirs, protocol, add_dir, in_dir, out_dir,
  into_iter,
}
use ecs_compositor.Codegen.Builder.Walk.{walk, collect, collect-walk}
use ecs_compositor.Codegen.Builder.Resolve.{start, resolve}

abbrev named : String → FilePath
named name = record { absolute = false; components = normal name ∷ [] }

abbrev tree : Dir
tree = dir_of (some (named "protocols")) (some (named "out")) (
    sub_dir
      (dir_of (some (named "stable")) none
        (proto (record { in_file = named "a"; out_file = named "b"; formatted = true }) no_child))
      (proto (record { in_file = named "c"; out_file = named "d"; formatted = true }) no_child))

-- The builder methods give that tree.
tree-built :
    add_dir
      (protocol (named "a") (named "b") (in_dir (named "stable") (dir_of none none no_child)))
      (protocol (named "c") (named "d") (with_dirs (named "protocols") (named "out")))
    ≡ tree
unfolding add_dir protocol in_dir with_dirs out_dir
tree-built = refl

collect-walk_example : collect 9 (into_iter tree) ≡ some (walk tree)
unfolding walk
collect-walk_example = collect-walk tree 9 (omega arith)

-- A file is read and written below the directories that it stands in, the outer ones first.
abbrev at : String → String → FilePath
at a b = record { absolute = false; components = normal a ∷ normal b ∷ [] }

resolved :
    resolve start tree
    ≡ some (
        record {
          created = named "out";
          in_path = record {
            absolute = false;
            components = normal "protocols" ∷ normal "stable" ∷ normal "a" ∷ [];
          };
          out_path = at "out" "b";
          formatted = true;
        }
        ∷ record {
          created = named "out";
          in_path = at "protocols" "c";
          out_path = at "out" "d";
          formatted = true;
        }
        ∷ [])
unfolding resolve on_file
resolved = refl

-- An output file without a name is a panic.
no_name :
    on_file start (record {
      in_file = named "a";
      out_file = record { absolute = false; components = parent_dir ∷ [] };
      formatted = true;
    })
    ≡ none
unfolding on_file
no_name = refl
