-- ===== src/Codegen/Builder/Paths.antt =====
-- What the protocol builder uses of the standard library's paths, which are read by their
-- components, and the chains of `Option`.
use ecs_compositor.Prelude.{
  String, List, [], ◌∷◌, ◌++◌, Bool, true, false, Option, none, some, if◌then◌else◌,
}

-- `std::path::Component`, but for the root.
pub data Component : Type 0 where
  normal : String → Component
  parent_dir cur_dir : Component

pub record FilePath : Type 0 where
  pub absolute : Bool
  pub components : List Component

abbrev pub empty_path : FilePath
empty_path = record { absolute = false; components = [] }

-- The empty path is the one that is written as the empty text.
abbrev no_component : List Component → Bool
no_component [] = true
no_component (c ∷ cs) = false

abbrev pub is_empty : FilePath → Bool
is_empty p = if p.absolute then false else no_component p.components

-- `PathBuf::push`: an absolute path takes the place of the other.
abbrev pub push : FilePath → FilePath → FilePath
push p q =
    if q.absolute
    then q
    else record { absolute = p.absolute; components = p.components ++ q.components }

-- `PathBuf::extend`, of a list whose last item stands first.
abbrev pub extend : FilePath → List FilePath → FilePath
extend p [] = p
extend p (q ∷ qs) = push (extend p qs) q

-- The last component, and those in front of it.
abbrev pub last : List Component → Option Component
last [] = none
last (c ∷ []) = some c
last (c ∷ d ∷ ds) = last (d ∷ ds)

abbrev pub but_last : List Component → List Component
but_last [] = []
but_last (c ∷ []) = []
but_last (c ∷ d ∷ ds) = c ∷ but_last (d ∷ ds)

abbrev named : Option Component → Option FilePath
named (some (normal name)) = some (record { absolute = false; components = normal name ∷ [] })
named (some parent_dir) = none
named (some cur_dir) = none
named none = none

-- `Path::file_name`: a last component that is a name.
abbrev pub file_name : FilePath → Option FilePath
file_name p = named (last p.components)

-- `Path::parent`: nothing is above a path without a component.
abbrev pub parent : FilePath → Option FilePath
parent p =
    if no_component p.components
    then none
    else some (record { absolute = p.absolute; components = but_last p.components })

infixl 5 ◌>>=◌
abbrev pub ◌>>=◌ {ℓ κ} : {A : Type ℓ} {B : Type κ} → Option A → (A → Option B) → Option B
none >>= f = none
some a >>= f = f a
