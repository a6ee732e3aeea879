-- ===== src/Codegen/Opcodes.antt =====
-- crates/codegen/src/generate.rs: the opcodes of the messages of an interface, and its enumerations.
--
-- A name is the list of its characters. The arms of a generated `match` are a list; an arm that
-- comes first is taken. A variant is its name.
pub mod Lookup
pub mod Known
pub mod Tests
use ecs_compositor.Prelude.{
  ℕ, suc, ◌+◌, ◌^◌, List, [], ◌∷◌, Bool, true, false, Option, none, some, ◌==◌, ◌&&◌, if◌then◌else◌,
  ltb,
}
use ecs_compositor.Codegen.Message.{ArgType, Arg}

abbrev pub Name : Type 0
Name = List ℕ

abbrev pub same_name : Name → Name → Bool
same_name [] [] = true
same_name [] (d ∷ ds) = false
same_name (c ∷ cs) [] = false
same_name (c ∷ cs) (d ∷ ds) = c == d && same_name cs ds

-- `typ_name`, with `char::is_numeric` of the standard library. (`unwrap` of a name without a
-- character is a panic.)
abbrev pub keyword : Name
keyword = 109 ∷ 111 ∷ 118 ∷ 101 ∷ []

module _ (is_numeric : ℕ → Bool) where
  abbrev pub prefixed : Bool → Name → Name
  prefixed true name = 95 ∷ name
  prefixed false name = name

  unfoldable pub typ_name : Name → Option Name
  typ_name [] = none
  typ_name (c ∷ cs) =
      if is_numeric c
      then some (prefixed true (c ∷ cs))
      else some (prefixed (same_name (c ∷ cs) keyword) (c ∷ cs))

-- A message of a protocol file, with the name of its variant.
pub record Message : Type 0 where
  pub variant : Name
  pub args : List Arg

-- A `match` on a number, and one on a variant.
unfoldable pub match_number : {A : Type 0} → ℕ → List (ℕ × A) → Option A
match_number i [] = none
match_number i ((j, a) ∷ arms) = if i == j then some a else match_number i arms

unfoldable pub match_variant : {A : Type 0} → Name → List (Name × A) → Option A
match_variant v [] = none
match_variant v ((w, a) ∷ arms) = if same_name v w then some a else match_variant v arms

-- `from_u16` and the discriminants, from a first number on.
abbrev pub number_arms : ℕ → List Message → List (ℕ × Name)
number_arms i [] = []
number_arms i (m ∷ ms) = (i, m.variant) ∷ number_arms (i + 1) ms

abbrev pub discriminants : ℕ → List Message → List (Name × ℕ)
discriminants i [] = []
discriminants i (m ∷ ms) = (m.variant, i) ∷ discriminants (i + 1) ms

-- `msg.args.iter().filter(|arg| matches!(arg.typ, Type::Fd)).count()`.
abbrev pub is_fd_type : ArgType → Bool
is_fd_type ArgType.fd = true
is_fd_type _ = false

unfoldable pub arg_fds : List Arg → ℕ
arg_fds [] = 0
arg_fds (arg ∷ args) = let rest = arg_fds args in if is_fd_type arg.typ then suc rest else rest

abbrev pub fd_arms : List Message → List (Name × ℕ)
fd_arms [] = []
fd_arms (m ∷ ms) = (m.variant, arg_fds m.args) ∷ fd_arms ms

-- The generated `Opcode`: an unknown number is given back.
pub data Decoded : Type 0 where
  known : Name → Decoded
  unknown : ℕ → Decoded

abbrev pub decoded : ℕ → Option Name → Decoded
decoded i (some v) = known v
decoded i none = unknown i

unfoldable pub from_u16 : List Message → ℕ → Decoded
unfolding match_number
from_u16 ms i = decoded i (match_number i (number_arms 0 ms))

-- `self as u16`.
unfoldable pub to_u16 : List Message → Name → Option ℕ
to_u16 ms v = match_variant v (discriminants 0 ms)

unfoldable pub fd_count : List Message → Name → Option ℕ
fd_count ms v = match_variant v (fd_arms ms)

-- `InterfaceDir::recv_fd_count`.
abbrev pub counted : List Message → Decoded → Option ℕ
counted ms (known v) = fd_count ms v
counted ms (unknown i) = none

unfoldable pub recv_fd_count : List Message → ℕ → Option ℕ
recv_fd_count ms i = counted ms (from_u16 ms i)
