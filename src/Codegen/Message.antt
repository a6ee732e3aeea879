-- ===== src/Codegen/Message.antt =====
-- crates/codegen/src/generate.rs: the field types that `GenArg::new` chooses, and the `Value` of a
-- message that `generate_message` writes.
pub mod Law
pub mod Length
pub mod RoundTrip
use ecs_compositor.Prelude.{
  ℕ, suc, ◌+◌, List, [], ◌∷◌, Option, none, some, Bool, true, false, if◌then◌else◌,
}
use ecs_compositor.Prelude.Int.{ℤ}
use ecs_compositor.Core.Value.{Value, RawFd, return}
use ecs_compositor.Core.Value.Seq.{seq}
use ecs_compositor.Core.Int
use ecs_compositor.Core.Object
use ecs_compositor.Core.Object.{Object, NewId}
use ecs_compositor.Core.Array
use ecs_compositor.Core.Array.{Array, Str}
use ecs_compositor.Core.Header
use ecs_compositor.Core.Header.{NewIdDyn}

-- The types of the arguments in a protocol file. (`Destructor` is the type of no argument.)
pub data ArgType : Type 0 where
  int uint fixed array string new_id object fd : ArgType

pub record Arg : Type 0 where
  pub typ : ArgType
  pub has_interface : Bool
  pub allow_null : Bool

-- The field types with an implementation of `Value`.
pub data FieldType : Type 0 where
  int uint fixed array string option_string new_id new_id_dyn object option_object fd : FieldType

-- `GenArg::new`; `none` where the field would have a type with no implementation, such as
-- `Option<int>`, so that the generated code does not compile.
unless_null : FieldType → Bool → Option FieldType
unless_null t null = if null then none else some t

choose : ArgType → Bool → Bool → Option FieldType
choose ArgType.int _ null = unless_null FieldType.int null
choose ArgType.uint _ null = unless_null FieldType.uint null
choose ArgType.fixed _ null = unless_null FieldType.fixed null
choose ArgType.array _ null = unless_null FieldType.array null
choose ArgType.fd _ null = unless_null FieldType.fd null
choose ArgType.new_id true null = unless_null FieldType.new_id null
choose ArgType.new_id false null = unless_null FieldType.new_id_dyn null
choose ArgType.string _ false = some FieldType.string
choose ArgType.string _ true = some FieldType.option_string
choose ArgType.object _ false = some FieldType.object
choose ArgType.object _ true = some FieldType.option_object

unfoldable pub field_type : Arg → Option FieldType
unfolding choose unless_null
field_type arg = choose arg.typ arg.has_interface arg.allow_null

abbrev pub Field : FieldType → Type 0
Field FieldType.int = ℤ
Field FieldType.uint = ℕ
Field FieldType.fixed = ℤ
Field FieldType.array = Array
Field FieldType.string = Str
Field FieldType.option_string = Option Str
Field FieldType.new_id = NewId
Field FieldType.new_id_dyn = NewIdDyn
Field FieldType.object = Object
Field FieldType.option_object = Option Object
Field FieldType.fd = RawFd

-- `<typ>::read`, `len` and `write`.
unfoldable pub field : (t : FieldType) → Value (Field t)
field FieldType.int = Int.int
field FieldType.uint = Int.uint
field FieldType.fixed = Int.fixed
field FieldType.array = Array.array
field FieldType.string = Array.string
field FieldType.option_string = Array.option_string
field FieldType.new_id = Object.new_id
field FieldType.new_id_dyn = Header.new_id_dyn
field FieldType.object = Object.object
field FieldType.option_object = Object.option_object
field FieldType.fd = Int.fd

-- The struct of a message: a tuple of its fields.
abbrev pub Fields : List FieldType → Type 0
Fields [] = Unit {0}
Fields (t ∷ ts) = Field t × Fields ts

-- `#(#fields_read)*`, `0 #(#fields_write_len)*` and `#(#fields_write)*`.
unfoldable pub fields : (ts : List FieldType) → Value (Fields ts)
fields [] = record { fd_count = 0; len = λ _. 0; read = return tt; write = λ _. return tt }
fields (t ∷ ts) = seq (field t) (fields ts)

abbrev pub is_fd : FieldType → Bool
is_fd FieldType.fd = true
is_fd _ = false

-- `args.iter().filter(|arg| matches!(arg.typ, Type::Fd)).count()`.
unfoldable pub count_fds : List FieldType → ℕ
count_fds [] = 0
count_fds (t ∷ ts) = let rest = count_fds ts in if is_fd t then suc rest else rest

unfoldable pub message : (ts : List FieldType) → Value (Fields ts)
message ts = record (fields ts) { fd_count = count_fds ts }
