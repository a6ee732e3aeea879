-- ===== src/Core/Object.antt =====
-- crates/core/src/primitives/inner/object.rs: object ids. The interface that a type parameter
-- carries has no run-time content and is left out. A `NonZero<u32>` is a number that is not 0.
pub mod Law
use ecs_compositor.Prelude.{ℕ, Option, none, some, ◌==◌, if◌then◌else◌}
use ecs_compositor.Core.Error.{ErrorCode, with_msg, ProtocolError}
use ecs_compositor.Core.Value.{Value, Step, ReadBuf, WriteBuf, read_u32, write_u32}
use ecs_compositor.Core.Value.{◌>>=◌, return}
use ecs_compositor.Core.Int.{ok_or}

pub record Object : Type 0 where
  pub id : ℕ

pub record NewId : Type 0 where
  pub id : ℕ

-- `NonZero::new`.
unfoldable pub nonzero : ℕ → Option ℕ
nonzero w = if w == 0 then none else some w

abbrev pub from_id : ℕ → Object
from_id n = record { id = n }

abbrev pub to_new_id : Object → NewId
to_new_id o = record { id = o.id }

abbrev pub to_object : NewId → Object
to_object n = record { id = n.id }

abbrev pub read_id_error : ProtocolError
read_id_error = with_msg ErrorCode.invalid_method "failed to read object id"

abbrev pub write_id_error : ProtocolError
write_id_error = with_msg ErrorCode.implementation "not enough write buffer space"

abbrev pub null_object : ProtocolError
null_object = with_msg ErrorCode.invalid_method "null object not allowed here"

abbrev pub null_new_id : ProtocolError
null_new_id = with_msg ErrorCode.implementation "id with value 0 is not allowed here"

unfoldable pub read_id : Step ReadBuf (Option ℕ)
read_id = do w ← read_u32 read_id_error; return (nonzero w)

unfoldable pub write_id : ℕ → Step WriteBuf (Unit {0})
write_id id = write_u32 write_id_error id

unfoldable pub object : Value Object
object = record {
  fd_count = 0;
  len = λ o. 4;
  read = do
    found ← read_id
    id ← ok_or found null_object
    return (from_id id);
  write = λ o. write_id o.id;
}

abbrev pub optional_object : Option ℕ → Option Object
optional_object none = none
optional_object (some id) = some (from_id id)

abbrev pub optional_id : Option Object → ℕ
optional_id none = 0
optional_id (some o) = o.id

-- `Value for Option<object<I>>`.
unfoldable pub option_object : Value (Option Object)
option_object = record {
  fd_count = 0;
  len = λ o. 4;
  read = do
    found ← read_id
    return (optional_object found);
  write = λ o. write_id (optional_id o);
}

unfoldable pub new_id : Value NewId
new_id = record {
  fd_count = 0;
  len = λ n. 4;
  read = do
    found ← read_id
    id ← ok_or found null_new_id
    return (record { id = id });
  write = λ n. write_id n.id;
}
