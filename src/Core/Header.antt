-- ===== src/Core/Header.antt =====
-- crates/core/src/message.rs: the header of a message; `new_id_dyn` of
-- crates/core/src/primitives/inner/object.rs; the event `wl_display.error` of
-- crates/core/src/wl_display.rs.
pub mod Law
use ecs_compositor.Prelude.{
  ℕ, ◌+◌, ◌-◌, ◌*◌, ◌/◌, ◌%◌, ◌^◌, bit_and, bit_or, List, Option, none, some, length,
}
use ecs_compositor.Prelude.Bits.{◌<<<◌, ◌>>>◌}
use ecs_compositor.Core.Value.{Value, Step, WriteBuf, ◌>>=◌, ◌>>◌, return}
use ecs_compositor.Core.Int.{uint}
use ecs_compositor.Core.Object.{Object, NewId, nonzero, object, new_id}
use ecs_compositor.Core.Array.{Str, string, option_string}

pub record MessageHeader : Type 0 where
  pub object_id : Object
  pub datalen : ℕ
  pub opcode : ℕ

-- `message_header::DATA_LEN`.
abbrev pub data_len : ℕ
data_len = 4 + 2 + 2

unfoldable pub split_word : Object → ℕ → MessageHeader
split_word o i = record {
  object_id = o;
  datalen = i >>> 16 % 2 ^ 16;
  opcode = bit_and i 0xffff % 2 ^ 16;
}

-- `(self.datalen as u32) << 16 | self.opcode as u32`.
unfoldable pub join_word : MessageHeader → ℕ
join_word h = bit_or (h.datalen <<< 16) h.opcode

unfoldable pub message_header : Value MessageHeader
message_header = record {
  fd_count = 0;
  len = λ h. data_len;
  read = do
    object_id ← object.read
    i ← uint.read
    return (split_word object_id i);
  write = λ h. do
    object.write h.object_id
    uint.write (join_word h);
}

-- `content_len`: a `u16` subtraction that wraps.
unfoldable pub content_len : MessageHeader → ℕ
content_len h = (h.datalen + 2 ^ 16 - data_len) % 2 ^ 16

pub record NewIdDyn : Type 0 where
  pub name : Str
  pub version : ℕ
  pub id : NewId

unfoldable pub new_id_dyn : Value NewIdDyn
new_id_dyn = record {
  fd_count = 0;
  len = λ n. ((string.len n.name + uint.len n.version) % 2 ^ 32 + new_id.len n.id) % 2 ^ 32;
  read = do
    name ← string.read
    version ← uint.read
    id ← new_id.read
    return (record { name = name; version = version; id = id });
  write = λ n. do
    string.write n.name
    uint.write n.version
    new_id.write n.id;
}

-- `event::error`. Its `read` is `unimplemented!()`, so it is no `Value` here.
pub record DisplayError : Type 0 where
  pub object : Object
  pub err : ℕ
  pub msg : List ℕ

-- `to_str`, for a text of less than 2 ^ 32 bytes (it panics on a longer one).
unfoldable pub to_str : List ℕ → Option Str
to_str str = elim (nonzero (length str)) [
  | none ↦ none
  | some len ↦ some (record { ptr = some str; len = len })
]

unfoldable pub display_error_len : DisplayError → ℕ
display_error_len e =
    ((object.len e.object + uint.len e.err) % 2 ^ 32 + option_string.len (to_str e.msg)) % 2 ^ 32

unfoldable pub display_error_write : DisplayError → Step WriteBuf (Unit {0})
display_error_write e = do
  object.write e.object
  uint.write e.err
  option_string.write (to_str e.msg)
