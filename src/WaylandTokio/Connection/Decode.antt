-- ===== src/WaylandTokio/Connection/Decode.antt =====
-- What a task does with a message that `Recv::poll` hands out (`MsgBuf` of
-- crates/wayland-tokio/src/connection/recv.rs).
pub mod Sent
use ecs_compositor.Prelude.{ℕ, List, Option, none, some}
use ecs_compositor.Core.Error.{Result}
use ecs_compositor.Core.Value.{Value, RawFd}
use ecs_compositor.Core.Value.Law.{read_buf}
use ecs_compositor.Core.Header.{MessageHeader}
use ecs_compositor.Codegen.Opcodes.{Name, Message, Decoded, known, unknown, from_u16}

pub record MsgBuf : Type 0 where
  pub hdr : MessageHeader
  pub da : List ℕ
  pub fd : List RawFd

-- `unwrap` of an unknown opcode is a panic.
abbrev pub unwrapped : Decoded → Option Name
unwrapped (known v) = some v
unwrapped (unknown i) = none

unfoldable pub decode_opcode : List Message → MsgBuf → Option Name
decode_opcode ms buf = unwrapped (from_u16 ms buf.hdr.opcode)

unfoldable pub decode_msg : {A : Type 0} → Value A → MsgBuf → Result A
decode_msg V buf = (V.read (read_buf buf.da buf.fd)).0
