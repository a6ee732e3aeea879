-- ===== src/WaylandTokio/Recv/Cursor.antt =====
-- The cursor over the messages of a handle (crates/wayland-tokio/src/buf/recv/recv_handle.rs).
--
-- The memory of the receive buffer is a list of bytes and one of descriptors.
pub mod Part
pub mod Messages
use ecs_compositor.Prelude.{
  ℕ, ◌+◌, ◌-◌, List, Bool, true, false, Option, none, some, take, drop, leb, ◌&&◌, if◌then◌else◌,
}
use ecs_compositor.Core.Error.{Result, ok, fail}
use ecs_compositor.Core.Value.{RawFd, ReadBuf, split_at}
use ecs_compositor.Core.Value.Law.{read_buf}
use ecs_compositor.Core.Header.{MessageHeader, message_header, data_len, content_len}
use ecs_compositor.WaylandTokio.Recv.{BufSpan}

pub record Offset : Type 0 where
  pub da : ℕ
  pub ct : ℕ

pub record Len : Type 0 where
  pub da : ℕ
  pub ct : ℕ

pub record Buf : Type 0 where
  pub da : List ℕ
  pub ct : List RawFd

-- `Len::HDR`, and the sum of an `Offset` and a `Len`.
abbrev pub hdr_len : Len
hdr_len = record { da = data_len; ct = 0 }

abbrev pub advanced : Offset → Len → Offset
advanced offset len = record { da = offset.da + len.da; ct = offset.ct + len.ct }

module _ (memory : List ℕ) (rights : List RawFd) (span : BufSpan) where
  -- `data_slice` and `ctrl_slice`: from the offset to the end of the span.
  abbrev pub data_slice : ℕ → List ℕ
  data_slice offset = take (span.da_len - (offset - span.da)) (drop offset memory)

  abbrev pub ctrl_slice : ℕ → List RawFd
  ctrl_slice offset = take (span.ct_len - (offset - span.ct)) (drop offset rights)

  abbrev pub in_span : Offset → Len → Bool
  in_span offset len =
      leb span.da offset.da
      && leb (offset.da + len.da) (span.da + span.da_len)
      && leb span.ct offset.ct
      && leb (offset.ct + len.ct) (span.ct + span.ct_len)

  abbrev both : Option (List ℕ × List ℕ) → Option (List RawFd × List RawFd) → Option Buf
  both (some (da, rest)) (some (ct, rest')) = some (record { da = da; ct = ct })
  both (some (da, rest)) none = none
  both none ct = none

  unfoldable pub peek_buf : Offset → Len → Option Buf
  peek_buf offset len =
      if in_span offset len
      then both (split_at (data_slice offset.da) len.da) (split_at (ctrl_slice offset.ct) len.ct)
      else none

  abbrev pub parsed : Result MessageHeader × ReadBuf → Result (Option MessageHeader)
  parsed (ok hdr, rest) = ok (some hdr)
  parsed (fail e, rest) = fail e

  abbrev pub with_buf : Option Buf → Result (Option MessageHeader)
  with_buf none = ok none
  with_buf (some buf) = parsed (message_header.read (read_buf buf.da buf.ct))

  unfoldable pub peek_hdr : Offset → Result (Option MessageHeader)
  unfolding message_header
  peek_hdr offset = with_buf (peek_buf offset hdr_len)

  abbrev pub peek_msg : Offset → Len → Option Buf
  peek_msg offset len = peek_buf (advanced offset hdr_len) len

  module _ (ctrl_len : MessageHeader → Result ℕ) (advance : Bool) where
    abbrev pub Read : Type 0
    Read = Result (Option (MessageHeader × Buf)) × Offset

    abbrev pub with_body : Offset → MessageHeader → Len → Option Buf → Read
    with_body offset hdr len none = (ok none, offset)
    with_body offset hdr len (some buf) =
        (ok (some (hdr, buf)), if advance then advanced (advanced offset hdr_len) len else offset)

    abbrev pub with_len : Offset → MessageHeader → Result ℕ → Read
    with_len offset hdr (fail e) = (fail e, offset)
    with_len offset hdr (ok ct) =
        let len : Len = record { da = content_len hdr; ct = ct } in
        with_body offset hdr len (peek_msg offset len)

    abbrev pub with_hdr : Offset → Result (Option MessageHeader) → Read
    with_hdr offset (fail e) = (fail e, offset)
    with_hdr offset (ok none) = (ok none, offset)
    with_hdr offset (ok (some hdr)) = with_len offset hdr (ctrl_len hdr)

    -- `read_msg`, and `Cursor::read_msg` and `Cursor::peek_msg` with `advance` and without.
    unfoldable pub read_msg : Offset → Read
    read_msg offset = with_hdr offset (peek_hdr offset)

-- `RecvHandle::cursor`.
abbrev pub cursor : BufSpan → Offset
cursor span = record { da = span.da; ct = span.ct }
