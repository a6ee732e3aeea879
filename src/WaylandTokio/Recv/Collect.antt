-- ===== src/WaylandTokio/Recv/Collect.antt =====
-- `collect_chunks` of crates/wayland-tokio/src/buf/recv/io.rs: the messages in the receive buffer
-- that go into one handle.
pub mod Cover
pub mod Handle
pub mod Ends
pub mod Stuck
use ecs_compositor.Prelude.{
  ℕ, zero, suc, ◌+◌, List, [], ◌∷◌, Bool, true, false, Option, none, some, take, drop, ◌==◌, ◌&&◌,
  not, if◌then◌else◌,
}
use ecs_compositor.Core.Error.{Result, ok, fail}
use ecs_compositor.Core.Value.{ReadBuf}
use ecs_compositor.Core.Value.Law.{read_buf}
use ecs_compositor.Core.Header.{MessageHeader, message_header, data_len}
use ecs_compositor.WaylandTokio.Span.{Range, consume}
use ecs_compositor.WaylandTokio.Recv.{Bufs, BufSpan, Slices, read_slices}

-- The trait `Callback`, of an implementation with the state `S`.
pub record Callback (S : Type 0) : Type 0 where
  pub should_include : S → MessageHeader → Bool × S
  pub fd_count : S → MessageHeader → ℕ × S

-- Why the loop ends: the handle would not be contiguous, a header or a message is not there yet, the
-- callback does not include the next one, a header is invalid; or the rounds of the run are over.
pub data Stop : Type 0 where
  not_contiguous no_header excluded no_message parse_error looping : Stop

pub record Collected (S : Type 0) : Type 0 where
  pub stop : Stop
  pub bufs : Bufs
  pub span : BufSpan
  pub state : S

abbrev pub collected : {S : Type 0} → Stop → Bufs → BufSpan → S → Collected S
collected p b h s = record { stop = p; bufs = b; span = h; state = s }

-- `data + data_len == bufs.recv.data.free && ctrl + ctrl_len == bufs.recv.ctrl.free`.
abbrev pub contiguous : Bufs → BufSpan → Bool
contiguous b h = h.da + h.da_len == b.recv.da.free && h.ct + h.ct_len == b.recv.ct.free

-- The memory of a slice.
abbrev pub bytes_at : List ℕ → Option Range → List ℕ
bytes_at memory none = []
bytes_at memory (some r) = take data_len (drop r.start memory)

-- A message is taken off the receive spans, and put into the handle.
abbrev pub consumed : ℕ → ℕ → Bufs → Bufs
consumed da ct b = record b {
  recv = record { da = consume b.recv.da da; ct = consume b.recv.ct ct };
}

abbrev pub extended : ℕ → ℕ → BufSpan → BufSpan
extended da ct h = record h { da_len = h.da_len + da; ct_len = h.ct_len + ct; count = h.count + 1 }

-- One round of the loop: it ends, or a message has gone into the handle.
pub data Round (S : Type 0) : Type 0 where
  ends : Collected S → Round S
  message : Bufs → BufSpan → S → Round S

module _ {S : Type 0} (cb : Callback S) (memory : List ℕ) where
  abbrev pub with_body : ℕ → ℕ → BufSpan → S → Option Slices × Bufs → Round S
  with_body da ct h s (none, b) = ends (collected no_message b h s)
  with_body da ct h s (some slices, b) = message (consumed da ct b) (extended da ct h) s

  abbrev pub with_count : MessageHeader → Bufs → BufSpan → ℕ × S → Round S
  with_count hdr b h (ct, s) = with_body hdr.datalen ct h s (read_slices hdr.datalen ct true b)

  abbrev pub if_included : MessageHeader → Bufs → BufSpan → Bool × S → Round S
  if_included hdr b h (true, s) = with_count hdr b h (cb.fd_count s hdr)
  if_included hdr b h (false, s) = ends (collected excluded b h s)

  abbrev pub with_header : Bufs → BufSpan → S → Result MessageHeader × ReadBuf → Round S
  with_header b h s (ok hdr, rest) = if_included hdr b h (cb.should_include s hdr)
  with_header b h s (fail e, rest) = ends (collected parse_error b h s)

  abbrev pub with_slices : BufSpan → S → Option Slices × Bufs → Round S
  with_slices h s (none, b) = ends (collected no_header b h s)
  with_slices h s (some slices, b) =
      with_header b h s (message_header.read (read_buf (bytes_at memory slices.da) []))

  unfoldable pub round : Bufs → BufSpan → S → Round S
  round b h s =
      if contiguous b h
      then with_slices h s (read_slices data_len 0 false b)
      else ends (collected not_contiguous b h s)

  abbrev pub continue : (Bufs → BufSpan → S → Collected S) → Round S → Collected S
  continue next (ends c) = c
  continue next (message b h s) = next b h s

  unfoldable pub collect_chunks : ℕ → Bufs → BufSpan → S → Collected S
  collect_chunks zero b h s = collected looping b h s
  collect_chunks (suc rounds) b h s =
      continue (λ b' h' s'. collect_chunks rounds b' h' s') (round b h s)
