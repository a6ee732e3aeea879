-- ===== src/WaylandTokio/Recv/Cursor/Messages.antt =====
-- A cursor reads the messages that stand in the memory of a handle.
use ecs_compositor.Prelude.{
  ℕ, zero, suc, ◌+◌, ◌^◌, ◌<◌, ◌≡◌, refl, sym, ap, subst, ◌∙◌, List, [], ◌∷◌, ◌++◌, append-nil,
  Bool, true, Option, none, some, arith, length, drop-append, if◌then◌else◌,
}
use ecs_compositor.Core.Error.{Result, ok}
use ecs_compositor.Core.Value.{RawFd}
use ecs_compositor.Core.Value.Law.{read_buf}
use ecs_compositor.Core.Header.{MessageHeader, message_header, content_len}
use ecs_compositor.Core.Header.Law.{IsHeader, header_format, message_header-Lawful}
use ecs_compositor.WaylandTokio.Recv.{BufSpan}
use ecs_compositor.WaylandTokio.Recv.Cursor.{
  Offset, Len, Buf, hdr_len, advanced, parsed, with_buf, peek_hdr, peek_msg, with_body, with_len,
  with_hdr, read_msg, cursor,
}
use ecs_compositor.WaylandTokio.Recv.Cursor.Part.{
  Part-behind, DataAt, RightsAt, peek_buf-front, peek_buf-end,
}

-- A message in the memory: its header, the eight bytes that held the header before, its body and
-- its descriptors.
pub record Stored : Type 0 where
  pub hdr : MessageHeader
  pub old : List ℕ
  pub body : List ℕ
  pub fds : List RawFd

abbrev pub header_bytes : Stored → List ℕ
header_bytes m = header_format.image m.hdr m.old

-- The header announces the message and itself, and it has the number of descriptors that its opcode
-- stands for.
pub record IsStored (ctrl_len : MessageHeader → Result ℕ) (m : Stored) : Type 0 where
  pub valid : IsHeader m.hdr
  pub eight : length m.old ≡ 8
  pub announced : m.hdr.datalen ≡ 8 + length m.body
  pub counted : ctrl_len m.hdr ≡ ok (length m.fds)

abbrev pub bytes_of : List Stored → List ℕ
bytes_of [] = []
bytes_of (m ∷ ms) = header_bytes m ++ (m.body ++ bytes_of ms)

abbrev pub fds_of : List Stored → List RawFd
fds_of [] = []
fds_of (m ∷ ms) = m.fds ++ fds_of ms

pub header_read :
    (m : Stored)
    → IsHeader m.hdr
    → length m.old ≡ 8
    → message_header.read (read_buf (header_bytes m) []) ≡ (ok m.hdr, read_buf [] [])
header_read m v e =
    let (h, r, same) = message_header-Lawful.reads m.hdr m.old [] [] v e in
    subst
      (λ (k : MessageHeader).
        message_header.read (read_buf (header_bytes m) []) ≡ (ok k, read_buf [] []))
      (sym same)
      (ap (λ l. message_header.read (read_buf l [])) (sym (append-nil (header_bytes m))) ∙ r)

content_len-stored :
    (hdr : MessageHeader) (n : ℕ) → hdr.datalen < 2 ^ 16 → hdr.datalen ≡ 8 + n → content_len hdr ≡ n
unfolding content_len
content_len-stored hdr n d e = omega arith

abbrev pub Found : Type 0
Found = Result (Option (MessageHeader × Buf))

-- What the calls find: each message, and nothing behind the last.
abbrev pub messages : List Stored → List Found
messages [] = ok none ∷ []
messages (m ∷ ms) = ok (some (m.hdr, record { da = m.body; ct = m.fds })) ∷ messages ms

abbrev pub AllStored : (MessageHeader → Result ℕ) → List Stored → Type 0
AllStored ctrl_len [] = Unit {0}
AllStored ctrl_len (m ∷ ms) = IsStored ctrl_len m × AllStored ctrl_len ms

module _ (memory : List ℕ) (rights : List RawFd) (span : BufSpan) where
  -- The messages that are left in front of a cursor.
  abbrev pub Ahead : Offset → List Stored → Type 0
  Ahead offset ms =
      DataAt memory rights span offset.da (bytes_of ms)
      × RightsAt memory rights span offset.ct (fds_of ms)

  abbrev behind : Offset → Stored → Offset
  behind offset m =
      advanced (advanced offset hdr_len) (record { da = length m.body; ct = length m.fds })

  module _ (ctrl_len : MessageHeader → Result ℕ) (m : Stored) (v : IsStored ctrl_len m) where
    length-header : length (header_bytes m) ≡ 8
    length-header = message_header-Lawful.length_image m.hdr m.old v.valid v.eight

    module _ (offset : Offset) (ms : List Stored) (at : Ahead offset (m ∷ ms)) where
      peek_hdr-front : peek_hdr memory rights span offset ≡ ok (some m.hdr)
      unfolding peek_hdr
      peek_hdr-front =
          ap (with_buf memory rights span) (
            peek_buf-front memory rights span offset hdr_len (header_bytes m)
              (m.body ++ bytes_of ms) [] (fds_of (m ∷ ms)) at.0 at.1 length-header refl)
          ∙ ap (parsed memory rights span) (header_read m v.valid v.eight)

      behind_header : DataAt memory rights span (advanced offset hdr_len).da (m.body ++ bytes_of ms)
      behind_header =
          subst (λ n. DataAt memory rights span n (m.body ++ bytes_of ms))
            {x = offset.da + length (header_bytes m)} {y = offset.da + 8}
            (omega (arith, length-header))
            (Part-behind (header_bytes m) (m.body ++ bytes_of ms) at.0)

      rights_behind_header :
          RightsAt memory rights span (advanced offset hdr_len).ct (fds_of (m ∷ ms))
      rights_behind_header =
          subst (λ n. RightsAt memory rights span n (fds_of (m ∷ ms))) {x = offset.ct}
            {y = offset.ct + 0} (omega arith) at.1

      pub read_msg-front :
          (advance : Bool)
          → read_msg memory rights span ctrl_len advance offset ≡ (
            ok (some (m.hdr, record { da = m.body; ct = m.fds })),
            if advance then behind offset m else offset,
          )
      unfolding read_msg
      read_msg-front advance =
          ap (with_hdr memory rights span ctrl_len advance offset) peek_hdr-front
          ∙ ap (with_len memory rights span ctrl_len advance offset m.hdr) v.counted
          ∙ ap (λ n. with_content n)
              (content_len-stored m.hdr (length m.body) v.valid.1 v.announced)
          ∙ ap (with_body memory rights span ctrl_len advance offset m.hdr body_len) (
              peek_buf-front memory rights span (advanced offset hdr_len) body_len m.body
                (bytes_of ms) m.fds (fds_of ms) behind_header rights_behind_header refl refl)
        where
          body_len : Len
          body_len = record { da = length m.body; ct = length m.fds }

          with_content : ℕ → Result (Option (MessageHeader × Buf)) × Offset
          with_content n =
              let len : Len = record { da = n; ct = length m.fds } in
              with_body memory rights span ctrl_len advance offset m.hdr len
                (peek_msg memory rights span offset len)

      pub behind-Ahead : Ahead (behind offset m) ms
      behind-Ahead = (
        Part-behind m.body (bytes_of ms) behind_header,
        Part-behind m.fds (fds_of ms) rights_behind_header,
      )

  -- What a number of calls of `Cursor::read_msg` find.
  unfoldable pub reads : (MessageHeader → Result ℕ) → ℕ → Offset → List Found
  reads ctrl_len zero offset = []
  reads ctrl_len (suc count) offset =
      let (found, offset') = read_msg memory rights span ctrl_len true offset in
      found ∷ reads ctrl_len count offset'

  read_msg-end :
      (ctrl_len : MessageHeader → Result ℕ) (offset : Offset)
      → Ahead offset []
      → read_msg memory rights span ctrl_len true offset ≡ (ok none, offset)
  unfolding read_msg peek_hdr
  read_msg-end ctrl_len offset at =
      ap (λ b. with_hdr memory rights span ctrl_len true offset (with_buf memory rights span b))
        (peek_buf-end memory rights span offset at.0)

  reads-messages :
      (ctrl_len : MessageHeader → Result ℕ) (ms : List Stored) (offset : Offset)
      → AllStored ctrl_len ms
      → Ahead offset ms
      → reads ctrl_len (suc (length ms)) offset ≡ messages ms
  unfolding reads
  reads-messages ctrl_len [] offset v at =
      ap (λ (p : Found × Offset). p.0 ∷ []) (read_msg-end ctrl_len offset at)
  reads-messages ctrl_len (m ∷ ms) offset (v, vs) at =
      ap (λ (p : Found × Offset). p.0 ∷ reads ctrl_len (suc (length ms)) p.1)
        (read_msg-front ctrl_len m v offset ms at true)
      ∙ ap (λ l. ok (some (m.hdr, record { da = m.body; ct = m.fds })) ∷ l)
          (reads-messages ctrl_len ms (behind offset m) vs (behind-Ahead ctrl_len m v offset ms at))

-- Messages that stand one behind the other in the memory of a handle, whatever is around them,
-- each with a valid header that announces its body and for which the caller knows the number of
-- descriptors: a cursor over the handle reads them in this order, with headers, bodies and
-- descriptors, and then nothing.
pub reads-stored :
    (ctrl_len : MessageHeader → Result ℕ) (ms : List Stored) (span : BufSpan)
    (before after : List ℕ) (before_fds after_fds : List RawFd)
    → AllStored ctrl_len ms
    → length before ≡ span.da
    → length (bytes_of ms) ≡ span.da_len
    → length before_fds ≡ span.ct
    → length (fds_of ms) ≡ span.ct_len
    → reads
        (before ++ (bytes_of ms ++ after))
        (before_fds ++ (fds_of ms ++ after_fds))
        span
        ctrl_len
        (suc (length ms))
        (cursor span)
      ≡ messages ms
reads-stored ctrl_len ms span before after before_fds after_fds v d n c k =
    reads-messages _ _ span ctrl_len ms (cursor span) v (
      record {
        from = omega arith;
        up_to = omega arith;
        rest = after;
        there = drop-append span.da before (bytes_of ms ++ after) d;
      },
      record {
        from = omega arith;
        up_to = omega arith;
        rest = after_fds;
        there = drop-append span.ct before_fds (fds_of ms ++ after_fds) c;
      },
    )
