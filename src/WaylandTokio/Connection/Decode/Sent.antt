-- ===== src/WaylandTokio/Connection/Decode/Sent.antt =====
-- A message of an interface from its sender to the task that decodes it.
use ecs_compositor.Prelude.{
  ℕ, ◌+◌, ◌^◌, ◌≤◌, ◌<◌, ◌≡◌, refl, ap, sym, ◌∙◌, inl, inr, List, ◌++◌, none, some, arith, length,
  take, drop, length-take, drop-append,
}
use ecs_compositor.Core.Error.{Result, ok}
use ecs_compositor.Core.Value.{RawFd, ReadBuf}
use ecs_compositor.Core.Object.{Object}
use ecs_compositor.Core.Object.Law.{IsId}
use ecs_compositor.Codegen.Message.{FieldType, Fields, message}
use ecs_compositor.Codegen.Message.Law.{message_format, message-Lawful}
use ecs_compositor.Codegen.Opcodes.{Message, fd_arms, recv_fd_count}
use ecs_compositor.Codegen.Opcodes.Lookup.{nth, Distinct}
use ecs_compositor.Codegen.Opcodes.Known.{HasTypes, nth-IsOpcode, recv_fd_count-message}
use ecs_compositor.WaylandTokio.Registry.{Registry}
use ecs_compositor.WaylandTokio.Io.{Io}
use ecs_compositor.WaylandTokio.Io.Messages.{
  MessageType, total_len, transmit, Transmitted, not_sent, sent, send_panic,
}
use ecs_compositor.WaylandTokio.Io.Messages.Transmit.{message_bytes, with_message, transmit_cases}
use ecs_compositor.WaylandTokio.Connection.Receive.{Receiver, ready, End, done, pass}
use ecs_compositor.WaylandTokio.Connection.RoundTrip.{hdr, body, pass-transmit}
use ecs_compositor.WaylandTokio.Connection.Decode.{MsgBuf, unwrapped, decode_opcode, decode_msg}

-- The type of the message with an opcode, whose fields have the types `ts`.
abbrev pub message_type : (ts : List FieldType) → ℕ → MessageType (Fields ts)
message_type ts op = record { value = message ts; op = op }

-- The state that a message was sent in, and whether it was.
abbrev state_of : Io → Transmitted → Io
state_of out (not_sent io) = out
state_of out (sent io) = io
state_of out send_panic = out

abbrev tag : Transmitted → ℕ
tag (not_sent io) = 0
tag (sent io) = 1
tag send_panic = 2

-- An object of an interface.
abbrev pub receiver_of : List Message → ℕ → ℕ → Receiver
receiver_of ms id cx = record { id = id; fd_count = recv_fd_count ms; cx = cx }

module _ (ms : List Message) (distinct : Distinct (fd_arms ms)) (op : ℕ) (m : Message)
    (there : nth ms op ≡ some m) (ts : List FieldType) (types : HasTypes m.args ts) (o : Object)
    (id : IsId o.id) (small : op < 2 ^ 16) where
  module _ (msg : Fields ts) (pad : ℕ) (valid : (message_format ts).IsValid msg)
      (len : (message ts).len msg ≡ (message_format ts).size msg + pad)
      (short : total_len (message_type ts op) o msg < 2 ^ 16) (old : List ℕ)
      (room : length old ≡ total_len (message_type ts op) o msg) where
    decode-pass :
        (cx : ℕ) (io : Io) (r : Registry) (more : List ℕ) (more_fds : List RawFd)
        → io.rx_hdr ≡ none
        → io.rx.da.items
          ≡ message_bytes
              (message_type ts op)
              (message_format ts)
              (message-Lawful ts)
              o
              msg
              pad
              id
              small
              valid
              len
              old
            ++ more
        → io.rx.fd.items ≡ (message_format ts).fds msg ++ more_fds
        → (e : End) × (buf : MsgBuf) × (b : Fields ts) × (pass (receiver_of ms o.id cx) io r
            ≡ done e)
          × (e.polled ≡ ready buf.hdr buf.da buf.fd)
          × (decode_opcode ms buf ≡ some m.variant)
          × (decode_msg (message ts) buf ≡ ok b)
          × (message_format ts).Same msg b
    unfolding decode_opcode decode_msg
    decode-pass cx io r more more_fds no_header bytes fds =
        let (e, b, p, polled, da, fd, none_left, read, same) =
          pass-transmit (message_type ts op) (message_format ts) (message-Lawful ts) o msg pad id
            small valid len short old room (receiver_of ms o.id cx) io r more more_fds no_header
            bytes fds refl (recv_fd_count-message ms op m ts distinct there types) in
        (
          e,
          record {
            hdr =
                hdr (message_type ts op) (message_format ts) (message-Lawful ts) o msg pad id small
                  valid len short old room;
            da =
                body (message_type ts op) (message_format ts) (message-Lawful ts) o msg pad id small
                  valid len short old room;
            fd = (message_format ts).fds msg;
          },
          b,
          p,
          polled,
          ap unwrapped (nth-IsOpcode ms op m distinct there).decodes,
          ap (λ (q : Result (Fields ts) × ReadBuf). q.0) read,
          same,
        )

  -- The bytes and the descriptors that stand behind what a sender had.
  abbrev pub added : Io → Io → List ℕ
  added out sent_out = drop (length out.tx.da.items) sent_out.tx.da.items

  abbrev pub added_fds : Io → Io → List RawFd
  added_fds out sent_out = drop (length out.tx.fd.items) sent_out.tx.fd.items

  module _ (msg : Fields ts) (pad : ℕ) (valid : (message_format ts).IsValid msg)
      (len : (message ts).len msg ≡ (message_format ts).size msg + pad)
      (short : total_len (message_type ts op) o msg < 2 ^ 16) (out sent_out : Io)
      (sending : transmit (message_type ts op) o msg out ≡ sent sent_out) where
    abbrev with_it : Io
    with_it =
        with_message (message_type ts op) (message_format ts) (message-Lawful ts) o msg pad id small
          valid len out

    was_sent :
        (total_len (message_type ts op) o msg ≤ length out.tx.da.unused) × (sent_out ≡ with_it)
    was_sent =
        elim (transmit_cases (message_type ts op) (message_format ts) (message-Lawful ts) o msg pad
          id small valid len out) [
            | inl (roomy, roomy_fds, e) ↦ (roomy, ap (state_of out) (sym sending ∙ e))
            | inr (few, e) ↦ absurd (omega (arith, ap tag (sym sending ∙ e)))
          ]

    abbrev old : List ℕ
    old = take (total_len (message_type ts op) o msg) out.tx.da.unused

    added-message_bytes :
        added out sent_out
        ≡ message_bytes
            (message_type ts op)
            (message_format ts)
            (message-Lawful ts)
            o
            msg
            pad
            id
            small
            valid
            len
            old
    added-message_bytes =
        ap (added out) was_sent.1
        ∙ drop-append (length out.tx.da.items) out.tx.da.items
            (message_bytes (message_type ts op) (message_format ts) (message-Lawful ts) o msg pad id
              small valid len old)
            refl

    added_fds-fds : added_fds out sent_out ≡ (message_format ts).fds msg
    added_fds-fds =
        ap (added_fds out) was_sent.1
        ∙ drop-append (length out.tx.fd.items) out.tx.fd.items ((message_format ts).fds msg) refl

    -- For a message of an interface with distinct variants, at an opcode below 65536, whose
    -- arguments have types that can be generated: a valid value of it, with less than 65536 bytes
    -- in all, is sent from any state. Where the bytes and descriptors that the sender added to its
    -- buffers are at the front of the receive buffers, and the object of the header receives for
    -- the interface with no header parsed yet, one pass of the receiving poll hands out a buffer
    -- whose opcode decodes to the variant of the message and whose content decodes to the same
    -- value.
    pub decode-transmit :
        (cx : ℕ) (io : Io) (r : Registry) (more : List ℕ) (more_fds : List RawFd)
        → io.rx_hdr ≡ none
        → io.rx.da.items ≡ added out sent_out ++ more
        → io.rx.fd.items ≡ added_fds out sent_out ++ more_fds
        → (e : End) × (buf : MsgBuf) × (b : Fields ts) × (pass (receiver_of ms o.id cx) io r
            ≡ done e)
          × (e.polled ≡ ready buf.hdr buf.da buf.fd)
          × (decode_opcode ms buf ≡ some m.variant)
          × (decode_msg (message ts) buf ≡ ok b)
          × (message_format ts).Same msg b
    decode-transmit cx io r more more_fds no_header bytes fds =
        decode-pass msg pad valid len short old
          (omega (
            arith,
            was_sent.0,
            length-take (total_len (message_type ts op) o msg) out.tx.da.unused,
          ))
          cx io r more more_fds no_header (bytes ∙ ap (λ l. l ++ more) added-message_bytes)
          (fds ∙ ap (λ l. l ++ more_fds) added_fds-fds)
