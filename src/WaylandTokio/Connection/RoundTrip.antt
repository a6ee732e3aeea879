-- ===== src/WaylandTokio/Connection/RoundTrip.antt =====
-- A message that one end has sent, at the other end.
use ecs_compositor.Prelude.{
  ℕ, ◌+◌, ◌^◌, ◌<◌, ◌≡◌, refl, sym, ap, ap₂, subst, ◌∙◌, inl, inr, List, [], ◌++◌, append-nil,
  append_assoc, none, some, arith, length, take, drop, length-append, length-take, length-drop,
  take-append, drop-append,
}
use ecs_compositor.Core.Error.{ok}
use ecs_compositor.Core.Value.{RawFd}
use ecs_compositor.Core.Value.Law.{read_buf, Format, Lawful}
use ecs_compositor.Core.Object.{Object}
use ecs_compositor.Core.Object.Law.{IsId}
use ecs_compositor.Core.Header.{MessageHeader, message_header, content_len}
use ecs_compositor.Core.Header.Law.{header_format, message_header-Lawful}
use ecs_compositor.WaylandTokio.Registry.{Registry}
use ecs_compositor.WaylandTokio.Io.{Io}
use ecs_compositor.WaylandTokio.Io.Messages.{MessageType, total_len}
use ecs_compositor.WaylandTokio.Io.Messages.Transmit.{header, message_bytes}
use ecs_compositor.WaylandTokio.Io.Messages.Deliver.{rx_msg_buf-some, behind}
use ecs_compositor.WaylandTokio.Connection.Receive.{
  Receiver, ready, End, done, pass, pass_of, parsed, dispatch, with_header,
}
use ecs_compositor.WaylandTokio.Connection.Receive.Dispatch.{dispatch_known, handed_end, handed_out}

module _ {A : Type 0} (M : MessageType A) (F : Format A) (law : Lawful M.value F) (o : Object)
    (msg : A) (pad : ℕ) (id : IsId o.id) (op : M.op < 2 ^ 16) (valid : F.IsValid msg)
    (len : M.value.len msg ≡ F.size msg + pad) (short : total_len M o msg < 2 ^ 16) (old : List ℕ)
    (room : length old ≡ total_len M o msg) where
  abbrev pub hdr : MessageHeader
  hdr = header M F law o msg pad id op valid len

  abbrev head : List ℕ
  head = header_format.image hdr (take 8 old)

  abbrev pub body : List ℕ
  body = F.image msg (take (F.size msg) (drop 8 old)) ++ drop (F.size msg) (drop 8 old)

  length-body : length body ≡ M.value.len msg
  length-body = omega (
    arith,
    len,
    room,
    length-append (F.image msg (take (F.size msg) (drop 8 old))) (drop (F.size msg) (drop 8 old)),
    law.length_image msg (take (F.size msg) (drop 8 old)) valid
        (omega (arith, len, room, length-take (F.size msg) (drop 8 old), length-drop 8 old)),
    length-drop (F.size msg) (drop 8 old),
    length-drop 8 old,
  )

  length-head : length head ≡ 8
  length-head =
      message_header-Lawful.length_image hdr (take 8 old) (id, omega arith, op)
        (omega (arith, room, length-take 8 old))

  content_len-hdr : content_len hdr ≡ M.value.len msg
  unfolding content_len
  content_len-hdr = omega (arith, short)

  header_read : message_header.read (read_buf head []) ≡ (ok hdr, read_buf [] [])
  header_read =
      let (h, r, e) =
        message_header-Lawful.reads hdr (take 8 old) [] [] (id, omega arith, op)
          (omega (arith, room, length-take 8 old)) in
      subst (λ (k : MessageHeader). message_header.read (read_buf head []) ≡ (ok k, read_buf [] []))
        (sym e) (ap (λ l. message_header.read (read_buf l [])) (sym (append-nil head)) ∙ r)

  module _ (obj : Receiver) (io : Io) (r : Registry) (more : List ℕ) (more_fds : List RawFd)
      (no_header : io.rx_hdr ≡ none)
      (bytes : io.rx.da.items ≡ message_bytes M F law o msg pad id op valid len old ++ more)
      (fds : io.rx.fd.items ≡ F.fds msg ++ more_fds) (own : obj.id ≡ o.id)
      (opcode : obj.fd_count M.op ≡ some M.value.fd_count) where
    in_parts : io.rx.da.items ≡ head ++ (body ++ more)
    in_parts =
        bytes
        ∙ ap (λ l. l ++ more)
            (append_assoc head (F.image msg (take (F.size msg) (drop 8 old)))
              (drop (F.size msg) (drop 8 old)))
        ∙ append_assoc head body more

    first_part : take 8 io.rx.da.items ≡ head
    first_part = ap (take 8) in_parts ∙ take-append 8 head (body ++ more) length-head

    behind_header : drop 8 io.rx.da.items ≡ body ++ more
    behind_header = ap (drop 8) in_parts ∙ drop-append 8 head (body ++ more) length-head

    length-items : length io.rx.da.items ≡ 8 + (M.value.len msg + length more)
    length-items = omega (
      arith,
      ap length in_parts,
      length-append head (body ++ more),
      length-append body more,
      length-head,
      length-body,
    )

    length-fds : length io.rx.fd.items ≡ M.value.fd_count + length more_fds
    length-fds =
        omega (arith, ap length fds, length-append (F.fds msg) more_fds, law.length_fds msg)

    abbrev with_hdr : Io
    with_hdr = record (behind 8 0 io) { rx_hdr = some hdr }

    pass-dispatch : pass obj io r ≡ dispatch obj hdr with_hdr r
    unfolding pass
    pass-dispatch =
        ap (λ h. pass_of obj h io r) no_header
        ∙ ap (with_header obj r)
            (rx_msg_buf-some 8 0 io (omega (arith, length-items)) (omega arith))
        ∙ ap (λ l. parsed obj (behind 8 0 io) r (message_header.read (read_buf l []))) first_part
        ∙ ap (parsed obj (behind 8 0 io) r) header_read

    dispatched : dispatch obj hdr with_hdr r ≡ handed_out obj hdr with_hdr r M.value.fd_count
    dispatched = elim (dispatch_known obj hdr with_hdr r M.value.fd_count own opcode) [
      | inl (has, e) ↦ e
      | inr (inl few, e) ↦
          absurd (omega (arith, content_len-hdr, length-items, length-drop 8 io.rx.da.items))
      | inr (inr few, e) ↦ absurd (omega (arith, length-fds))
    ]

    abbrev leftover : List ℕ
    leftover = drop (F.size msg) (drop 8 old)

    content_taken : take (content_len hdr) (drop 8 io.rx.da.items) ≡ body
    content_taken =
        ap₂ take content_len-hdr behind_header ∙ take-append (M.value.len msg) body more length-body

    content_dropped : drop (content_len hdr) (drop 8 io.rx.da.items) ≡ more
    content_dropped =
        ap₂ drop content_len-hdr behind_header ∙ drop-append (M.value.len msg) body more length-body

    fds_taken : take M.value.fd_count io.rx.fd.items ≡ F.fds msg
    fds_taken =
        ap (take M.value.fd_count) fds
        ∙ take-append M.value.fd_count (F.fds msg) more_fds (law.length_fds msg)

    fds_dropped : drop M.value.fd_count io.rx.fd.items ≡ more_fds
    fds_dropped =
        ap (drop M.value.fd_count) fds
        ∙ drop-append M.value.fd_count (F.fds msg) more_fds (law.length_fds msg)

    -- For a valid message of a type that can be generated, or of any other lawful one, with less
    -- than 65536 bytes in all: where the bytes that the sending side makes of it in room of its
    -- exact size, and its descriptors, are at the front of the receive buffers, and the object of
    -- the header receives, with no header parsed yet and the number of descriptors of the opcode,
    -- one pass of the receiving poll hands it out: its header, its body and its descriptors; what
    -- stands behind them stays, no header is kept, and the body is read back as the same message,
    -- all but the bytes by which its announced length is too long.
    pub pass-transmit :
        (e : End) × (b : A) × (pass obj io r ≡ done e)
        × (e.polled ≡ ready hdr body (F.fds msg))
        × (e.io.rx.da.items ≡ more)
        × (e.io.rx.fd.items ≡ more_fds)
        × (e.io.rx_hdr ≡ none)
        × (M.value.read (read_buf body (F.fds msg)) ≡ (ok b, read_buf leftover []))
        × F.Same msg b
    pass-transmit =
        let (b, read, same) =
          law.reads msg (take (F.size msg) (drop 8 old)) leftover [] valid
            (omega (arith, len, room, length-take (F.size msg) (drop 8 old), length-drop 8 old)) in
        (
          handed_end obj hdr with_hdr r M.value.fd_count,
          b,
          pass-dispatch ∙ dispatched,
          ap₂ (λ bs fs. ready hdr bs fs) content_taken fds_taken,
          content_dropped,
          fds_dropped,
          refl,
          ap (λ l. M.value.read (read_buf body l)) (sym (append-nil (F.fds msg))) ∙ read,
          same,
        )
