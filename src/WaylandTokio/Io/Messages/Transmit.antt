-- ===== src/WaylandTokio/Io/Messages/Transmit.antt =====
-- A message that is sent stands behind the others in the buffer, header first.
use ecs_compositor.Prelude.{
  ℕ, ◌+◌, ◌^◌, ◌≤◌, ◌<◌, ◌≡◌, refl, ap, ◌∙◌, ◌⊎◌, inl, inr, List, [], ◌++◌, append-nil, Bool-cases,
  ltb, ltb→lt, ltb→le, lt→ltb, le→ltb, none, some, arith, length, take, drop, take-append-drop,
  length-take, length-drop, drop-all,
}
use ecs_compositor.Core.Error.{Result, ok}
use ecs_compositor.Core.Value.{Value, RawFd, WriteBuf, split_at}
use ecs_compositor.Core.Value.Law.{write_buf, Format, Lawful}
use ecs_compositor.Core.Object.{Object}
use ecs_compositor.Core.Object.Law.{IsId}
use ecs_compositor.Core.Header.{MessageHeader, message_header}
use ecs_compositor.Core.Header.Law.{header_format, message_header-Lawful}
use ecs_compositor.WaylandTokio.Io.{Io}
use ecs_compositor.WaylandTokio.Io.Messages.{
  MessageType, not_sent, sent, wants_send, shrunk, tx_msg_buf, transmit, total_len, header_of,
}

pub split_at-some {ℓ} :
    {A : Type ℓ} (xs : List A) (n : ℕ) → n ≤ length xs → split_at xs n ≡ some (take n xs, drop n xs)
unfolding split_at
split_at-some xs n h = rw (le→ltb (length xs) n h)

pub split_at-none {ℓ} : {A : Type ℓ} (xs : List A) (n : ℕ) → length xs < n → split_at xs n ≡ none
unfolding split_at
split_at-none xs n h = rw (lt→ltb (length xs) n h)

-- A write into a buffer with room for the value.
pub writes_room :
    {A : Type 0} (V : Value A) (F : Format A) (law : Lawful V F) (a : A) (s : WriteBuf)
    → F.IsValid a
    → F.size a ≤ length s.room
    → V.fd_count ≤ length s.room_fds
    → V.write a s ≡ (
      ok tt,
      write_buf
          (s.written ++ F.image a (take (F.size a) s.room))
          (drop (F.size a) s.room)
          (s.written_fds ++ F.fds a)
          (drop V.fd_count s.room_fds),
    )
writes_room V F law a s valid p q =
    rw (take-append-drop (F.size a) s.room, take-append-drop V.fd_count s.room_fds) at
      (law.writes a s.written (take (F.size a) s.room) (drop (F.size a) s.room) s.written_fds
        (take V.fd_count s.room_fds) (drop V.fd_count s.room_fds) valid
        (
          omega (arith, length-take (F.size a) s.room),
          omega (arith, length-take V.fd_count s.room_fds, law.length_fds a),
        ))

module _ {A : Type 0} (M : MessageType A) (F : Format A) (law : Lawful M.value F) (o : Object)
    (msg : A) (pad : ℕ) (id : IsId o.id) (op : M.op < 2 ^ 16) (valid : F.IsValid msg)
    (len : M.value.len msg ≡ F.size msg + pad) where
  abbrev total : ℕ
  total = total_len M o msg

  abbrev pub header : MessageHeader
  header = header_of M o msg total

  -- The bytes of the message where `old` was: the header, the message and what its announced length
  -- exceeds it by.
  abbrev pub message_bytes : List ℕ → List ℕ
  message_bytes old =
      (header_format.image header (take 8 old) ++ F.image msg (take (F.size msg) (drop 8 old)))
      ++ drop (F.size msg) (drop 8 old)

  abbrev pub with_message : Io → Io
  with_message io = record io {
    interest = wants_send io.interest;
    tx = record {
      da = record io.tx.da {
        items = io.tx.da.items ++ message_bytes (take total io.tx.da.unused);
        unused = drop total io.tx.da.unused;
      };
      fd = record io.tx.fd {
        items = io.tx.fd.items ++ F.fds msg;
        unused = drop M.value.fd_count io.tx.fd.unused;
      };
    };
  }

  module _ (io : Io) (room : total ≤ length io.tx.da.unused)
      (room_fds : M.value.fd_count ≤ length io.tx.fd.unused) where
    abbrev da : List ℕ
    da = take total io.tx.da.unused

    abbrev fd : List RawFd
    fd = take M.value.fd_count io.tx.fd.unused

    abbrev kept : Io
    kept =
        shrunk (record io { interest = wants_send io.interest }) (drop total io.tx.da.unused)
          (drop M.value.fd_count io.tx.fd.unused)

    length_da : length da ≡ total
    length_da = omega (arith, length-take total io.tx.da.unused)

    length_fd : length fd ≡ M.value.fd_count
    length_fd = omega (arith, length-take M.value.fd_count io.tx.fd.unused)

    header_written :
        message_header.write (header_of M o msg (length da)) (write_buf [] da [] fd)
        ≡ (ok tt, write_buf (header_format.image header (take 8 da)) (drop 8 da) [] fd)
    header_written =
        ap (λ n. message_header.write (header_of M o msg n) (write_buf [] da [] fd)) length_da
        ∙ unfold message_header in
          writes_room message_header header_format message_header-Lawful header
            (write_buf [] da [] fd) (id, omega arith, op) (omega (arith, length_da)) (omega arith)

    abbrev wrote : List RawFd → Result (Unit {0}) × WriteBuf
    wrote rest = (
      ok tt,
      write_buf
          (header_format.image header (take 8 da) ++ F.image msg (take (F.size msg) (drop 8 da)))
          (drop (F.size msg) (drop 8 da)) (F.fds msg) rest,
    )

    message_written :
        M.value.write msg (write_buf (header_format.image header (take 8 da)) (drop 8 da) [] fd)
        ≡ wrote []
    message_written =
        writes_room M.value F law msg
          (write_buf (header_format.image header (take 8 da)) (drop 8 da) [] fd) valid
          (omega (arith, len, length_da, length-drop 8 da)) (omega (arith, length_fd))
        ∙ ap wrote (drop-all M.value.fd_count fd (omega (arith, length_fd)))

    fd_split :
        split_at io.tx.fd.unused (0 + M.value.fd_count)
        ≡ some (fd, drop M.value.fd_count io.tx.fd.unused)
    fd_split =
        ap (split_at io.tx.fd.unused) {x = 0 + M.value.fd_count} {y = M.value.fd_count}
          (omega arith)
        ∙ split_at-some io.tx.fd.unused M.value.fd_count room_fds

    transmit-sent : transmit M o msg io ≡ sent (with_message io)
    unfolding transmit tx_msg_buf
    transmit-sent =
        rw (split_at-some io.tx.da.unused total room, fd_split, header_written, message_written)
          (rw (append-nil (F.fds msg)) refl)

  pub transmit_cases :
      (io : Io)
      → ((total ≤ length io.tx.da.unused)
          × (M.value.fd_count ≤ length io.tx.fd.unused)
          × (transmit M o msg io ≡ sent (with_message io)))
        ⊎ (((length io.tx.da.unused < total) ⊎ (length io.tx.fd.unused < M.value.fd_count))
            × (transmit M o msg io ≡ not_sent (record io { interest = wants_send io.interest })))
  unfolding transmit tx_msg_buf
  transmit_cases io = elim (Bool-cases (ltb (length io.tx.da.unused) total)) [
    | inl short ↦
        inr
          (inl (ltb→lt _ _ short), rw (split_at-none io.tx.da.unused total (ltb→lt _ _ short)) refl)
    | inr roomy ↦ elim (Bool-cases (ltb (length io.tx.fd.unused) M.value.fd_count)) [
      | inl short ↦ inr (
        inr (ltb→lt _ _ short),
        rw
            (
              split_at-some io.tx.da.unused total (ltb→le _ _ roomy),
              split_at-none io.tx.fd.unused (0 + M.value.fd_count)
                  (omega (arith, ltb→lt _ _ short)),
            )
            refl,
      )
      | inr roomy_fds ↦ inl (
        ltb→le _ _ roomy,
        ltb→le _ _ roomy_fds,
        transmit-sent io (ltb→le _ _ roomy) (ltb→le _ _ roomy_fds),
      )
    ]
  ]
