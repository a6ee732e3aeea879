-- ===== src/Codegen/Message/RoundTrip.antt =====
-- What the sender of a generated message can rely on at the receiver.
use ecs_compositor.Prelude.{
  ℕ, ◌≤◌, ◌<◌, ◌≡◌, ◌⊎◌, inl, inr, List, [], ◌++◌, append-nil, arith, length, take, drop,
  take-append-drop, length-take, Bool-cases, ltb, ltb→lt, ltb→le,
}
use ecs_compositor.Core.Error.{ok}
use ecs_compositor.Core.Value.{RawFd, WriteBuf}
use ecs_compositor.Core.Value.Law.{read_buf, write_buf, Fails, Lawful}
use ecs_compositor.Codegen.Message.{FieldType, Fields, message, count_fds}
use ecs_compositor.Codegen.Message.Law.{message_format, message-Lawful}

module _ (ts : List FieldType) (m : Fields ts) (valid : (message_format ts).IsValid m) where
  abbrev bytes : ℕ
  bytes = (message_format ts).size m

  law : Lawful (message ts) (message_format ts)
  law = message-Lawful ts

  fds_counted : length ((message_format ts).fds m) ≡ count_fds ts
  unfolding message
  fds_counted = (message-Lawful ts).length_fds m

  written :
      (s : WriteBuf)
      → bytes ≤ length s.room
      → count_fds ts ≤ length s.room_fds
      → (message ts).write m s ≡ (
        ok tt,
        write_buf
            (s.written ++ (message_format ts).image m (take bytes s.room))
            (drop bytes s.room)
            (s.written_fds ++ (message_format ts).fds m)
            (drop (count_fds ts) s.room_fds),
      )
  written s p q =
      rw (take-append-drop bytes s.room, take-append-drop (count_fds ts) s.room_fds) at
        (law.writes m s.written (take bytes s.room) (drop bytes s.room) s.written_fds
          (take (count_fds ts) s.room_fds) (drop (count_fds ts) s.room_fds) valid
          (
            omega (arith, length-take bytes s.room),
            omega (arith, length-take (count_fds ts) s.room_fds, fds_counted),
          ))

  -- A valid message is written exactly when there is room for its bytes and its descriptors; it
  -- then takes that much room and leaves the rest of both buffers alone. Otherwise the write is an
  -- error.
  pub write_exactly :
      (s : WriteBuf)
      → ((bytes ≤ length s.room)
          × (count_fds ts ≤ length s.room_fds)
          × ((message ts).write m s ≡ (
            ok tt,
            write_buf
                (s.written ++ (message_format ts).image m (take bytes s.room))
                (drop bytes s.room)
                (s.written_fds ++ (message_format ts).fds m)
                (drop (count_fds ts) s.room_fds),
          )))
        ⊎ (((length s.room < bytes) ⊎ (length s.room_fds < count_fds ts))
            × Fails ((message ts).write m s).0)
  write_exactly s = elim (Bool-cases (ltb (length s.room) bytes)) [
    | inl short ↦ inr (inl (ltb→lt _ _ short), law.write_refused m s valid (inl (ltb→lt _ _ short)))
    | inr roomy ↦ elim (Bool-cases (ltb (length s.room_fds) (count_fds ts))) [
      | inl short ↦ inr (
        inr (ltb→lt _ _ short),
        law.write_refused m s valid (inr (omega (arith, fds_counted, ltb→lt _ _ short))),
      )
      | inr roomy_fds ↦ inl (
        ltb→le _ _ roomy,
        ltb→le _ _ roomy_fds,
        written s (ltb→le _ _ roomy) (ltb→le _ _ roomy_fds),
      )
    ]
  ]

  -- A valid message (each field in the range of its wire type, data behind the pointers, lengths
  -- that can be padded) that is written into room of its exact size and number of descriptors is
  -- read back from what was written, whatever follows: the same fields (for strings and arrays,
  -- the same length and bytes), and both cursors stand behind them.
  pub read-write :
      (old more : List ℕ) (of mf : List RawFd)
      → length old ≡ bytes
      → length of ≡ count_fds ts
      → (b : Fields ts) × (let (_, s) = (message ts).write m (write_buf [] old [] of) in
          (message ts).read (read_buf (s.written ++ more) (s.written_fds ++ mf))
          ≡ (ok b, read_buf more mf))
        × (message_format ts).Same m b
  read-write old more of mf h hf =
      let (b, r, e) = law.reads m old more mf valid h in
      let w : (message ts).write m (write_buf [] old [] of)
          ≡ (ok tt, write_buf ((message_format ts).image m old) [] ((message_format ts).fds m) []) =
        rw (append-nil old, append-nil of) at
          (law.writes m [] old [] [] of [] valid (h, omega (arith, fds_counted))) in
      (b, rw w r, e)
