-- ===== src/WaylandTokio/Io/Messages/Deliver.antt =====
-- The parts of a message are taken off the front of both buffers, or nothing is.
use ecs_compositor.Prelude.{
  ℕ, ◌≤◌, ◌<◌, ◌≡◌, refl, sym, ap, ◌∙◌, ◌⊎◌, inl, inr, ◌++◌, append_assoc, Bool-cases, ltb, ltb→lt,
  ltb→le, none, some, length, take, drop, take-append, drop-append, take-append-drop, arith,
}
use ecs_compositor.WaylandTokio.Io.{
  RingBuf, BufDir, Io, whole, save, restore, save_cursor, restore_cursor, split_data,
}
use ecs_compositor.WaylandTokio.Io.Messages.{rx_msg_buf, wants_recv}
use ecs_compositor.WaylandTokio.Io.Messages.Transmit.{split_at-some, split_at-none}

module _ {A : Type 0} where
  -- A pointer that was saved leads back to the same data, while the memory is the same.
  restore-save : (b c : RingBuf A) → whole c ≡ whole b → restore (save b) c ≡ b
  unfolding restore save
  restore-save b c e =
      rw
        (
          e,
          take-append (length b.before) b.before (b.items ++ b.unused) refl,
          drop-append (length b.before) b.before (b.items ++ b.unused) refl,
          take-append (length b.items) b.items b.unused refl,
          drop-append (length b.items) b.items b.unused refl,
        )
        refl

  -- The buffer behind `count` items.
  abbrev pub advanced : ℕ → RingBuf A → RingBuf A
  advanced count b = record b {
    before = b.before ++ take count b.items;
    items = drop count b.items;
  }

  advanced-whole : (count : ℕ) (b : RingBuf A) → whole (advanced count b) ≡ whole b
  advanced-whole count b =
      append_assoc b.before (take count b.items) (drop count b.items ++ b.unused)
      ∙ ap (λ l. b.before ++ l)
          (sym (append_assoc (take count b.items) (drop count b.items) b.unused)
            ∙ ap (λ l. l ++ b.unused) (take-append-drop count b.items))

  pub split_data-some :
      (count : ℕ) (b : RingBuf A)
      → count ≤ length b.items
      → split_data count b ≡ some (take count b.items, advanced count b)
  unfolding split_data
  split_data-some count b h = rw (split_at-some b.items count h)

  pub split_data-none :
      (count : ℕ) (b : RingBuf A) → length b.items < count → split_data count b ≡ none
  unfolding split_data
  split_data-none count b h = rw (split_at-none b.items count h)

restore_cursor-save :
    (b c : BufDir)
    → whole c.da ≡ whole b.da
    → whole c.fd ≡ whole b.fd
    → restore_cursor (save_cursor b) c ≡ b
unfolding restore_cursor save_cursor
restore_cursor-save b c p q = rw (restore-save b.da c.da p, restore-save b.fd c.fd q) refl

-- The state behind a message of `da` bytes and `fd` descriptors.
abbrev pub behind : ℕ → ℕ → Io → Io
behind da fd io = record io { rx = record { da = advanced da io.rx.da; fd = advanced fd io.rx.fd } }

pub restored-behind :
    (da fd : ℕ) (io : Io)
    → record (behind da fd io) { rx = restore_cursor (save_cursor io.rx) (behind da fd io).rx } ≡ io
restored-behind da fd io =
    rw
      (restore_cursor-save io.rx (behind da fd io).rx (advanced-whole da io.rx.da)
        (advanced-whole fd io.rx.fd))
      refl

pub rx_msg_buf-some :
    (da fd : ℕ) (io : Io)
    → da ≤ length io.rx.da.items
    → fd ≤ length io.rx.fd.items
    → rx_msg_buf da fd io ≡ (
      some (record {
        cursor = save_cursor io.rx;
        bytes = take da io.rx.da.items;
        fds = take fd io.rx.fd.items;
      }),
      behind da fd io,
    )
unfolding rx_msg_buf
rx_msg_buf-some da fd io p q = rw (split_data-some da io.rx.da p, split_data-some fd io.rx.fd q)

abbrev pub waiting_for_data : Io → Io
waiting_for_data io = record io { interest = wants_recv io.interest }

pub rx_msg_buf-none :
    (da fd : ℕ) (io : Io)
    → (length io.rx.da.items < da) ⊎ (length io.rx.fd.items < fd)
    → rx_msg_buf da fd io ≡ (none, waiting_for_data io)
unfolding rx_msg_buf
rx_msg_buf-none da fd io h = elim (Bool-cases (ltb (length io.rx.da.items) da)) [
  | inl short ↦ elim (Bool-cases (ltb (length io.rx.fd.items) fd)) [
    | inl short_fds ↦
        rw
          (
            split_data-none da io.rx.da (ltb→lt _ _ short),
            split_data-none fd io.rx.fd (ltb→lt _ _ short_fds),
            restore_cursor-save io.rx io.rx refl refl,
          )
          refl
    | inr roomy_fds ↦
        rw
          (
            split_data-none da io.rx.da (ltb→lt _ _ short),
            split_data-some fd io.rx.fd (ltb→le _ _ roomy_fds),
            restore_cursor-save io.rx (record { da = io.rx.da; fd = advanced fd io.rx.fd }) refl
                (advanced-whole fd io.rx.fd),
          )
          refl
  ]
  | inr roomy ↦
      rw
        (
          split_data-some da io.rx.da (ltb→le _ _ roomy),
          split_data-none fd io.rx.fd (ground (arith, h, ltb→le _ _ roomy)),
          restore_cursor-save io.rx (record { da = advanced da io.rx.da; fd = io.rx.fd })
              (advanced-whole da io.rx.da) refl,
        )
        refl
]

-- A message of a length is taken off the front of both buffers exactly where its bytes and its
-- descriptors are there; otherwise the buffers are as they were, and the connection waits to
-- receive unless that side is closed.
pub rx_msg_buf_cases :
    (da fd : ℕ) (io : Io)
    → ((da ≤ length io.rx.da.items)
        × (fd ≤ length io.rx.fd.items)
        × (rx_msg_buf da fd io ≡ (
          some (record {
            cursor = save_cursor io.rx;
            bytes = take da io.rx.da.items;
            fds = take fd io.rx.fd.items;
          }),
          behind da fd io,
        )))
      ⊎ (((length io.rx.da.items < da) ⊎ (length io.rx.fd.items < fd))
          × (rx_msg_buf da fd io ≡ (none, waiting_for_data io)))
rx_msg_buf_cases da fd io = elim (Bool-cases (ltb (length io.rx.da.items) da)) [
  | inl short ↦ inr (inl (ltb→lt _ _ short), rx_msg_buf-none da fd io (inl (ltb→lt _ _ short)))
  | inr roomy ↦ elim (Bool-cases (ltb (length io.rx.fd.items) fd)) [
    | inl short ↦ inr (inr (ltb→lt _ _ short), rx_msg_buf-none da fd io (inr (ltb→lt _ _ short)))
    | inr roomy_fds ↦ inl (
      ltb→le _ _ roomy,
      ltb→le _ _ roomy_fds,
      rx_msg_buf-some da fd io (ltb→le _ _ roomy) (ltb→le _ _ roomy_fds),
    )
  ]
]
