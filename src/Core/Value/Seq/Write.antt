-- ===== src/Core/Value/Seq/Write.antt =====
-- Writing two values in a row.
use ecs_compositor.Prelude.{
  ℕ, ◌+◌, ◌≤◌, ◌<◌, ◌≡◌, ap, ◌∙◌, ◌⊎◌, inl, inr, List, ◌++◌, arith, length, take, drop, length-take,
  length-drop, length-append, take-append-drop, append_assoc, Bool-cases, ltb, ltb→lt, ltb→le,
}
use ecs_compositor.Core.Error.{ok}
use ecs_compositor.Core.Value.{Value, RawFd, WriteBuf, ◌>>◌}
use ecs_compositor.Core.Value.Law.{write_buf, Fails, Format, Fits, Lawful, bind-ok, bind-Fails}

module _ {A B : Type 0} {V : Value A} {W : Value B} {F : Format A} {G : Format B} (v : Lawful V F)
    (w : Lawful W G) where
  pub seq_writes :
      (a : A) (b : B) (d o1 o2 more : List ℕ) (df f1 f2 mf : List RawFd)
      → F.IsValid a
      → G.IsValid b
      → Fits F a o1 f1
      → Fits G b o2 f2
      → (V.write a >> W.write b) (write_buf d ((o1 ++ o2) ++ more) df ((f1 ++ f2) ++ mf)) ≡ (
        ok tt,
        write_buf (d ++ (F.image a o1 ++ G.image b o2)) more (df ++ (F.fds a ++ G.fds b)) mf,
      )
  seq_writes a b d o1 o2 more df f1 f2 mf va vb ha hb =
      rw (append_assoc o1 o2 more, append_assoc f1 f2 mf, ← append_assoc d, ← append_assoc df)
        (bind-ok (V.write a) (λ _. W.write b) (v.writes a d o1 (o2 ++ more) df f1 (f2 ++ mf) va ha)
          ∙ w.writes b (d ++ F.image a o1) o2 more (df ++ F.fds a) f2 mf vb hb)

  -- The first value has room and the second has none, or the first has none already.
  pub seq_write_refused :
      (a : A) (b : B) (s : WriteBuf)
      → F.IsValid a
      → G.IsValid b
      → (length s.room < F.size a + G.size b) ⊎ (length s.room_fds < length (F.fds a ++ G.fds b))
      → Fails ((V.write a >> W.write b) s).0
  seq_write_refused a b s va vb h = elim (Bool-cases (ltb (length s.room) (F.size a))) [
    | inl short ↦
        bind-Fails (V.write a) (λ _. W.write b) (v.write_refused a s va (inl (ltb→lt _ _ short)))
    | inr roomy ↦ elim (Bool-cases (ltb (length s.room_fds) (length (F.fds a)))) [
      | inl short ↦
          bind-Fails (V.write a) (λ _. W.write b) (v.write_refused a s va (inr (ltb→lt _ _ short)))
      | inr roomy_fds ↦ second_refused (ltb→le _ _ roomy) (ltb→le _ _ roomy_fds)
    ]
  ]
    where
      r1 : List ℕ
      r1 = take (F.size a) s.room

      r2 : List ℕ
      r2 = drop (F.size a) s.room

      f1 : List RawFd
      f1 = take (length (F.fds a)) s.room_fds

      f2 : List RawFd
      f2 = drop (length (F.fds a)) s.room_fds

      after : WriteBuf
      after = write_buf (s.written ++ F.image a r1) r2 (s.written_fds ++ F.fds a) f2

      first_written :
          F.size a ≤ length s.room
          → length (F.fds a) ≤ length s.room_fds
          → V.write a s ≡ (ok tt, after)
      first_written p q =
          rw (take-append-drop (F.size a) s.room, take-append-drop (length (F.fds a)) s.room_fds) at
            (v.writes a s.written r1 r2 s.written_fds f1 f2 va (
              omega (arith, length-take (F.size a) s.room),
              omega (arith, length-take (length (F.fds a)) s.room_fds),
            ))

      second_refused :
          F.size a ≤ length s.room
          → length (F.fds a) ≤ length s.room_fds
          → Fails ((V.write a >> W.write b) s).0
      second_refused p q =
          let (e, r) = w.write_refused b after vb (less h) in
          (e, ap (λ x. x.0) (bind-ok (V.write a) (λ _. W.write b) (first_written p q)) ∙ r)
        where
          less :
              (length s.room < F.size a + G.size b)
                ⊎ (length s.room_fds < length (F.fds a ++ G.fds b))
              → (length r2 < G.size b) ⊎ (length f2 < length (G.fds b))
          less (inl t) = inl (omega (arith, length-drop (F.size a) s.room))
          less (inr t) = inr (
              omega (
                arith,
                length-drop (length (F.fds a)) s.room_fds,
                length-append (F.fds a) (G.fds b),
              ))
