-- ===== src/Core/Value/Seq/Read.antt =====
-- Reading two values in a row.
use ecs_compositor.Prelude.{
  ℕ, ◌+◌, ◌-◌, ◌<◌, ◌≤◌, ◌≡◌, ap, ◌∙◌, inl, inr, List, ◌++◌, arith, length, take, length-append,
  take-append_of_le, take-append_of_ge, append_assoc, Bool-cases, ltb, ltb→lt, ltb→le,
}
use ecs_compositor.Core.Error.{ok}
use ecs_compositor.Core.Value.{Value, RawFd, Step, ReadBuf, ◌>>=◌, return}
use ecs_compositor.Core.Value.Law.{read_buf, Fails, Format, Lawful, bind-ok, bind-Fails}

module _ {A B : Type 0} {V : Value A} {W : Value B} {F : Format A} {G : Format B} (v : Lawful V F)
    (w : Lawful W G) where
  abbrev pub second : A → Step ReadBuf (A × B)
  second a = W.read >>= λ b. return (a, b)

  pub seq_reads :
      (a : A) (b : B) (o1 o2 more : List ℕ) (mf : List RawFd)
      → F.IsValid a
      → G.IsValid b
      → length o1 ≡ F.size a
      → length o2 ≡ G.size b
      → (p : A × B) × ((V.read >>= second)
            (read_buf ((F.image a o1 ++ G.image b o2) ++ more) ((F.fds a ++ G.fds b) ++ mf))
          ≡ (ok p, read_buf more mf))
        × (F.Same a p.0 × G.Same b p.1)
  seq_reads a b o1 o2 more mf va vb ha hb =
      let (a', ra, sa) = v.reads a o1 (G.image b o2 ++ more) (G.fds b ++ mf) va ha in
      let (b', rb, sb) = w.reads b o2 more mf vb hb in
      (
        (a', b'),
        rw (append_assoc (F.image a o1) (G.image b o2) more, append_assoc (F.fds a) (G.fds b) mf)
            (bind-ok V.read second ra ∙ bind-ok W.read (λ b. return (a', b)) rb),
        (sa, sb),
      )

  pub seq_read_refused :
      (a : A) (b : B) (o1 o2 : List ℕ) (n : ℕ) (mf : List RawFd)
      → F.IsValid a
      → G.IsValid b
      → length o1 ≡ F.size a
      → length o2 ≡ G.size b
      → n < F.size a + G.size b
      → Fails
          ((V.read >>= second)
            (read_buf (take n (F.image a o1 ++ G.image b o2)) ((F.fds a ++ G.fds b) ++ mf))).0
  seq_read_refused a b o1 o2 n mf va vb ha hb lt = elim (Bool-cases (ltb n (F.size a))) [
    | inl short ↦
        rw
          (
            append_assoc (F.fds a) (G.fds b) mf,
            take-append_of_le n (F.image a o1) (G.image b o2)
                (omega (arith, v.length_image a o1 va ha, ltb→lt _ _ short)),
          )
          (bind-Fails V.read second
            (v.read_refused a o1 n (G.fds b ++ mf) va ha (ltb→lt _ _ short)))
    | inr long ↦
        let k : ℕ = n - length (F.image a o1) in
        let enough : length (F.image a o1) ≤ n =
          omega (arith, v.length_image a o1 va ha, ltb→le _ _ long) in
        let cut : k < G.size b = omega (arith, v.length_image a o1 va ha, ltb→le _ _ long) in
        let (a', ra, _) = v.reads a o1 (take k (G.image b o2)) (G.fds b ++ mf) va ha in
        let (e, rb) =
          bind-Fails W.read (λ b. return (a', b)) (w.read_refused b o2 k mf vb hb cut) in
        rw
          (
            append_assoc (F.fds a) (G.fds b) mf,
            take-append_of_ge n (F.image a o1) (G.image b o2) enough,
          )
          (e, ap (λ x. x.0) (bind-ok V.read second ra) ∙ rb)
  ]

  pub seq_fds_refused :
      (a : A) (b : B) (o1 o2 more : List ℕ) (n : ℕ)
      → F.IsValid a
      → G.IsValid b
      → length o1 ≡ F.size a
      → length o2 ≡ G.size b
      → n < length (F.fds a ++ G.fds b)
      → Fails
          ((V.read >>= second)
            (read_buf ((F.image a o1 ++ G.image b o2) ++ more) (take n (F.fds a ++ G.fds b)))).0
  seq_fds_refused a b o1 o2 more n va vb ha hb lt = elim (Bool-cases (ltb n (length (F.fds a)))) [
    | inl short ↦
        rw
          (
            append_assoc (F.image a o1) (G.image b o2) more,
            take-append_of_le n (F.fds a) (G.fds b) (omega (arith, ltb→lt _ _ short)),
          )
          (bind-Fails V.read second
            (v.fds_refused a o1 (G.image b o2 ++ more) n va ha (ltb→lt _ _ short)))
    | inr long ↦
        let k : ℕ = n - length (F.fds a) in
        let (a', ra, _) = v.reads a o1 (G.image b o2 ++ more) (take k (G.fds b)) va ha in
        let (e, rb) =
          bind-Fails W.read (λ b. return (a', b))
            (w.fds_refused b o2 more k vb hb
              (omega (arith, length-append (F.fds a) (G.fds b), ltb→le _ _ long))) in
        rw
          (
            append_assoc (F.image a o1) (G.image b o2) more,
            take-append_of_ge n (F.fds a) (G.fds b) (ltb→le _ _ long),
          )
          (e, ap (λ x. x.0) (bind-ok V.read second ra) ∙ rb)
  ]
