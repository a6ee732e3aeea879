-- ===== src/Core/Value/Seq/Law.antt =====
-- Two lawful values in a row are a lawful value.
use ecs_compositor.Prelude.{
  ℕ, ◌+◌, ◌≡◌, ap₂, ◌∙◌, List, ◌++◌, arith, length, take, drop, length-take, length-drop,
  length-append, take-append-drop,
}
use ecs_compositor.Core.Value.{Value, RawFd}
use ecs_compositor.Core.Value.Law.{Format, Lawful}
use ecs_compositor.Core.Value.Seq.{seq, seq_format}
use ecs_compositor.Core.Value.Seq.Write.{seq_writes, seq_write_refused}
use ecs_compositor.Core.Value.Seq.Read.{seq_reads, seq_read_refused, seq_fds_refused}

module _ {A B : Type 0} {V : Value A} {W : Value B} {F : Format A} {G : Format B} (v : Lawful V F)
    (w : Lawful W G) where
  -- Two lawful values in a row are a lawful value.
  pub seq-Lawful : Lawful (seq V W) (seq_format F G)
  unfolding seq
  seq-Lawful = record {
    length_image = λ p old vp h. omega (
      arith,
      length-append (F.image p.0 (take (F.size p.0) old)) (G.image p.1 (drop (F.size p.0) old)),
      v.length_image p.0 (take (F.size p.0) old) vp.0 (front p old h),
      w.length_image p.1 (drop (F.size p.0) old) vp.1 (back p old h),
    );
    length_fds =
        λ p. length-append (F.fds p.0) (G.fds p.1) ∙ ap₂ ◌+◌ (v.length_fds p.0) (w.length_fds p.1);
    announces = λ p. omega (arith, v.announces p.0, w.announces p.1);
    writes = λ p d old more df of mf vp fits.
        rw (take-append-drop (F.size p.0) old, take-append-drop (length (F.fds p.0)) of) at
          (seq_writes v w p.0 p.1 d (take (F.size p.0) old) (drop (F.size p.0) old) more df
            (take (length (F.fds p.0)) of) (drop (length (F.fds p.0)) of) mf vp.0 vp.1
            (front p old fits.0, front_fds p of fits.1) (back p old fits.0, back_fds p of fits.1));
    write_refused = λ p s vp h. seq_write_refused v w p.0 p.1 s vp.0 vp.1 h;
    reads = λ p old more mf vp h.
        seq_reads v w p.0 p.1 (take (F.size p.0) old) (drop (F.size p.0) old) more mf vp.0 vp.1
          (front p old h) (back p old h);
    read_refused = λ p old n mf vp h lt.
        seq_read_refused v w p.0 p.1 (take (F.size p.0) old) (drop (F.size p.0) old) n mf vp.0 vp.1
          (front p old h) (back p old h) lt;
    fds_refused = λ p old more n vp h lt.
        seq_fds_refused v w p.0 p.1 (take (F.size p.0) old) (drop (F.size p.0) old) more n vp.0 vp.1
          (front p old h) (back p old h) lt;
  }
    where
      front :
          (p : A × B) (old : List ℕ)
          → length old ≡ F.size p.0 + G.size p.1
          → length (take (F.size p.0) old) ≡ F.size p.0
      front p old h = omega (arith, length-take (F.size p.0) old)

      back :
          (p : A × B) (old : List ℕ)
          → length old ≡ F.size p.0 + G.size p.1
          → length (drop (F.size p.0) old) ≡ G.size p.1
      back p old h = omega (arith, length-drop (F.size p.0) old)

      front_fds :
          (p : A × B) (of : List RawFd)
          → length of ≡ length (F.fds p.0 ++ G.fds p.1)
          → length (take (length (F.fds p.0)) of) ≡ length (F.fds p.0)
      front_fds p of h =
          omega (arith, length-take (length (F.fds p.0)) of, length-append (F.fds p.0) (G.fds p.1))

      back_fds :
          (p : A × B) (of : List RawFd)
          → length of ≡ length (F.fds p.0 ++ G.fds p.1)
          → length (drop (length (F.fds p.0)) of) ≡ length (G.fds p.1)
      back_fds p of h =
          omega (arith, length-drop (length (F.fds p.0)) of, length-append (F.fds p.0) (G.fds p.1))
