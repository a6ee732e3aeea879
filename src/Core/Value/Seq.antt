-- ===== src/Core/Value/Seq.antt =====
-- Values one after the other, as the fields of a message are: `read` and `write` go through them
-- in order and stop at the first error, `len` and `FDS` add up. (A sum of `u32`s wraps, as in a
-- build without overflow checks.)
pub mod Write
pub mod Read
pub mod Law
use ecs_compositor.Prelude.{
  ℕ, ◌+◌, ◌-◌, ◌%◌, ◌^◌, ◌≤◌, ◌<◌, ◌≡◌, ap, ap₂, ◌∙◌, ◌⊎◌, inl, inr, List, ◌++◌, arith, length,
  take, drop, length-take, length-drop, length-append, take-append_of_le, take-append_of_ge,
  take-append-drop, append_assoc, Bool-cases, ltb, ltb→lt, ltb→le,
}
use ecs_compositor.Core.Error.{ok}
use ecs_compositor.Core.Value.{Value, RawFd, Step, ReadBuf, WriteBuf, ◌>>=◌, ◌>>◌, return}
use ecs_compositor.Core.Value.Law.{
  read_buf, write_buf, Fails, Format, Fits, Lawful, bind-ok, bind-Fails,
}

unfoldable pub seq : {A B : Type 0} → Value A → Value B → Value (A × B)
seq V W = record {
  fd_count = V.fd_count + W.fd_count;
  len = λ p. (V.len p.0 + W.len p.1) % 2 ^ 32;
  read = do
    a ← V.read
    b ← W.read
    return (a, b);
  write = λ p. do
    V.write p.0
    W.write p.1;
}

abbrev pub seq_format : {A B : Type 0} → Format A → Format B → Format (A × B)
seq_format F G = record {
  IsValid = λ p. F.IsValid p.0 × G.IsValid p.1;
  Same = λ p q. F.Same p.0 q.0 × G.Same p.1 q.1;
  size = λ p. F.size p.0 + G.size p.1;
  extra = λ p. F.extra p.0 + G.extra p.1;
  image = λ p old. F.image p.0 (take (F.size p.0) old) ++ G.image p.1 (drop (F.size p.0) old);
  fds = λ p. F.fds p.0 ++ G.fds p.1;
}
