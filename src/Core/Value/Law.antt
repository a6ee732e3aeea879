-- ===== src/Core/Value/Law.antt =====
-- What an implementation of the trait `Value` promises: the wire format of a type, and the laws
-- that tie `len`, `read` and `write` to it.
use ecs_compositor.Prelude.{ℕ, ◌+◌, ◌%◌, ◌^◌, ◌<◌, ◌≡◌, ap, ◌⊎◌, List, ◌++◌, length, take}
use ecs_compositor.Core.Error.{Result, ok, fail, ProtocolError}
use ecs_compositor.Core.Value.{Value, RawFd, Step, resume, ◌>>=◌, ReadBuf, WriteBuf}

abbrev pub read_buf : List ℕ → List RawFd → ReadBuf
read_buf b f = record { bytes = b; fds = f }

abbrev pub write_buf : List ℕ → List ℕ → List RawFd → List RawFd → WriteBuf
write_buf w r wf rf = record { written = w; room = r; written_fds = wf; room_fds = rf }

-- A result that is an error.
abbrev pub Fails {ℓ} : {A : Type ℓ} → Result A → Type ℓ
Fails {A} r = (e : ProtocolError) × (r ≡ fail e)

-- What a `?` does: it goes on with the value, or passes the error on.
module _ {S A B : Type 0} (m : Step S A) (f : A → Step S B) where
  pub bind-ok : {s s' : S} {a : A} → m s ≡ (ok a, s') → (m >>= f) s ≡ f a s'
  bind-ok e = ap (resume f) e

  pub bind-fail : {s s' : S} {e : ProtocolError} → m s ≡ (fail e, s') → (m >>= f) s ≡ (fail e, s')
  bind-fail e = ap (resume f) e

  pub bind-Fails : {s : S} → Fails (m s).0 → Fails ((m >>= f) s).0
  bind-Fails {s} (e, p) = (e, ap (λ (r : Result A). (resume f (r, (m s).1)).0) p)

-- The wire format of `A`: which values have one, how many bytes and descriptors it takes, and
-- what they are. `image a old` is what stands over the bytes `old` once `a` is written there (a
-- write may leave some of them alone), and the announced length exceeds its size by `extra a`.
-- `Same a b` is what a reader can know of `a` from `b`.
pub record Format (A : Type 0) : Type 1 where
  pub IsValid : A → Type 0
  pub Same : A → A → Type 0
  pub size : A → ℕ
  pub extra : A → ℕ
  pub image : A → List ℕ → List ℕ
  pub fds : A → List RawFd

-- `old` is room for `a`, and `old_fds` is room for its descriptors.
abbrev pub Fits : {A : Type 0} → Format A → A → List ℕ → List RawFd → Type 0
Fits F a old old_fds = (length old ≡ F.size a) × (length old_fds ≡ length (F.fds a))

pub record Lawful {A : Type 0} (V : Value A) (F : Format A) : Type 0 where
  pub length_image :
      (a : A) (old : List ℕ)
      → F.IsValid a
      → length old ≡ F.size a
      → length (F.image a old) ≡ F.size a
  pub length_fds : (a : A) → length (F.fds a) ≡ V.fd_count
  -- The length that is announced, in 32 bits.
  pub announces : (a : A) → V.len a ≡ (F.size a + F.extra a) % 2 ^ 32
  -- With room, a write succeeds, lays down the image and moves both cursors behind it.
  pub writes :
      (a : A) (w old more : List ℕ) (wf old_fds more_fds : List RawFd)
      → F.IsValid a
      → Fits F a old old_fds
      → V.write a (write_buf w (old ++ more) wf (old_fds ++ more_fds))
        ≡ (ok tt, write_buf (w ++ F.image a old) more (wf ++ F.fds a) more_fds)
  -- Without room for the bytes or for the descriptors, a write is refused.
  pub write_refused :
      (a : A) (s : WriteBuf)
      → F.IsValid a
      → (length s.room < F.size a) ⊎ (length s.room_fds < length (F.fds a))
      → Fails (V.write a s).0
  -- A read of an image gives the value back and leaves what follows.
  pub reads :
      (a : A) (old more : List ℕ) (more_fds : List RawFd)
      → F.IsValid a
      → length old ≡ F.size a
      → (b : A) × (V.read (read_buf (F.image a old ++ more) (F.fds a ++ more_fds))
          ≡ (ok b, read_buf more more_fds))
        × F.Same a b
  -- A read of a proper part of the image is refused.
  pub read_refused :
      (a : A) (old : List ℕ) (n : ℕ) (more_fds : List RawFd)
      → F.IsValid a
      → length old ≡ F.size a
      → n < F.size a
      → Fails (V.read (read_buf (take n (F.image a old)) (F.fds a ++ more_fds))).0
  -- So is a read without all of the descriptors.
  pub fds_refused :
      (a : A) (old more : List ℕ) (n : ℕ)
      → F.IsValid a
      → length old ≡ F.size a
      → n < length (F.fds a)
      → Fails (V.read (read_buf (F.image a old ++ more) (take n (F.fds a)))).0
