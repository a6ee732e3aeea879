-- ===== src/Core/Value.antt =====
-- The trait `Value` of crates/core/src/primitives/mod.rs over the cursors it reads from and writes
-- to, and `RawSliceExt::split_at` of crates/core/src/raw_slice.rs.
--
-- A cursor of type `*const [T]` is the list of the items it still spans. A cursor of type
-- `*mut [T]` is two lists: what it has passed, and what it still spans, with the contents that
-- are there before the write. A word is stored by its bytes, least significant first.
pub mod Law
pub mod Word
pub mod Seq
pub mod Via
use ecs_compositor.Prelude.{ℕ, ◌+◌, ◌*◌, ◌/◌, ◌%◌, ◌^◌, List, [], ◌∷◌, ◌++◌, Option, none, some}
use ecs_compositor.Prelude.{ltb, if◌then◌else◌, length, take, drop}
use ecs_compositor.Prelude.Int.{ℤ}
use ecs_compositor.Core.Error.{Result, ok, fail, ProtocolError}

abbrev pub RawFd : Type 0
RawFd = ℤ

pub record ReadBuf : Type 0 where
  pub bytes : List ℕ
  pub fds : List RawFd

pub record WriteBuf : Type 0 where
  pub written : List ℕ
  pub room : List ℕ
  pub written_fds : List RawFd
  pub room_fds : List RawFd

-- A method that moves a cursor `S` and returns a `Result`. On an error the cursor stays where it
-- was moved to.
abbrev pub Step : Type 0 → Type 0 → Type 0
Step S A = S → Result A × S

-- `?`: an error is passed on.
abbrev pub resume : {S A B : Type 0} → (A → Step S B) → Result A × S → Result B × S
resume f (ok a, s) = f a s
resume f (fail e, s) = (fail e, s)

infixl 5 ◌>>=◌ ◌>>◌
abbrev pub ◌>>=◌ : {S A B : Type 0} → Step S A → (A → Step S B) → Step S B
◌>>=◌ m f s = resume f (m s)

abbrev pub ◌>>◌ : {S B : Type 0} → Step S (Unit {0}) → Step S B → Step S B
m >> k = m >>= λ _. k

abbrev pub return : {S A : Type 0} → A → Step S A
return a s = (ok a, s)

abbrev pub throw : {S A : Type 0} → ProtocolError → Step S A
throw e s = (fail e, s)

-- `split_at`: the items taken off the front, and the cursor behind them.
unfoldable pub split_at {ℓ} : {A : Type ℓ} → List A → ℕ → Option (List A × List A)
split_at xs count = if ltb (length xs) count then none else some (take count xs, drop count xs)

-- A `u32` as the four bytes in memory, and back.
unfoldable pub store_u32 : ℕ → List ℕ
store_u32 w = w % 256 ∷ w / 256 % 256 ∷ w / 256 ^ 2 % 256 ∷ w / 256 ^ 3 % 256 ∷ []

unfoldable pub load_u32 : List ℕ → ℕ
load_u32 [] = 0
load_u32 (b ∷ bs) = b + 256 * load_u32 bs

-- `data.split_at(4).ok_or(error)?.cast::<u32>().read()`.
unfoldable pub read_u32 : ProtocolError → Step ReadBuf ℕ
read_u32 e s = elim (split_at s.bytes 4) [
  | none ↦ (fail e, s)
  | some (word, rest) ↦ (ok (load_u32 word), record s { bytes = rest })
]

-- `data.split_at(4).ok_or(error)?.cast::<u32>().write(w)`.
unfoldable pub write_u32 : ProtocolError → ℕ → Step WriteBuf (Unit {0})
write_u32 e w s = elim (split_at s.room 4) [
  | none ↦ (fail e, s)
  | some (_, rest) ↦ (ok tt, record s { written = s.written ++ store_u32 w; room = rest })
]

-- `fds.split_at(1).ok_or(error)?.cast::<RawFd>().read()` and its counterpart.
unfoldable pub read_fd : ProtocolError → Step ReadBuf RawFd
read_fd e s = elim (s.fds) [ [] ↦ (fail e, s) | fd ∷ rest ↦ (ok fd, record s { fds = rest }) ]

unfoldable pub write_fd : ProtocolError → RawFd → Step WriteBuf (Unit {0})
write_fd e fd s = elim (s.room_fds) [
  | [] ↦ (fail e, s)
  | _ ∷ rest ↦ (ok tt, record s { written_fds = s.written_fds ++ (fd ∷ []); room_fds = rest })
]

-- The trait: `FDS`, `len`, `read` and `write`.
pub record Value (A : Type 0) : Type 1 where
  pub fd_count : ℕ
  pub len : A → ℕ
  pub read : Step ReadBuf A
  pub write : A → Step WriteBuf (Unit {0})
