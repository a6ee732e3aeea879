-- ===== src/WaylandTokio/Io.antt =====
-- crates/wayland-tokio/src/drive_io.rs: the buffers of a connection.
--
-- The memory of a `RingBuf` is the list of what it holds, in three parts: what stands before the
-- data, the data, and what is unused behind it. A pointer to the data is the number of items before
-- it and its length.
pub mod Messages
pub mod Socket
pub mod Drive
pub mod Tests
use ecs_compositor.Prelude.{
  ℕ, ◌*◌, ◌^◌, List, [], ◌∷◌, ◌++◌, Bool, true, false, Option, none, some, length, take, drop,
  if◌then◌else◌, ◌&&◌,
}
use ecs_compositor.Core.Value.{RawFd, split_at}
use ecs_compositor.Core.Header.{MessageHeader}

-- `WAYLAND_MAX_MESSAGE_LEN`, `MAX_DATA` and `MAX_FDS`.
abbrev pub max_message_len : ℕ
max_message_len = 2 ^ 16

abbrev pub max_data : ℕ
max_data = max_message_len * 4

abbrev pub max_fds : ℕ
max_fds = 252

pub record RingBuf (A : Type 0) : Type 0 where
  pub before : List A
  pub items : List A
  pub unused : List A

module _ {A : Type 0} where
  abbrev pub whole : RingBuf A → List A
  whole b = b.before ++ (b.items ++ b.unused)

  -- `unused_start` and `unused_end` are the first part and the last.
  abbrev pub unused_start : RingBuf A → List A
  unused_start b = b.before

  abbrev pub unused_end : RingBuf A → List A
  unused_end b = b.unused

  -- `data.split_at(count)`.
  abbrev split_of : RingBuf A → Option (List A × List A) → Option (List A × RingBuf A)
  split_of b none = none
  split_of b (some (taken, rest)) =
      some (taken, record b { before = b.before ++ taken; items = rest })

  unfoldable pub split_data : ℕ → RingBuf A → Option (List A × RingBuf A)
  unfolding split_at
  split_data count b = split_of b (split_at b.items count)

  -- The pointer to the data, and the buffer with its data where such a pointer says.
  unfoldable pub save : RingBuf A → ℕ × ℕ
  save b = (length b.before, length b.items)

  unfoldable pub restore : ℕ × ℕ → RingBuf A → RingBuf A
  restore (from, len) b = record {
    before = take from (whole b);
    items = take len (drop from (whole b));
    unused = drop len (drop from (whole b));
  }

pub record BufDir : Type 0 where
  pub da : RingBuf ℕ
  pub fd : RingBuf RawFd

-- `BufDir::is_empty`.
abbrev pub is_nil {ℓ} : {A : Type ℓ} → List A → Bool
is_nil [] = true
is_nil (x ∷ xs) = false

abbrev pub is_empty : BufDir → Bool
is_empty b = is_nil b.da.items

-- `save_cursor` and `restore_cursor`.
abbrev pub IoCursor : Type 0
IoCursor = (ℕ × ℕ) × (ℕ × ℕ)

unfoldable pub save_cursor : BufDir → IoCursor
save_cursor b = (save b.da, save b.fd)

unfoldable pub restore_cursor : IoCursor → BufDir → BufDir
restore_cursor c b = record { da = restore c.0 b.da; fd = restore c.1 b.fd }

-- The flags of `Interest`.
pub record Interest : Type 0 where
  pub recv : Bool
  pub send : Bool
  pub recv_closed : Bool
  pub send_closed : Bool

pub record Io : Type 0 where
  pub tx : BufDir
  pub rx : BufDir
  pub interest : Interest
  pub rx_hdr : Option MessageHeader

-- `tokio::io::Interest`: readable, writable or both.
pub data TokioInterest : Type 0 where
  readable writable both : TokioInterest

unfoldable pub query_interest : Io → Option TokioInterest
query_interest io =
    if io.interest.recv && io.interest.send
    then some both
    else if io.interest.recv
    then some readable
    else if io.interest.send
    then some writable
    else none
