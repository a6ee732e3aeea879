-- ===== src/Core/Array.antt =====
-- crates/core/src/primitives/inner/array.rs: `array` and `string`, and `align` of
-- crates/core/src/primitives/mod.rs.
--
-- A pointer into a buffer is the list of the bytes that it may be read for. `None` says that the
-- contents stand in the output buffer already. The sums in `align` and `len` wrap as `u32`
-- sums do in a build without overflow checks.
pub mod Data
pub mod Format
pub mod Slice
pub mod Law
use ecs_compositor.Prelude.{
  ℕ, ◌+◌, ◌-◌, ◌%◌, ◌^◌, bit_and, Option, none, some, List, [], ◌∷◌, ◌++◌, map, ltb, ◌==◌,
  if◌then◌else◌, length, take, drop,
}
use ecs_compositor.Core.Error.{ErrorCode, with_msg, ProtocolError, Result, ok, fail}
use ecs_compositor.Core.Value.{
  Value, Step, ReadBuf, WriteBuf, split_at, store_u32, load_u32, ◌>>=◌, return, throw,
}
use ecs_compositor.Core.Int.{ok_or}
use ecs_compositor.Core.Object.{nonzero}

-- `align::<ALIGN>(len)`.
unfoldable pub align : ℕ → ℕ → ℕ
align a len = bit_and ((len + a - 1) % 2 ^ 32) (2 ^ 32 - 1 - (a - 1))

pub record Array : Type 0 where
  pub ptr : Option (List ℕ)
  pub len : ℕ

pub record Str : Type 0 where
  pub ptr : Option (List ℕ)
  pub len : ℕ

abbrev pub header_short : ProtocolError
header_short = with_msg ErrorCode.implementation "reading buffer too short"

abbrev pub content_short : ProtocolError
content_short = with_msg ErrorCode.implementation "reading buffer too short for message content"

abbrev pub buffer_short : ProtocolError
buffer_short = with_msg ErrorCode.implementation "not enough buffer provided"

abbrev pub empty_string : ProtocolError
empty_string = with_msg ErrorCode.invalid_method "empty string not allowed here"

-- `.map_err(|err| { *data = old; err })`: the bytes cursor is put back.
abbrev pub restore : {A : Type 0} → List ℕ → Result A × ReadBuf → Result A × ReadBuf
restore old (ok a, s) = (ok a, s)
restore old (fail e, s) = (fail e, record s { bytes = old })

unfoldable pub rollback : {A : Type 0} → Step ReadBuf A → Step ReadBuf A
rollback m s = restore s.bytes (m s)

unfoldable pub split_off : ProtocolError → ℕ → Step ReadBuf (List ℕ)
split_off e count s = elim (split_at s.bytes count) [
  | none ↦ (fail e, s)
  | some (front, rest) ↦ (ok front, record s { bytes = rest })
]

-- The free function `read`: the contents with their padding, and the length in the header.
unfoldable pub read_data : Step ReadBuf (List ℕ × ℕ)
read_data = rollback (do
  header ← split_off header_short 4
  content ← split_off content_short (align 4 (load_u32 header))
  return (content, load_u32 header))

-- What `write` puts over `content`, which it has split at `align::<4>(len)` into the part for the
-- contents and the part for the padding.
unfoldable pub fill : Option (List ℕ) → ℕ → List ℕ → List ℕ
fill none len content = content
fill (some p) len content =
    (take len p ++ drop len (take (align 4 len) content))
    ++ map (λ _. 0) (drop (align 4 len) content)

-- The free function `write`.
unfoldable pub write_data : Option (List ℕ) → ℕ → Step WriteBuf (Unit {0})
write_data ptr len s = if ltb (length s.room) (4 + align 4 len) then (fail buffer_short, s) else (
  ok tt,
  record s {
    written = (s.written ++ store_u32 len) ++ fill ptr len (take (align 4 len) (drop 4 s.room));
    room = drop (align 4 len) (drop 4 s.room);
  },
)

unfoldable pub array : Value Array
array = record {
  fd_count = 0;
  len = λ a. (4 + align 4 a.len) % 2 ^ 32;
  read = do
    (ptr, len) ← read_data
    return (record { ptr = some ptr; len = len });
  write = λ a. write_data a.ptr a.len;
}

unfoldable pub string : Value Str
string = record {
  fd_count = 0;
  len = λ a. (4 + align 4 a.len) % 2 ^ 32;
  read = do
    (ptr, len) ← read_data
    len' ← ok_or (nonzero len) empty_string
    return (record { ptr = some ptr; len = len' });
  write = λ a. write_data a.ptr a.len;
}

unfoldable pub some_string : List ℕ → Option ℕ → Option Str
some_string ptr none = none
some_string ptr (some len) = some (record { ptr = some ptr; len = len })

abbrev pub ptr_of : Option Str → Option (List ℕ)
ptr_of none = none
ptr_of (some a) = a.ptr

abbrev pub len_of : Option Str → ℕ
len_of none = 0
len_of (some a) = a.len

-- `self.as_ref().map(string::len).unwrap_or(0)`.
abbrev pub string_len : Option Str → ℕ
string_len none = 0
string_len (some a) = (4 + align 4 a.len) % 2 ^ 32

-- `Value for Option<string>`.
unfoldable pub option_string : Value (Option Str)
option_string = record {
  fd_count = 0;
  len = λ o. (4 + string_len o) % 2 ^ 32;
  read = do
    (ptr, len) ← read_data
    return (some_string ptr (nonzero len));
  write = λ o. write_data (ptr_of o) (len_of o);
}

-- `as_slice`; a pointer that may be read for less than `len` bytes would be read out of bounds.
unfoldable pub as_slice : Str → List ℕ
as_slice a = elim (a.ptr) [ none ↦ [] | some p ↦ take a.len p ]

-- `slice.last()`, and the slice without it.
unfoldable pub without_trailing_null : List ℕ → List ℕ
without_trailing_null [] = []
without_trailing_null (b ∷ []) = if b == 0 then [] else b ∷ []
without_trailing_null (b ∷ c ∷ bs) = b ∷ without_trailing_null (c ∷ bs)

unfoldable pub as_slice_without_trailing_null : Str → List ℕ
as_slice_without_trailing_null a = without_trailing_null (as_slice a)

-- `from_slice`, which panics on an empty slice (`none`).
unfoldable pub from_slice : List ℕ → Option Str
from_slice slice = elim (nonzero (length slice % 2 ^ 32)) [
  | none ↦ none
  | some len ↦ some (record { ptr = some slice; len = len })
]
