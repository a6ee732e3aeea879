-- ===== src/Core/Array/Slice.antt =====
-- A text as a `string`: from a slice onto the wire, and back to a slice.
use ecs_compositor.Prelude.{
  ℕ, ◌-◌, ◌≤◌, ◌<◌, ◌^◌, ◌≡◌, refl, ap, ◌∙◌, arith, List, [], ◌∷◌, ◌++◌, append-nil, Option, none,
  some, length, length-append, take, take-length,
}
use native.Mathlib.Nat.{mod-eq_of_lt}
use ecs_compositor.Core.Error.{ok}
use ecs_compositor.Core.Value.{RawFd}
use ecs_compositor.Core.Value.Law.{read_buf, write_buf}
use ecs_compositor.Core.Object.Law.{nonzero-some}
use ecs_compositor.Core.Array.{
  Str, string, from_slice, as_slice, as_slice_without_trailing_null, without_trailing_null,
}
use ecs_compositor.Core.Array.Data.{align_lem}
use ecs_compositor.Core.Array.Law.{IsString, SameString, string_format, string-Lawful}

-- A text with the null byte that ends it.
abbrev pub ended : List ℕ → List ℕ
ended text = text ++ (0 ∷ [])

abbrev pub string_of : List ℕ → Str
string_of text = record { ptr = some (ended text); len = length (ended text) }

without_null_lem : (text : List ℕ) → without_trailing_null (ended text) ≡ text
unfolding without_trailing_null
without_null_lem [] = refl
without_null_lem (b ∷ []) = refl
without_null_lem (b ∷ c ∷ text) = ap (λ l. b ∷ l) (without_null_lem (c ∷ text))

from_slice-ended :
    (text : List ℕ) → length (ended text) < 2 ^ 32 → from_slice (ended text) ≡ some (string_of text)
unfolding from_slice
from_slice-ended text h = rw (
  mod-eq_of_lt h,
  nonzero-some (length (ended text)) (omega (arith, length-append text (0 ∷ []))),
  from_slice,
)

-- What a reader knows of the string is the whole text.
slice_of_same :
    (text : List ℕ) (ptr : Option (List ℕ)) (len : ℕ)
    → SameString (string_of text) (record { ptr = ptr; len = len })
    → as_slice_without_trailing_null (record { ptr = ptr; len = len }) ≡ text
unfolding as_slice_without_trailing_null as_slice
slice_of_same text none len (same_len, shows) = absurd shows
slice_of_same text (some p) len (same_len, shows) =
    ap without_trailing_null
      (ap (λ n. take n p) same_len ∙ shows ∙ take-length (length (ended text)) (ended text) refl)
    ∙ without_null_lem text

string-len :
    (text : List ℕ)
    → length (ended text) ≤ 2 ^ 32 - 8
    → string.len (string_of text) ≡ string_format.size (string_of text)
string-len text h =
    omega (
      arith,
      string-Lawful.announces (string_of text),
      align_lem (length (ended text)) (omega arith),
    )

-- A text that with its null byte is at most 2 ^ 32 - 8 bytes long is a string; written into room
-- of its size and read back, whatever follows, it is the same text.
pub text_round_trip :
    (text old more : List ℕ) (f : List RawFd)
    → length (ended text) ≤ 2 ^ 32 - 8
    → length old ≡ string.len (string_of text)
    → (from_slice (ended text) ≡ some (string_of text))
      × (b : Str) × (let (_, s) = string.write (string_of text) (write_buf [] old [] []) in
          string.read (read_buf (s.written ++ more) (s.written_fds ++ f)) ≡ (ok b, read_buf more f))
      × (as_slice_without_trailing_null b ≡ text)
text_round_trip text old more f short room =
    let (b, r, same) = string-Lawful.reads (string_of text) old more f valid size in
    (from_slice-ended text (omega arith), b, rw written r, slice_of_same text b.ptr b.len same)
  where
    valid : IsString (string_of text)
    valid = (omega arith, omega arith, omega (arith, length-append text (0 ∷ [])))

    size : length old ≡ string_format.size (string_of text)
    size = room ∙ string-len text short

    written :
        string.write (string_of text) (write_buf [] old [] [])
        ≡ (ok tt, write_buf (string_format.image (string_of text) old) [] [] [])
    written =
        rw (append-nil old) at
          (string-Lawful.writes (string_of text) [] old [] [] [] [] valid (size, refl))
