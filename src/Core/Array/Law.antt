-- ===== src/Core/Array/Law.antt =====
-- The laws of `array`, `string` and `Option<string>`.
use ecs_compositor.Prelude.{
  ℕ, ◌+◌, ◌%◌, ◌^◌, ◌<◌, ◌≡◌, refl, ap, ◌∙◌, List, Option, none, some, arith,
}
use ecs_compositor.Core.Error.{ok}
use ecs_compositor.Core.Value.{Step, ReadBuf, ◌>>=◌, return}
use ecs_compositor.Core.Value.Law.{Format, Lawful, bind-ok, bind-fail}
use ecs_compositor.Core.Int.{ok_or}
use ecs_compositor.Core.Object.{nonzero}
use ecs_compositor.Core.Object.Law.{nonzero-some}
use ecs_compositor.Core.Array.{
  Array, Str, align, array, string, option_string, some_string, ptr_of, len_of, read_data,
  empty_string,
}
use ecs_compositor.Core.Array.Data.{align_lem, IsLength, IsReadable}
use ecs_compositor.Core.Array.Format.{Sees, Shows, data_format, data-Lawful}

abbrev pub IsArray : Array → Type 0
IsArray a = IsLength a.len × IsReadable a.ptr a.len

abbrev pub SameArray : Array → Array → Type 0
SameArray a b = (b.len ≡ a.len) × Shows a.ptr a.len b.ptr

abbrev pub array_format : Format Array
array_format = data_format IsArray SameArray (λ a. a.ptr) (λ a. a.len) (λ a. 0)

to_array : List ℕ × ℕ → Step ReadBuf Array
to_array (ptr, len) = return (record { ptr = some ptr; len = len })

-- An array of at most 2 ^ 32 - 4 bytes (readable through its pointer, where it has one) travels as
-- its length and its padded bytes: written with room, read back with the same length and the same
-- bytes, and refused without room or from fewer bytes.
pub array-Lawful : Lawful array array_format
unfolding array to_array
array-Lawful =
    data-Lawful array IsArray SameArray (λ a. a.ptr) (λ a. a.len) (λ a. 0) refl (λ a. omega arith)
      (λ a v. v)
      (λ a content s s' v sees r.
        (record { ptr = some content; len = a.len }, bind-ok read_data to_array r, (refl, sees)))
      (λ s e r. bind-fail read_data to_array r) (λ a s. refl)

abbrev pub IsString : Str → Type 0
IsString a = IsLength a.len × IsReadable a.ptr a.len × (0 < a.len)

abbrev pub SameString : Str → Str → Type 0
SameString a b = (b.len ≡ a.len) × Shows a.ptr a.len b.ptr

abbrev pub string_format : Format Str
string_format = data_format IsString SameString (λ a. a.ptr) (λ a. a.len) (λ a. 0)

to_string : List ℕ × ℕ → Step ReadBuf Str
to_string (ptr, len) =
    ok_or (nonzero len) empty_string >>= λ len'. return (record { ptr = some ptr; len = len' })

-- A string that is not empty, of at most 2 ^ 32 - 4 bytes (readable through its pointer, where it
-- has one), travels as its length and its padded bytes: written with room, read back with the same
-- length and the same bytes, and refused without room or from fewer bytes.
pub string-Lawful : Lawful string string_format
unfolding string to_string ok_or
string-Lawful =
    data-Lawful string IsString SameString (λ a. a.ptr) (λ a. a.len) (λ a. 0) refl
      (λ a. omega arith) (λ a v. (v.0, v.1))
      (λ a content s s' v sees r. (
        record { ptr = some content; len = a.len },
        bind-ok read_data to_string r
            ∙ ap
                (λ o.
                  (ok_or o empty_string >>= λ l. return (record { ptr = some content; len = l }))
                    s')
                (nonzero-some a.len v.2),
        (refl, sees),
      ))
      (λ s e r. bind-fail read_data to_string r) (λ a s. refl)

abbrev pub IsOptionString : Option Str → Type 0
IsOptionString none = Unit
IsOptionString (some a) = IsString a

abbrev pub SameOptionString : Option Str → Option Str → Type 0
SameOptionString none none = Unit
SameOptionString none (some b) = ⊥
SameOptionString (some a) none = ⊥
SameOptionString (some a) (some b) = SameString a b

-- An optional string announces four bytes too many where it is there.
abbrev pub extra_of : Option Str → ℕ
extra_of none = 0
extra_of (some a) = 4

option_string_len :
    (o : Option Str) → option_string.len o ≡ (4 + align 4 (len_of o) + extra_of o) % 2 ^ 32
unfolding option_string
option_string_len none = omega (arith, align_lem 0)
option_string_len (some a) = omega arith

abbrev pub option_string_format : Format (Option Str)
option_string_format = data_format IsOptionString SameOptionString ptr_of len_of extra_of

to_option_string : List ℕ × ℕ → Step ReadBuf (Option Str)
to_option_string (ptr, len) = return (some_string ptr (nonzero len))

option_string_valid :
    (o : Option Str) → IsOptionString o → IsLength (len_of o) × IsReadable (ptr_of o) (len_of o)
option_string_valid none v = (omega arith, tt)
option_string_valid (some a) v = (v.0, v.1)

option_string_read :
    (o : Option Str) (content : List ℕ) (s s' : ReadBuf)
    → IsOptionString o
    → Sees (ptr_of o) (len_of o) content
    → read_data s ≡ (ok (content, len_of o), s')
    → (b : Option Str) × (option_string.read s ≡ (ok b, s')) × SameOptionString o b
unfolding option_string to_option_string some_string nonzero
option_string_read none content s s' v sees r = (none, bind-ok read_data to_option_string r, tt)
option_string_read (some a) content s s' v sees r = (
  some (record { ptr = some content; len = a.len }),
  bind-ok read_data to_option_string r
      ∙ ap (λ o. (ok (some_string content o), s')) (nonzero-some a.len v.2),
  (refl, sees),
)

-- A missing string travels as the length 0, which no string has.
pub option_string-Lawful : Lawful option_string option_string_format
unfolding option_string to_option_string
option_string-Lawful =
    data-Lawful option_string IsOptionString SameOptionString ptr_of len_of extra_of refl
      option_string_len option_string_valid option_string_read
      (λ s e r. bind-fail read_data to_option_string r) (λ o s. refl)
