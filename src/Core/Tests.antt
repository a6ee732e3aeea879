-- ===== src/Core/Tests.antt =====
-- The theorems on the wire primitives at concrete values.
use ecs_compositor.Prelude.{
  some, refl, ◌++◌, ℕ, ◌+◌, ◌-◌, ◌≤◌, ◌^◌, ◌≡◌, ◌⊎◌, List, [], ◌∷◌, arith, length, take, drop,
}
use ecs_compositor.Core.Error.{ok, fail, ProtocolError}
use ecs_compositor.Core.Value.{load_u32}
use ecs_compositor.Core.Value.Law.{read_buf}
use ecs_compositor.Core.Value.Law.{write_buf}
use ecs_compositor.Core.Array.{Str, string, from_slice, as_slice_without_trailing_null}
use ecs_compositor.Core.Array.Slice.{ended, string_of, text_round_trip}
use ecs_compositor.Core.Array.{align, read_data}
use ecs_compositor.Core.Array.Data.{align_wraps, read_data_cases}

align_wraps_example : align 4 (2 ^ 32 - 1) ≡ 0
align_wraps_example = align_wraps (2 ^ 32 - 1) (omega arith) (omega arith)

-- A length of 2, two bytes of contents, two of padding, and a byte that follows.
abbrev bytes : List ℕ
bytes = 2 ∷ 0 ∷ 0 ∷ 0 ∷ 7 ∷ 8 ∷ 0 ∷ 0 ∷ 9 ∷ []

read_data_cases_example :
    let need = align 4 (load_u32 (take 4 bytes)) in
    ((4 + need ≤ length bytes)
      × (read_data (read_buf bytes []) ≡ (
        ok (take need (drop 4 bytes), load_u32 (take 4 bytes)),
        read_buf (drop need (drop 4 bytes)) [],
      )))
    ⊎ ((e : ProtocolError) × (read_data (read_buf bytes []) ≡ (fail e, read_buf bytes [])))
read_data_cases_example = read_data_cases bytes []

-- "Hi" in a buffer with rubbish in it.
text_round_trip_example :
    (from_slice (ended (72 ∷ 105 ∷ [])) ≡ some (string_of (72 ∷ 105 ∷ [])))
    × (b : Str) × (let (_, s) =
          string.write
            (string_of (72 ∷ 105 ∷ []))
            (write_buf [] (9 ∷ 9 ∷ 9 ∷ 9 ∷ 9 ∷ 9 ∷ 9 ∷ 9 ∷ []) [] []) in
        string.read (read_buf (s.written ++ (1 ∷ [])) (s.written_fds ++ []))
        ≡ (ok b, read_buf (1 ∷ []) []))
    × (as_slice_without_trailing_null b ≡ 72 ∷ 105 ∷ [])
unfolding string align
text_round_trip_example =
    text_round_trip (72 ∷ 105 ∷ []) (9 ∷ 9 ∷ 9 ∷ 9 ∷ 9 ∷ 9 ∷ 9 ∷ 9 ∷ []) (1 ∷ []) [] (omega arith)
      refl
