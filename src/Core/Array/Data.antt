-- ===== src/Core/Array/Data.antt =====
-- The free functions `read` and `write` of array.rs: what `write` lays down, and what `read` makes
-- of it.
use ecs_compositor.Prelude.{
  ℕ, ◌+◌, ◌-◌, ◌*◌, ◌/◌, ◌%◌, ◌^◌, ◌≤◌, ◌<◌, ◌≡◌, refl, sym, ap, ◌∙◌, bit_and, List, [], ◌++◌,
  Option, none, some, arith, length, take, drop, length-take, length-drop, length-append,
  take-append, drop-append, take-length, take-append-drop, append_assoc, append-nil,
  drop-append_of_le, Bool-cases, ◌⊎◌, inl, inr, ltb, le→ltb, lt→ltb, ltb→le, ltb→lt, false,
}
use ecs_compositor.Prelude.Bits.{bit_and-halves, bit_and_mask}
use ecs_compositor.Core.Error.{ok, fail, ProtocolError}
use ecs_compositor.Core.Value.{RawFd, Step, ReadBuf, WriteBuf, store_u32, load_u32, ◌>>=◌, return}
use ecs_compositor.Core.Value.Law.{read_buf, write_buf, bind-ok, bind-fail}
use ecs_compositor.Core.Value.Word.{split_at-append, split_at_short, length-store_u32}
use ecs_compositor.Core.Array.{
  align, split_off, restore, rollback, read_data, write_data, fill, header_short, content_short,
  buffer_short,
}

-- `x & !3` drops the two lowest digits of a word.
clear_two : (x : ℕ) → x < 2 ^ 32 → bit_and x (2 ^ 32 - 4) ≡ x / 4 * 4
clear_two x h = omega (
  arith,
  bit_and-halves x (2 ^ 32 - 4),
  bit_and-halves (x / 2) (2 ^ 31 - 2),
  bit_and_mask 30 (x / 2 / 2),
)

-- A length that can be rounded up within a `u32`.
abbrev pub IsLength : ℕ → Type 0
IsLength len = len ≤ 2 ^ 32 - 4

-- `align::<4>` rounds up to the next multiple of 4.
pub align_lem : (len : ℕ) → IsLength len → align 4 len ≡ (len + 3) / 4 * 4
unfolding align
align_lem len h = ap (λ (t : ℕ). bit_and t (2 ^ 32 - 4)) round ∙ clear_two (len + 3) (omega arith)
  where
    round : (len + 4 - 1) % 2 ^ 32 ≡ len + 3
    round = omega arith

-- `align::<4>` of a `u32` over 2 ^ 32 - 4 is 0.
pub align_wraps : (len : ℕ) → 2 ^ 32 - 4 < len → len < 2 ^ 32 → align 4 len ≡ 0
unfolding align
align_wraps len h l =
    ap (λ (t : ℕ). bit_and t (2 ^ 32 - 4)) round
    ∙ clear_two (len - (2 ^ 32 - 3)) (omega arith)
    ∙ omega arith
  where
    round : (len + 4 - 1) % 2 ^ 32 ≡ len - (2 ^ 32 - 3)
    round = omega arith

-- What stands behind the header after a write: the first `len` bytes of the pointer, and then
-- whatever stood there before.
abbrev pub payload : Option (List ℕ) → ℕ → List ℕ → List ℕ
payload none len old = old
payload (some p) len old = take len p ++ drop len old

abbrev pub IsReadable : Option (List ℕ) → ℕ → Type 0
IsReadable none len = Unit
IsReadable (some p) len = len ≤ length p

fill_lem :
    (ptr : Option (List ℕ)) (len : ℕ) (old : List ℕ)
    → length old ≡ align 4 len
    → fill ptr len old ≡ payload ptr len old
unfolding fill
fill_lem none len old h = refl
fill_lem (some p) len old h =
    rw (take-length (align 4 len) old h, no_padding) (append-nil (take len p ++ drop len old))
  where
    no_padding : drop (align 4 len) old ≡ []
    no_padding = ap (drop (align 4 len)) (sym (append-nil old)) ∙ drop-append (align 4 len) old [] h

pub length-payload :
    (ptr : Option (List ℕ)) (len : ℕ) (old : List ℕ)
    → IsReadable ptr len
    → len ≤ length old
    → length (payload ptr len old) ≡ length old
length-payload none len old r h = refl
length-payload (some p) len old r h =
    omega (arith, length-append (take len p) (drop len old), length-take len p, length-drop len old)

-- Everything that a write lays over `old`.
abbrev pub data_image : Option (List ℕ) → ℕ → List ℕ → List ℕ
data_image ptr len old = store_u32 len ++ payload ptr len (drop 4 old)

pub len-le-align : (len : ℕ) → IsLength len → len ≤ align 4 len
len-le-align len h = omega (arith, align_lem len h)

pub length-data_image :
    (ptr : Option (List ℕ)) (len : ℕ) (old : List ℕ)
    → IsLength len
    → IsReadable ptr len
    → length old ≡ 4 + align 4 len
    → length (data_image ptr len old) ≡ 4 + align 4 len
length-data_image ptr len old v r h = omega (
  arith,
  length-append (store_u32 len) (payload ptr len (drop 4 old)),
  length-store_u32 len,
  length-payload ptr len (drop 4 old) r (omega (arith, length-drop 4 old, len-le-align len v)),
  length-drop 4 old,
)

pub write_data_room :
    (ptr : Option (List ℕ)) (len : ℕ) (w old more : List ℕ) (wf rf : List RawFd)
    → length old ≡ 4 + align 4 len
    → write_data ptr len (write_buf w (old ++ more) wf rf)
      ≡ (ok tt, write_buf (w ++ data_image ptr len old) more wf rf)
unfolding write_data
write_data_room ptr len w old more wf rf h = rw (
  le→ltb (length (old ++ more)) (4 + align 4 len) (omega (arith, length-append old more)),
  drop-append_of_le 4 old more (omega arith),
  take-append (align 4 len) (drop 4 old) more back,
  drop-append (align 4 len) (drop 4 old) more back,
  fill_lem ptr len (drop 4 old) back,
  append_assoc,
)
  where
    back : length (drop 4 old) ≡ align 4 len
    back = omega (arith, length-drop 4 old)

pub write_data_short :
    (ptr : Option (List ℕ)) (len : ℕ) (s : WriteBuf)
    → length s.room < 4 + align 4 len
    → write_data ptr len s ≡ (fail buffer_short, s)
unfolding write_data
write_data_short ptr len s h = rw (lt→ltb (length s.room) (4 + align 4 len) h)

split_off-append :
    (e : ProtocolError) (n : ℕ) (front rest : List ℕ) (f : List RawFd)
    → length front ≡ n
    → split_off e n (read_buf (front ++ rest) f) ≡ (ok front, read_buf rest f)
unfolding split_off
split_off-append e n front rest f h = rw (split_at-append front rest n h, split_off)

split_off_short :
    (e : ProtocolError) (n : ℕ) (s : ReadBuf) → length s.bytes < n → split_off e n s ≡ (fail e, s)
unfolding split_off
split_off_short e n s h = rw (split_at_short s.bytes n h, split_off)

read_content : List ℕ → Step ReadBuf (List ℕ × ℕ)
read_content header = split_off content_short (align 4 (load_u32 header)) >>= λ content.
    return (content, load_u32 header)

-- With the header and the padded contents at hand, both are taken off and nothing more.
pub read_data_ok :
    (header content more : List ℕ) (f : List RawFd)
    → length header ≡ 4
    → length content ≡ align 4 (load_u32 header)
    → read_data (read_buf (header ++ (content ++ more)) f)
      ≡ (ok (content, load_u32 header), read_buf more f)
unfolding read_data rollback read_content
read_data_ok header content more f h c = ap (restore (header ++ (content ++ more))) (
    bind-ok (split_off header_short 4) read_content
      (split_off-append header_short 4 header (content ++ more) f h)
    ∙ bind-ok (split_off content_short (align 4 (load_u32 header)))
        (λ content. return (content, load_u32 header))
        (split_off-append content_short (align 4 (load_u32 header)) content more f c))

read_data_headless : (s : ReadBuf) → length s.bytes < 4 → read_data s ≡ (fail header_short, s)
unfolding read_data rollback read_content
read_data_headless s h =
    ap (restore s.bytes)
      (bind-fail (split_off header_short 4) read_content (split_off_short header_short 4 s h))

read_data_contentless :
    (header rest : List ℕ) (f : List RawFd)
    → length header ≡ 4
    → length rest < align 4 (load_u32 header)
    → read_data (read_buf (header ++ rest) f) ≡ (fail content_short, read_buf (header ++ rest) f)
unfolding read_data rollback read_content
read_data_contentless header rest f h c = ap (restore (header ++ rest)) (
    bind-ok (split_off header_short 4) read_content
      (split_off-append header_short 4 header rest f h)
    ∙ bind-fail (split_off content_short (align 4 (load_u32 header)))
        (λ content. return (content, load_u32 header))
        (split_off_short content_short (align 4 (load_u32 header)) (read_buf rest f) c))

-- A read of data either takes a header and the padded contents that it announces, or is refused
-- and leaves both cursors where they were.
pub read_data_cases :
    (b : List ℕ) (f : List RawFd)
    → let need = align 4 (load_u32 (take 4 b)) in
      ((4 + need ≤ length b)
        × (read_data (read_buf b f)
            ≡ (ok (take need (drop 4 b), load_u32 (take 4 b)), read_buf (drop need (drop 4 b)) f)))
      ⊎ ((e : ProtocolError) × (read_data (read_buf b f) ≡ (fail e, read_buf b f)))
read_data_cases b f = elim (Bool-cases (ltb (length b) 4)) [
  | inl short ↦ inr (header_short, read_data_headless (read_buf b f) (ltb→lt _ _ short))
  | inr long ↦ elim (Bool-cases (ltb (length (drop 4 b)) (align 4 (load_u32 (take 4 b))))) [
    | inl short ↦ inr (
      content_short,
      rw (take-append-drop 4 b) at
          (read_data_contentless (take 4 b) (drop 4 b) f (header long) (ltb→lt _ _ short)),
    )
    | inr enough ↦ inl (
      omega (arith, length-drop 4 b, ltb→le _ _ enough, ltb→le _ _ long),
      rw (take-append-drop (align 4 (load_u32 (take 4 b))) (drop 4 b), take-append-drop 4 b) at
          (read_data_ok (take 4 b) (take (align 4 (load_u32 (take 4 b))) (drop 4 b))
            (drop (align 4 (load_u32 (take 4 b))) (drop 4 b)) f (header long)
            (omega
              (arith, length-take (align 4 (load_u32 (take 4 b))) (drop 4 b), ltb→le _ _ enough))),
    )
  ]
]
  where
    header : ltb (length b) 4 ≡ false → length (take 4 b) ≡ 4
    header long = omega (arith, length-take 4 b, ltb→le _ _ long)
