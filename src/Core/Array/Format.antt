-- ===== src/Core/Array/Format.antt =====
-- The format of a length with that many bytes, and the laws of a type that travels so.
use ecs_compositor.Prelude.{
  ℕ, ◌+◌, ◌%◌, ◌^◌, ◌≤◌, ◌<◌, ◌≡◌, sym, ap, ◌∙◌, ◌⊎◌, inl, inr, List, [], ◌++◌, Option, none, some,
  arith, length, take, drop, length-take, length-drop, take-append, take-take, append-nil,
  append_assoc,
}
use ecs_compositor.Core.Error.{ok, fail, ProtocolError}
use ecs_compositor.Core.Value.{Value, RawFd, ReadBuf, WriteBuf, store_u32, load_u32}
use ecs_compositor.Core.Value.Law.{read_buf, write_buf, Fails, Format, Fits, Lawful}
use ecs_compositor.Core.Value.Word.{length-zero, length-store_u32, load_u32-store_u32}
use ecs_compositor.Core.Array.{align, read_data, write_data, buffer_short}
use ecs_compositor.Core.Array.Data.{
  IsLength, IsReadable, payload, data_image, length-data_image, length-payload, len-le-align,
  write_data_room, write_data_short, read_data_ok, read_data_cases,
}

-- The first `len` bytes of `content` are those behind the pointer, where there is one.
abbrev pub Sees : Option (List ℕ) → ℕ → List ℕ → Type 0
Sees none len content = Unit
Sees (some p) len content = take len content ≡ take len p

abbrev pub Shows : Option (List ℕ) → ℕ → Option (List ℕ) → Type 0
Shows p len none = ⊥
Shows p len (some q) = Sees p len q

Sees-payload :
    (ptr : Option (List ℕ)) (len : ℕ) (old : List ℕ)
    → IsReadable ptr len
    → Sees ptr len (payload ptr len old)
Sees-payload none len old r = tt
Sees-payload (some p) len old r =
    take-append len (take len p) (drop len old) (omega (arith, length-take len p))

-- A read of the image finds the payload.
read_data_image :
    (ptr : Option (List ℕ)) (len : ℕ) (old more : List ℕ) (f : List RawFd)
    → IsLength len
    → IsReadable ptr len
    → length old ≡ 4 + align 4 len
    → read_data (read_buf (data_image ptr len old ++ more) f)
      ≡ (ok (payload ptr len (drop 4 old), len), read_buf more f)
read_data_image ptr len old more f v r h =
    rw (← append_assoc, whole) at
      (read_data_ok (store_u32 len) (payload ptr len (drop 4 old)) more f (length-store_u32 len)
        (full ∙ ap (align 4) (sym whole)))
  where
    whole : load_u32 (store_u32 len) ≡ len
    whole = load_u32-store_u32 len (omega arith)

    full : length (payload ptr len (drop 4 old)) ≡ align 4 len
    full = omega (
      arith,
      length-payload ptr len (drop 4 old) r (omega (arith, length-drop 4 old, len-le-align len v)),
      length-drop 4 old,
    )

-- A read of less than the image is refused.
read_data_cut :
    (ptr : Option (List ℕ)) (len : ℕ) (old : List ℕ) (n : ℕ) (f : List RawFd)
    → IsLength len
    → n < 4 + align 4 len
    → let b = take n (data_image ptr len old) in
      (e : ProtocolError) × (read_data (read_buf b f) ≡ (fail e, read_buf b f))
read_data_cut ptr len old n f v lt = elim (read_data_cases (take n (data_image ptr len old)) f) [
  | inr refused ↦ refused
  | inl (enough, _) ↦ absurd (omega (arith, enough, need, short))
]
  where
    b : List ℕ
    b = take n (data_image ptr len old)

    short : length b ≤ n
    short = omega (arith, length-take n (data_image ptr len old))

    need : (4 ≤ n) → align 4 (load_u32 (take 4 b)) ≡ align 4 len
    need h =
        ap (λ x. align 4 (load_u32 x))
          (take-take 4 n (data_image ptr len old) h
            ∙ take-append 4 (store_u32 len) (payload ptr len (drop 4 old)) (length-store_u32 len))
        ∙ ap (align 4) (load_u32-store_u32 len (omega arith))

-- The format of a type that is a length and that many bytes, padded to a word.
abbrev pub data_format :
    {A : Type 0}
    → (A → Type 0)
    → (A → A → Type 0)
    → (A → Option (List ℕ))
    → (A → ℕ)
    → (A → ℕ)
    → Format A
data_format IsValid Same ptr len extra = record {
  IsValid = IsValid;
  Same = Same;
  size = λ a. 4 + align 4 (len a);
  extra = extra;
  image = λ a old. data_image (ptr a) (len a) old;
  fds = λ a. [];
}

module _ {A : Type 0} (V : Value A) (IsValid : A → Type 0) (Same : A → A → Type 0)
    (ptr : A → Option (List ℕ)) (len : A → ℕ) (extra : A → ℕ) (no_fds : V.fd_count ≡ 0)
    (len_eq : (a : A) → V.len a ≡ (4 + align 4 (len a) + extra a) % 2 ^ 32)
    (valid : (a : A) → IsValid a → IsLength (len a) × IsReadable (ptr a) (len a))
    (read_ok : (a : A) (content : List ℕ) (s s' : ReadBuf)
      → IsValid a
      → Sees (ptr a) (len a) content
      → read_data s ≡ (ok (content, len a), s')
      → (b : A) × (V.read s ≡ (ok b, s')) × Same a b)
    (read_fail : (s : ReadBuf) (e : ProtocolError)
      → read_data s ≡ (fail e, s)
      → V.read s ≡ (fail e, s))
    (write_eq : (a : A) (s : WriteBuf) → V.write a s ≡ write_data (ptr a) (len a) s) where
  pub data-Lawful : Lawful V (data_format IsValid Same ptr len extra)
  data-Lawful = record {
    length_image = λ a old v h. length-data_image (ptr a) (len a) old (valid a v).0 (valid a v).1 h;
    length_fds = λ a. omega arith;
    announces = len_eq;
    writes = writes;
    write_refused = refused;
    reads = λ a old more mf v h.
        read_ok a (payload (ptr a) (len a) (drop 4 old)) _ _ v
          (Sees-payload (ptr a) (len a) (drop 4 old) (valid a v).1)
          (read_data_image (ptr a) (len a) old more mf (valid a v).0 (valid a v).1 h);
    read_refused = λ a old n mf v h lt.
        let (e, r) = read_data_cut (ptr a) (len a) old n mf (valid a v).0 lt in
        (e, ap (λ p. p.0) (read_fail _ e r));
    fds_refused = λ a old more n v h lt. absurd (omega arith);
  }
    where
      writes :
          (a : A) (w old more : List ℕ) (wf of mf : List RawFd)
          → IsValid a
          → Fits (data_format IsValid Same ptr len extra) a old of
          → V.write a (write_buf w (old ++ more) wf (of ++ mf))
            ≡ (ok tt, write_buf (w ++ data_image (ptr a) (len a) old) more (wf ++ []) mf)
      writes a w old more wf of mf v (h, hf) =
          rw (length-zero of hf, append-nil)
            (write_eq a _ ∙ write_data_room (ptr a) (len a) w old more wf mf h)

      refused :
          (a : A) (s : WriteBuf)
          → IsValid a
          → (length s.room < 4 + align 4 (len a)) ⊎ (length s.room_fds < 0)
          → Fails (V.write a s).0
      refused a s v (inl h) =
          (buffer_short, ap (λ p. p.0) (write_eq a s ∙ write_data_short (ptr a) (len a) s h))
      refused a s v (inr h) = absurd (omega arith)
