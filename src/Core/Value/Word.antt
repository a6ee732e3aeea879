-- ===== src/Core/Value/Word.antt =====
-- The laws of a type that travels as one 32-bit word, and of one that travels as a descriptor.
use ecs_compositor.Prelude.{
  ℕ, ◌^◌, ◌<◌, ◌≡◌, refl, ap, ◌∙◌, ◌⊎◌, inl, inr, List, [], ◌∷◌, ◌++◌, none, some, length, take,
  arith, lt→ltb, le→ltb, length-append, take-append, drop-append, length-take, append-nil,
}
use ecs_compositor.Core.Error.{ok, fail, ProtocolError}
use ecs_compositor.Core.Value.{
  Value, RawFd, ReadBuf, WriteBuf, split_at, store_u32, load_u32, read_u32, write_u32,
}
use ecs_compositor.Core.Value.Law.{read_buf, write_buf, Fails, Format, Fits, Lawful}

module _ {ℓ} {A : Type ℓ} where
  pub split_at-append :
      (xs ys : List A) (n : ℕ) → length xs ≡ n → split_at (xs ++ ys) n ≡ some (xs, ys)
  unfolding split_at
  split_at-append xs ys n h = rw (
    le→ltb (length (xs ++ ys)) n (omega (arith, length-append xs ys)),
    take-append n xs ys h,
    drop-append n xs ys h,
  )

  pub split_at_short : (xs : List A) (n : ℕ) → length xs < n → split_at xs n ≡ none
  unfolding split_at
  split_at_short xs n h = rw (lt→ltb (length xs) n h)

pub length-store_u32 : (w : ℕ) → length (store_u32 w) ≡ 4
unfolding store_u32
length-store_u32 w = refl

pub load_u32-store_u32 : (w : ℕ) → w < 2 ^ 32 → load_u32 (store_u32 w) ≡ w
unfolding store_u32 load_u32
load_u32-store_u32 w h = omega arith

pub read_u32-store_u32 :
    (e : ProtocolError) (w : ℕ) (more : List ℕ) (f : List RawFd)
    → w < 2 ^ 32
    → read_u32 e (read_buf (store_u32 w ++ more) f) ≡ (ok w, read_buf more f)
unfolding read_u32
read_u32-store_u32 e w more f h =
    rw (split_at-append (store_u32 w) more 4 (length-store_u32 w), read_u32, load_u32-store_u32 w h)

pub read_u32_short :
    (e : ProtocolError) (s : ReadBuf) → length s.bytes < 4 → read_u32 e s ≡ (fail e, s)
unfolding read_u32
read_u32_short e s h = rw (split_at_short s.bytes 4 h, read_u32)

pub write_u32_room :
    (e : ProtocolError) (w : ℕ) (d old more : List ℕ) (wf rf : List RawFd)
    → length old ≡ 4
    → write_u32 e w (write_buf d (old ++ more) wf rf)
      ≡ (ok tt, write_buf (d ++ store_u32 w) more wf rf)
unfolding write_u32
write_u32_room e w d old more wf rf h = rw (split_at-append old more 4 h, write_u32)

pub write_u32_short :
    (e : ProtocolError) (w : ℕ) (s : WriteBuf) → length s.room < 4 → write_u32 e w s ≡ (fail e, s)
unfolding write_u32
write_u32_short e w s h = rw (split_at_short s.room 4 h, write_u32)

-- The format of a type with one word.
abbrev pub word_format : {A : Type 0} → (A → Type 0) → (A → ℕ) → Format A
word_format {A} IsValid to_word = record {
  IsValid = IsValid;
  Same = λ a b. a ≡ b;
  size = λ a. 4;
  extra = λ a. 0;
  image = λ a old. store_u32 (to_word a);
  fds = λ a. [];
}

pub length-zero {ℓ} : {A : Type ℓ} (xs : List A) → length xs ≡ 0 → xs ≡ []
length-zero [] h = refl
length-zero (x ∷ xs) h = absurd (omega arith)

-- `read` and `write` of such a type go through `read_u32` and `write_u32`.
module _ {A : Type 0} (V : Value A) (IsValid : A → Type 0) (to_word : A → ℕ) (er ew : ProtocolError)
    (no_fds : V.fd_count ≡ 0) (len_eq : (a : A) → V.len a ≡ 4)
    (word_lt : (a : A) → IsValid a → to_word a < 2 ^ 32)
    (read_ok : (a : A) (s s' : ReadBuf)
      → IsValid a
      → read_u32 er s ≡ (ok (to_word a), s')
      → V.read s ≡ (ok a, s'))
    (read_fail : (s : ReadBuf) → read_u32 er s ≡ (fail er, s) → V.read s ≡ (fail er, s))
    (write_eq : (a : A) (s : WriteBuf) → V.write a s ≡ write_u32 ew (to_word a) s) where
  pub word-Lawful : Lawful V (word_format IsValid to_word)
  word-Lawful = record {
    length_image = λ a old v h. length-store_u32 (to_word a);
    length_fds = λ a. sym_zero;
    announces = λ a. omega (arith, len_eq a);
    writes = λ a w old more wf of mf v fits. writes a w old more wf of mf fits;
    write_refused = refused;
    reads = λ a old more mf v h.
        (a, read_ok a _ _ v (read_u32-store_u32 er (to_word a) more mf (word_lt a v)), refl);
    read_refused =
        λ a old n mf v h lt. (er, ap (λ p. p.0) (read_fail _ (read_u32_short er _ (cut a n lt))));
    fds_refused = λ a old more n v h lt. absurd (omega arith);
  }
    where
      sym_zero : ◌≡◌ {A = ℕ} 0 (V.fd_count)
      sym_zero = omega arith

      cut : (a : A) (n : ℕ) → n < 4 → length (take n (store_u32 (to_word a))) < 4
      cut a n lt = omega (arith, length-take n (store_u32 (to_word a)))

      writes :
          (a : A) (w old more : List ℕ) (wf of mf : List RawFd)
          → Fits (word_format IsValid to_word) a old of
          → V.write a (write_buf w (old ++ more) wf (of ++ mf))
            ≡ (ok tt, write_buf (w ++ store_u32 (to_word a)) more (wf ++ []) mf)
      writes a w old more wf of mf (h, hf) =
          rw (length-zero of hf, append-nil)
            (write_eq a _ ∙ write_u32_room ew (to_word a) w old more wf mf h)

      refused :
          (a : A) (s : WriteBuf)
          → IsValid a
          → (length s.room < 4) ⊎ (length s.room_fds < 0)
          → Fails (V.write a s).0
      refused a s v (inl h) =
          (ew, ap (λ p. p.0) (write_eq a s ∙ write_u32_short ew (to_word a) s h))
      refused a s v (inr h) = absurd (omega arith)
