-- ===== src/Core/Int/Law.antt =====
-- The laws of the values that are one word, and of a descriptor.
use ecs_compositor.Prelude.{
  ℕ, zero, suc, ◌<◌, ◌^◌, ◌⊎◌, ◌≡◌, refl, ap, ◌∙◌, List, append-nil, [], ◌∷◌, ◌++◌, length, take,
  arith, some,
}
use ecs_compositor.Prelude.Int.{ℤ, IsI32, to_bits, from_bits, from_bits-to_bits, to_bits-lt}
use ecs_compositor.Core.Error.{ErrorCode, from_u32, to_u32, ok, fail}
use ecs_compositor.Core.Value.{RawFd, ReadBuf, WriteBuf, read_u32, read_fd, write_fd, return, Step}
use ecs_compositor.Core.Value.Law.{
  bind-ok, bind-fail, read_buf, write_buf, Fails, Format, Fits, Lawful,
}
use ecs_compositor.Core.Value.Word.{word_format, word-Lawful}
use ecs_compositor.Core.Int.{int, uint, fixed, fd, error, ok_or, read_int_error, write_int_error}
use ecs_compositor.Core.Int.{
  unknown_error_code, read_fixed_error, write_fixed_error, read_fd_error, write_fd_error,
}

abbrev pub int_format : Format ℤ
int_format = word_format IsI32 to_bits

abbrev pub uint_format : Format ℕ
uint_format = word_format (λ w. w < 2 ^ 32) (λ w. w)

abbrev pub error_format : Format ErrorCode
error_format = word_format (λ e. Unit) to_u32

pub int-Lawful : Lawful int int_format
unfolding int
int-Lawful =
    word-Lawful int IsI32 to_bits read_int_error write_int_error refl (λ a. refl) to_bits-lt
      (λ i s s' v e.
        bind-ok (read_u32 read_int_error) (λ w. return (from_bits w)) e
        ∙ ap (λ x. (ok x, s')) (from_bits-to_bits i v))
      (λ s e. bind-fail (read_u32 read_int_error) (λ w. return (from_bits w)) e) (λ i s. refl)

pub uint-Lawful : Lawful uint uint_format
unfolding uint
uint-Lawful =
    word-Lawful uint (λ w. w < 2 ^ 32) (λ w. w) read_int_error write_int_error refl (λ a. refl)
      (λ w v. v) (λ w s s' v e. e) (λ s e. e) (λ w s. refl)

pub fixed-Lawful : Lawful fixed int_format
unfolding fixed
fixed-Lawful =
    word-Lawful fixed IsI32 to_bits read_fixed_error write_fixed_error refl (λ a. refl) to_bits-lt
      (λ i s s' v e.
        bind-ok (read_u32 read_fixed_error) (λ w. return (from_bits w)) e
        ∙ ap (λ x. (ok x, s')) (from_bits-to_bits i v))
      (λ s e. bind-fail (read_u32 read_fixed_error) (λ w. return (from_bits w)) e) (λ i s. refl)

to_u32-lt : (e : ErrorCode) → to_u32 e < 2 ^ 32
unfolding to_u32
to_u32-lt ErrorCode.invalid_object = omega arith
to_u32-lt ErrorCode.invalid_method = omega arith
to_u32-lt ErrorCode.no_memory = omega arith
to_u32-lt ErrorCode.implementation = omega arith

pub from_u32-to_u32 : (e : ErrorCode) → from_u32 (to_u32 e) ≡ some e
unfolding from_u32 to_u32
from_u32-to_u32 ErrorCode.invalid_object = refl
from_u32-to_u32 ErrorCode.invalid_method = refl
from_u32-to_u32 ErrorCode.no_memory = refl
from_u32-to_u32 ErrorCode.implementation = refl

error_of_word : ℕ → Step ReadBuf ErrorCode
error_of_word w = ok_or (from_u32 w) unknown_error_code

pub error-Lawful : Lawful error error_format
unfolding error uint ok_or error_of_word
error-Lawful =
    word-Lawful error (λ e. Unit) to_u32 read_int_error write_int_error refl (λ a. refl)
      (λ e _. to_u32-lt e)
      (λ e s s' v r.
        bind-ok (read_u32 read_int_error) error_of_word r
        ∙ ap (λ o. ok_or o unknown_error_code s') (from_u32-to_u32 e))
      (λ s r. bind-fail (read_u32 read_int_error) error_of_word r) (λ e s. refl)

-- A descriptor takes no bytes and one place among the descriptors.
abbrev pub fd_format : Format RawFd
fd_format = record {
  IsValid = λ f. Unit;
  Same = λ f g. f ≡ g;
  size = λ f. 0;
  extra = λ f. 0;
  image = λ f old. [];
  fds = λ f. f ∷ [];
}

write_fd_full :
    (f : RawFd) (w r : List ℕ) (wf rf : List RawFd)
    → length rf < 1
    → (write_fd write_fd_error f (write_buf w r wf rf)).0 ≡ fail write_fd_error
unfolding write_fd
write_fd_full f w r wf [] h = refl
write_fd_full f w r wf (g ∷ rf) h = absurd (omega arith)

pub fd-Lawful : Lawful fd fd_format
unfolding fd read_fd write_fd
fd-Lawful = record {
  length_image = λ f old v h. refl;
  length_fds = λ f. refl;
  announces = λ f. refl;
  writes = writes;
  write_refused = refused;
  reads = λ f old more mf v h. (f, refl, refl);
  read_refused = λ f old n mf v h lt. absurd (omega arith);
  fds_refused = no_descriptor;
}
  where
    writes :
        (f : RawFd) (w old more : List ℕ) (wf of mf : List RawFd)
        → Unit {0}
        → Fits fd_format f old of
        → fd.write f (write_buf w (old ++ more) wf (of ++ mf))
          ≡ (ok tt, write_buf (w ++ []) more (wf ++ (f ∷ [])) mf)
    writes f w [] more wf (g ∷ []) mf v fits = rw append-nil
    writes f w [] more wf [] mf v fits = absurd (omega arith)
    writes f w [] more wf (g ∷ h ∷ of) mf v fits = absurd (omega arith)
    writes f w (b ∷ old) more wf of mf v fits = absurd (omega arith)

    refused :
        (f : RawFd) (s : WriteBuf)
        → Unit {0}
        → (length s.room < 0) ⊎ (length s.room_fds < 1)
        → Fails (fd.write f s).0
    refused f s v h =
        (write_fd_error, write_fd_full f s.written s.room s.written_fds s.room_fds (omega arith))

    no_descriptor :
        (f : RawFd) (old more : List ℕ) (n : ℕ)
        → Unit {0}
        → length old ≡ 0
        → n < 1
        → Fails (fd.read (read_buf more (take n (f ∷ [])))).0
    no_descriptor f old more zero v h lt = (read_fd_error, refl)
    no_descriptor f old more (suc n) v h lt = absurd (omega arith)
