-- ===== src/Core/Int.antt =====
-- crates/core/src/primitives/inner/int.rs, fixed.rs and fd.rs, and the `Value` of the enumeration
-- `error` (crates/core/src/wl_display.rs).
pub mod Law
pub mod Fixed
use ecs_compositor.Prelude.{ℕ, ◌*◌, ◌/◌, ◌+◌, ◌-◌, suc, zero, Option, none, some}
use ecs_compositor.Prelude.Int.{ℤ, pos, negsuc, to_bits, from_bits}
use ecs_compositor.Core.Error.{ErrorCode, from_u32, to_u32, with_msg, ProtocolError}
use ecs_compositor.Core.Value.{Value, Step, ReadBuf, RawFd, read_u32, write_u32, read_fd, write_fd}
use ecs_compositor.Core.Value.{◌>>=◌, return, throw}

-- The errors, by where they are raised.
abbrev pub read_int_error : ProtocolError
read_int_error = with_msg ErrorCode.invalid_method "failed to read int"

abbrev pub write_int_error : ProtocolError
write_int_error = with_msg ErrorCode.implementation "not enough write buffer for int"

abbrev pub read_fixed_error : ProtocolError
read_fixed_error = with_msg ErrorCode.invalid_method "failed to read fixed-point"

abbrev pub write_fixed_error : ProtocolError
write_fixed_error = with_msg ErrorCode.implementation "not enough buffer space"

abbrev pub read_fd_error : ProtocolError
read_fd_error = with_msg ErrorCode.implementation "not enough fds in read buffer"

abbrev pub write_fd_error : ProtocolError
write_fd_error = with_msg ErrorCode.implementation "fds buffer has not enough space"

unfoldable pub int : Value ℤ
int = record {
  fd_count = 0;
  len = λ i. 4;
  read = do
    w ← read_u32 read_int_error
    return (from_bits w);
  write = λ i. write_u32 write_int_error (to_bits i);
}

unfoldable pub uint : Value ℕ
uint = record {
  fd_count = 0;
  len = λ w. 4;
  read = read_u32 read_int_error;
  write = λ w. write_u32 write_int_error w;
}

-- A `fixed` is the `i32` of 256ths.
unfoldable pub fixed : Value ℤ
fixed = record {
  fd_count = 0;
  len = λ i. 4;
  read = do
    w ← read_u32 read_fixed_error
    return (from_bits w);
  write = λ i. write_u32 write_fixed_error (to_bits i);
}

unfoldable pub fd : Value RawFd
fd = record {
  fd_count = 1;
  len = λ f. 0;
  read = read_fd read_fd_error;
  write = λ f. write_fd write_fd_error f;
}

-- `option.ok_or(error)?`
unfoldable pub ok_or : {A : Type 0} → Option A → ProtocolError → Step ReadBuf A
ok_or none e = throw e
ok_or (some a) e = return a

abbrev pub unknown_error_code : ProtocolError
unknown_error_code = with_msg ErrorCode.implementation "invalid u32 value for `wl_display::error`"

-- The enumeration `error` of `wl_display` as a value.
unfoldable pub error : Value ErrorCode
error = record {
  fd_count = 0;
  len = λ e. uint.len (to_u32 e);
  read = do
    w ← uint.read
    ok_or (from_u32 w) unknown_error_code;
  write = λ e. uint.write (to_u32 e);
}
