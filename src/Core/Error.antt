-- ===== src/Core/Error.antt =====
-- crates/core/src/wl_display.rs, `enumeration::error`, and the `Error` and `Result` of
-- crates/core/src/primitives/mod.rs.
use ecs_compositor.Prelude.{ℕ, String, Option, none, some, Bool, true, false, ◌==◌, if◌then◌else◌}

pub data ErrorCode : Type 0 where
  invalid_object invalid_method no_memory implementation : ErrorCode

-- `enumeration::from_u32`.
unfoldable pub from_u32 : ℕ → Option ErrorCode
from_u32 int =
    if int == 0
    then some ErrorCode.invalid_object
    else if int == 1
    then some ErrorCode.invalid_method
    else if int == 2
    then some ErrorCode.no_memory
    else if int == 3
    then some ErrorCode.implementation
    else none

-- `enumeration::to_u32`, the discriminant.
unfoldable pub to_u32 : ErrorCode → ℕ
to_u32 ErrorCode.invalid_object = 0
to_u32 ErrorCode.invalid_method = 1
to_u32 ErrorCode.no_memory = 2
to_u32 ErrorCode.implementation = 3

-- `Display`; the flag is `f.alternate()`, set by `{:#}`.
unfoldable pub display : ErrorCode → Bool → String
display ErrorCode.invalid_object false = "invalid_object"
display ErrorCode.invalid_object true = "server couldn't find object"
display ErrorCode.invalid_method false = "invalid_method"
display ErrorCode.invalid_method true =
    "method doesn't exist on the specified interface or malformed request"
display ErrorCode.no_memory true = "no_memory"
display ErrorCode.no_memory false = "server is out of memory"
display ErrorCode.implementation true = "implementation"
display ErrorCode.implementation false = "implementation error in compositor"

-- `primitives::Error`.
pub record ProtocolError : Type 0 where
  pub err : ErrorCode
  pub msg : String

pub data Result {ℓ} (A : Type ℓ) : Type ℓ where
  ok : A → Result A
  fail : ProtocolError → Result A

-- `error::msg`.
abbrev pub with_msg : ErrorCode → String → ProtocolError
with_msg e m = record { err = e; msg = m }
