-- ===== src/Codegen/ErrorEvent.antt =====
-- The event `wl_display.error` of crates/core/src/wl_display.rs, which is written by hand, against
-- the message that crates/codegen would generate for its fields.
use ecs_compositor.Prelude.{◌≡◌, refl, sym, ap, fun_ext, arith, List, [], ◌∷◌}
use ecs_compositor.Core.Error.{Result, ok, fail}
use ecs_compositor.Core.Value.{WriteBuf, resume, ◌>>◌, return}
use ecs_compositor.Core.Int.{uint}
use ecs_compositor.Core.Object.{object}
use ecs_compositor.Core.Array.{option_string}
use ecs_compositor.Core.Value.Seq.{seq}
use ecs_compositor.Core.Header.{DisplayError, to_str, display_error_len, display_error_write}
use ecs_compositor.Codegen.Message.{FieldType, field, Fields, fields, message}

-- `object`, `uint` and `string` with `allow-null`.
abbrev pub error_types : List FieldType
error_types = FieldType.object ∷ FieldType.uint ∷ FieldType.option_string ∷ []

abbrev pub error_fields : DisplayError → Fields error_types
error_fields e = (e.object, (e.err, (to_str e.msg, tt)))

-- Nothing is added by a step that only returns.
resume-return : {S : Type 0} (r : Result (Unit {0}) × S) → resume (λ _. return tt) r ≡ r
resume-return (ok tt, s) = refl
resume-return (fail e, s) = refl

-- The event `wl_display.error`, which is written by hand, is written exactly like the generated
-- message with the fields `object`, `uint` and optional `string`, and announces the same length.
pub display_error-message :
    (e : DisplayError) (s : WriteBuf)
    → (display_error_write e s ≡ (message error_types).write (error_fields e) s)
      × (display_error_len e ≡ (message error_types).len (error_fields e))
unfolding display_error_write display_error_len message fields field seq
display_error-message e s = (
  ap (λ k. (object.write e.object >> (uint.write e.err >> k)) s)
      (fun_ext (λ s'. sym (resume-return (option_string.write (to_str e.msg) s')))),
  omega arith,
)
