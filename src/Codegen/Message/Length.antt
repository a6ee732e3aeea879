-- ===== src/Codegen/Message/Length.antt =====
-- `len`, which the sender puts into the header, against the bytes that `write` takes.
use ecs_compositor.Prelude.{
  ℕ, ◌+◌, ◌*◌, ◌%◌, ◌^◌, ◌≡◌, refl, ap, ◌∙◌, List, [], ◌∷◌, arith, none, some,
}
use ecs_compositor.Codegen.Message.{FieldType, Field, Fields, message}
use ecs_compositor.Codegen.Message.Law.{field_format, message_format, message-Lawful}

-- The optional strings that are there.
abbrev pub present : (t : FieldType) → Field t → ℕ
present FieldType.option_string none = 0
present FieldType.option_string (some a) = 1
present FieldType.int _ = 0
present FieldType.uint _ = 0
present FieldType.fixed _ = 0
present FieldType.array _ = 0
present FieldType.string _ = 0
present FieldType.new_id _ = 0
present FieldType.new_id_dyn _ = 0
present FieldType.object _ = 0
present FieldType.option_object _ = 0
present FieldType.fd _ = 0

abbrev pub present_all : (ts : List FieldType) → Fields ts → ℕ
present_all [] _ = 0
present_all (t ∷ ts) m = present t m.0 + present_all ts m.1

field_extra : (t : FieldType) (a : Field t) → (field_format t).extra a ≡ 4 * present t a
field_extra FieldType.int a = refl
field_extra FieldType.uint a = refl
field_extra FieldType.fixed a = refl
field_extra FieldType.array a = refl
field_extra FieldType.string a = refl
field_extra FieldType.option_string none = refl
field_extra FieldType.option_string (some a) = refl
field_extra FieldType.new_id a = refl
field_extra FieldType.new_id_dyn a = refl
field_extra FieldType.object a = refl
field_extra FieldType.option_object a = refl
field_extra FieldType.fd a = refl

message_extra :
    (ts : List FieldType) (m : Fields ts) → (message_format ts).extra m ≡ 4 * present_all ts m
message_extra [] m = refl
message_extra (t ∷ ts) m = omega (arith, field_extra t m.0, message_extra ts m.1)

-- For every message, the length that it announces is, in 32 bits, the number of bytes of its wire
-- format, which write lays down for a valid one, plus four for each optional string that is there.
pub len-eq-size :
    (ts : List FieldType) (m : Fields ts)
    → (message ts).len m ≡ ((message_format ts).size m + 4 * present_all ts m) % 2 ^ 32
len-eq-size ts m =
    (message-Lawful ts).announces m
    ∙ ap (λ (n : ℕ). ((message_format ts).size m + n) % 2 ^ 32) (message_extra ts m)
