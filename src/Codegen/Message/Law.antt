-- ===== src/Codegen/Message/Law.antt =====
-- Every generated message is lawful, whatever its fields.
use ecs_compositor.Prelude.{
  ℕ, ◌<◌, ◌≡◌, refl, ◌∙◌, ◌⊎◌, inl, inr, List, [], ◌∷◌, append-nil, arith, if◌then◌else◌,
}
use ecs_compositor.Core.Value.Law.{Format, Lawful}
use ecs_compositor.Core.Value.Word.{length-zero}
use ecs_compositor.Core.Value.Seq.{seq, seq_format}
use ecs_compositor.Core.Value.Seq.Law.{seq-Lawful}
use ecs_compositor.Core.Int.{int, uint, fixed, fd}
use ecs_compositor.Core.Int.Law.{
  int_format, uint_format, fd_format, int-Lawful, uint-Lawful, fixed-Lawful, fd-Lawful,
}
use ecs_compositor.Core.Object.{object, option_object, new_id}
use ecs_compositor.Core.Object.Law.{
  object_format, option_object_format, new_id_format, object-Lawful, option_object-Lawful,
  new_id-Lawful,
}
use ecs_compositor.Core.Array.{array, string, option_string}
use ecs_compositor.Core.Array.Law.{
  array_format, string_format, option_string_format, array-Lawful, string-Lawful,
  option_string-Lawful,
}
use ecs_compositor.Core.Header.{new_id_dyn}
use ecs_compositor.Core.Header.Law.{new_id_dyn_format, new_id_dyn-Lawful}
use ecs_compositor.Codegen.Message.{
  FieldType, Field, field, Fields, fields, is_fd, count_fds, message,
}

abbrev pub field_format : (t : FieldType) → Format (Field t)
field_format FieldType.int = int_format
field_format FieldType.uint = uint_format
field_format FieldType.fixed = int_format
field_format FieldType.array = array_format
field_format FieldType.string = string_format
field_format FieldType.option_string = option_string_format
field_format FieldType.new_id = new_id_format
field_format FieldType.new_id_dyn = new_id_dyn_format
field_format FieldType.object = object_format
field_format FieldType.option_object = option_object_format
field_format FieldType.fd = fd_format

pub field-Lawful : (t : FieldType) → Lawful (field t) (field_format t)
unfolding field
field-Lawful FieldType.int = int-Lawful
field-Lawful FieldType.uint = uint-Lawful
field-Lawful FieldType.fixed = fixed-Lawful
field-Lawful FieldType.array = array-Lawful
field-Lawful FieldType.string = string-Lawful
field-Lawful FieldType.option_string = option_string-Lawful
field-Lawful FieldType.new_id = new_id-Lawful
field-Lawful FieldType.new_id_dyn = new_id_dyn-Lawful
field-Lawful FieldType.object = object-Lawful
field-Lawful FieldType.option_object = option_object-Lawful
field-Lawful FieldType.fd = fd-Lawful

-- Nothing at all.
abbrev pub unit_format : Format (Unit {0})
unit_format = record {
  IsValid = λ _. Unit;
  Same = λ _ _. Unit;
  size = λ _. 0;
  extra = λ _. 0;
  image = λ _ old. [];
  fds = λ _. [];
}

abbrev pub message_format : (ts : List FieldType) → Format (Fields ts)
message_format [] = unit_format
message_format (t ∷ ts) = seq_format (field_format t) (message_format ts)

fields-nil-Lawful : Lawful (fields []) unit_format
unfolding fields
fields-nil-Lawful = record {
  length_image = λ a old v h. refl;
  length_fds = λ a. refl;
  announces = λ a. refl;
  writes = λ a w old more wf of mf v fits.
      rw (length-zero old fits.0, length-zero of fits.1, append-nil w, append-nil wf);
  write_refused = λ a s v h. absurd (none_less h);
  reads = λ a old more mf v h. (tt, refl, tt);
  read_refused = λ a old n mf v h lt. absurd (omega arith);
  fds_refused = λ a old more n v h lt. absurd (omega arith);
}
  where
    none_less : {m n : ℕ} → (m < 0) ⊎ (n < 0) → ⊥
    none_less (inl h) = omega arith
    none_less (inr h) = omega arith

pub fields-Lawful : (ts : List FieldType) → Lawful (fields ts) (message_format ts)
unfolding fields
fields-Lawful [] = fields-nil-Lawful
fields-Lawful (t ∷ ts) = seq-Lawful (field-Lawful t) (fields-Lawful ts)

field_fds : (t : FieldType) → (field t).fd_count ≡ (if is_fd t then 1 else 0)
unfolding field int uint fixed fd array string option_string new_id new_id_dyn object option_object
field_fds FieldType.int = refl
field_fds FieldType.uint = refl
field_fds FieldType.fixed = refl
field_fds FieldType.array = refl
field_fds FieldType.string = refl
field_fds FieldType.option_string = refl
field_fds FieldType.new_id = refl
field_fds FieldType.new_id_dyn = refl
field_fds FieldType.object = refl
field_fds FieldType.option_object = refl
field_fds FieldType.fd = refl

pub fields_fds : (ts : List FieldType) → (fields ts).fd_count ≡ count_fds ts
unfolding fields count_fds seq
fields_fds [] = refl
fields_fds (t ∷ ts) = ground (arith, field_fds t, fields_fds ts)

-- Every message type that can be generated implements its wire format: the length that it
-- announces is, in 32 bits, the size in the format and what the length exceeds it by (which an
-- optional string in it makes four); the image has the size of the format, a write with room lays
-- the image down and one without is refused, a read of the image gives the fields back, and a read
-- of a part of it or without all descriptors is refused.
pub message-Lawful : (ts : List FieldType) → Lawful (message ts) (message_format ts)
unfolding message
message-Lawful ts = record {
  length_image = law.length_image;
  length_fds = λ a. law.length_fds a ∙ fields_fds ts;
  announces = law.announces;
  writes = law.writes;
  write_refused = law.write_refused;
  reads = law.reads;
  read_refused = law.read_refused;
  fds_refused = law.fds_refused;
}
  where
    law : Lawful (fields ts) (message_format ts)
    law = fields-Lawful ts
