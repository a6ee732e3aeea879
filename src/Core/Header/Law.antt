-- ===== src/Core/Header/Law.antt =====
-- The laws of the message header and of `new_id_dyn`.
use ecs_compositor.Prelude.{◌+◌, ◌-◌, ◌*◌, ◌^◌, ◌≤◌, ◌<◌, ◌≡◌, refl, sym, ap₂, ◌∙◌, arith}
use ecs_compositor.Prelude.Bits.{bit_and_mask, bit_or_fields}
use ecs_compositor.Core.Value.Law.{Format, Lawful}
use ecs_compositor.Core.Value.Seq.{seq, seq_format}
use ecs_compositor.Core.Value.Seq.Law.{seq-Lawful}
use ecs_compositor.Core.Value.Via.{read_two, read_three, via_format, via-Lawful}
use ecs_compositor.Core.Int.{uint}
use ecs_compositor.Core.Int.Law.{uint_format, uint-Lawful}
use ecs_compositor.Core.Object.{object, new_id}
use ecs_compositor.Core.Object.Law.{
  IsId, object_format, new_id_format, object-Lawful, new_id-Lawful,
}
use ecs_compositor.Core.Array.{string}
use ecs_compositor.Core.Array.Law.{IsString, SameString, string_format, string-Lawful}
use ecs_compositor.Core.Header.{
  MessageHeader, split_word, join_word, message_header, content_len, data_len, NewIdDyn, new_id_dyn,
}

-- The two halves of the second word, put together and taken apart.
join_word-lem :
    (h : MessageHeader) → h.opcode < 2 ^ 16 → join_word h ≡ h.datalen * 2 ^ 16 + h.opcode
unfolding join_word
join_word-lem h o = bit_or_fields 16 h.datalen h.opcode o

abbrev pub IsHeader : MessageHeader → Type 0
IsHeader h = IsId h.object_id.id × (h.datalen < 2 ^ 16) × (h.opcode < 2 ^ 16)

split-join :
    (h : MessageHeader)
    → h.datalen < 2 ^ 16
    → h.opcode < 2 ^ 16
    → split_word h.object_id (join_word h) ≡ h
unfolding split_word
split-join h d o = ground (arith, join_word-lem h o, bit_and_mask 16 (join_word h))

pub join_word-lt :
    (h : MessageHeader) → h.datalen < 2 ^ 16 → h.opcode < 2 ^ 16 → join_word h < 2 ^ 32
join_word-lt h d o = omega (arith, join_word-lem h o)

abbrev pub header_format : Format MessageHeader
header_format =
    via_format (seq_format object_format uint_format) (λ h. (h.object_id, join_word h)) IsHeader
      (λ h k. h ≡ k)

-- A header with a nonzero object id, a 16-bit length and a 16-bit opcode travels in eight bytes:
-- written with room and read back as the same header, and refused without room or from fewer
-- bytes.
pub message_header-Lawful : Lawful message_header header_format
unfolding message_header seq
message_header-Lawful =
    via-Lawful (seq-Lawful object-Lawful uint-Lawful) message_header
      (λ h. (h.object_id, join_word h)) (λ p. split_word p.0 p.1) IsHeader (λ h k. h ≡ k)
      (unfold object uint in refl) (unfold object uint in λ h. refl)
      (read_two object.read uint.read split_word) (λ h s. refl)
      (λ h v. (v.0, join_word-lt h v.1 v.2))
      (λ h p v e. sym (split-join h v.1 v.2) ∙ ap₂ split_word e.0 e.1)

-- The length of what follows the header: the announced length without the header's eight bytes,
-- and a wrapped number where fewer than eight are announced.
pub content_len_lem :
    (h : MessageHeader)
    → h.datalen < 2 ^ 16
    → ((data_len ≤ h.datalen) → content_len h + data_len ≡ h.datalen)
      × (h.datalen < data_len → 2 ^ 16 - data_len ≤ content_len h)
unfolding content_len
content_len_lem h d = ((λ p. omega arith), (λ p. omega arith))

abbrev pub IsNewIdDyn : NewIdDyn → Type 0
IsNewIdDyn n = IsString n.name × (n.version < 2 ^ 32) × IsId n.id.id

abbrev pub SameNewIdDyn : NewIdDyn → NewIdDyn → Type 0
SameNewIdDyn n m = SameString n.name m.name × (n.version ≡ m.version) × (n.id ≡ m.id)

abbrev pub new_id_dyn_format : Format NewIdDyn
new_id_dyn_format =
    via_format (seq_format string_format (seq_format uint_format new_id_format))
      (λ n. (n.name, (n.version, n.id))) IsNewIdDyn SameNewIdDyn

-- A `new_id_dyn` with a valid name, a 32-bit version and a nonzero id travels as these three in
-- order: written with room, read back with the same length and bytes of the name, version and id,
-- and refused without room or from fewer bytes.
pub new_id_dyn-Lawful : Lawful new_id_dyn new_id_dyn_format
unfolding new_id_dyn seq
new_id_dyn-Lawful =
    via-Lawful (seq-Lawful string-Lawful (seq-Lawful uint-Lawful new_id-Lawful)) new_id_dyn
      (λ n. (n.name, (n.version, n.id))) (λ p. record { name = p.0; version = p.1.0; id = p.1.1 })
      IsNewIdDyn SameNewIdDyn (unfold string uint new_id in refl) (λ n. omega arith)
      (read_three string.read uint.read new_id.read
        (λ name version id. record { name = name; version = version; id = id }))
      (λ n s. refl) (λ n v. (v.0, (v.1, v.2))) (λ n p v e. (e.0, e.1.0, e.1.1))
