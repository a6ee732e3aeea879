-- ===== src/Codegen/Tests.antt =====
-- The theorems on generated messages at a concrete message.
use ecs_compositor.Prelude.{
  ◌+◌, ◌*◌, ◌%◌, ◌^◌, ◌≤◌, ◌<◌, ◌≡◌, refl, ◌⊎◌, List, [], ◌∷◌, ◌++◌, none, some, arith, length,
  take, drop, true, false,
}
use ecs_compositor.Prelude.Int.{pos, negsuc}
use ecs_compositor.Core.Error.{ok}
use ecs_compositor.Core.Value.{WriteBuf}
use ecs_compositor.Core.Value.Law.{read_buf, write_buf, Fails, Lawful}
use ecs_compositor.Core.Array.{Str, align}
use ecs_compositor.Codegen.Message.{ArgType, field_type, FieldType, Fields, message, count_fds}
use ecs_compositor.Codegen.Message.Law.{message_format, message-Lawful}
use ecs_compositor.Codegen.Message.Length.{len-eq-size}
use ecs_compositor.Codegen.Message.RoundTrip.{write_exactly, read-write}
use ecs_compositor.Core.Header.{DisplayError, display_error_len, display_error_write}
use ecs_compositor.Codegen.ErrorEvent.{error_types, error_fields, display_error-message}

-- A text of two bytes, with its trailing zero.
abbrev text : Str
text = record { ptr = some (72 ∷ 105 ∷ 0 ∷ []); len = 3 }

-- `int`, `string` with `allow-null`, `fd` and `object`.
abbrev types : List FieldType
types = FieldType.int ∷ FieldType.option_string ∷ FieldType.fd ∷ FieldType.object ∷ []

abbrev values : Fields types
values = (negsuc 4, (some text, (pos 7, (record { id = 3 }, tt))))

values_valid : (message_format types).IsValid values
values_valid =
    (omega arith, ((omega arith, omega arith, omega arith), (tt, ((omega arith, omega arith), tt))))

abbrev room : WriteBuf
room =
    write_buf [] (9 ∷ 9 ∷ 9 ∷ 9 ∷ 9 ∷ 9 ∷ 9 ∷ 9 ∷ 9 ∷ 9 ∷ 9 ∷ 9 ∷ 9 ∷ 9 ∷ 9 ∷ 9 ∷ 9 ∷ []) []
      (pos 0 ∷ [])

message-Lawful_example : Lawful (message types) (message_format types)
message-Lawful_example = message-Lawful types

len-eq-size_example :
    (message types).len values ≡ ((message_format types).size values + 4 * 1) % 2 ^ 32
len-eq-size_example = len-eq-size types values

write_exactly_example :
    (((message_format types).size values ≤ length room.room)
      × (count_fds types ≤ length room.room_fds)
      × ((message types).write values room ≡ (
        ok tt,
        write_buf
            (room.written
              ++ (message_format types).image values
                  (take ((message_format types).size values) room.room))
            (drop ((message_format types).size values) room.room)
            (room.written_fds ++ (message_format types).fds values)
            (drop (count_fds types) room.room_fds),
      )))
    ⊎ (((length room.room < (message_format types).size values)
          ⊎ (length room.room_fds < count_fds types))
        × Fails ((message types).write values room).0)
write_exactly_example = write_exactly types values values_valid room

read-write_example :
    (b : Fields types) × (let (_, s) =
        (message types).write values (write_buf [] (take 16 room.room) [] (pos 0 ∷ [])) in
      (message types).read (read_buf (s.written ++ (1 ∷ [])) (s.written_fds ++ []))
      ≡ (ok b, read_buf (1 ∷ []) []))
    × (message_format types).Same values b
unfolding count_fds align
read-write_example =
    read-write types values values_valid (take 16 room.room) (1 ∷ []) (pos 0 ∷ []) [] refl refl

-- The arguments of `wl_shm.create_pool`, and one that the code generator cannot express.
field_type-new_id :
    field_type (record { typ = ArgType.new_id; has_interface = true; allow_null = false })
    ≡ some FieldType.new_id
unfolding field_type
field_type-new_id = refl

field_type-nullable_int :
    field_type (record { typ = ArgType.int; has_interface = false; allow_null = true }) ≡ none
unfolding field_type
field_type-nullable_int = refl

abbrev event : DisplayError
event = record { object = record { id = 1 }; err = 2; msg = 111 ∷ 111 ∷ 109 ∷ [] }

display_error-message_example :
    (display_error_write event room ≡ (message error_types).write (error_fields event) room)
    × (display_error_len event ≡ (message error_types).len (error_fields event))
display_error-message_example = display_error-message event room
