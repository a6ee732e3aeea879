-- ===== src/WaylandTokio/Connection/Tests.antt =====
-- The theorems on the tasks of a connection at concrete values.
use ecs_compositor.Prelude.{
  ℕ, ◌+◌, ◌<◌, ◌≡◌, ◌⊎◌, refl, List, [], ◌∷◌, ◌++◌, true, false, none, some, Option, arith, length,
}
use ecs_compositor.Core.Error.{ok}
use ecs_compositor.Core.Value.{split_at, write_u32, store_u32}
use ecs_compositor.Core.Value.Law.{read_buf}
use ecs_compositor.Core.Value.Seq.{seq}
use ecs_compositor.Core.Int.{uint}
use ecs_compositor.Core.Object.{Object, object, write_id}
use ecs_compositor.Core.Header.{MessageHeader, content_len, message_header, join_word}
use ecs_compositor.Codegen.Message.{
  ArgType, field_type, FieldType, Fields, message, fields, field, count_fds,
}
use ecs_compositor.Codegen.Opcodes.{Message}
use ecs_compositor.Codegen.Opcodes.Known.{HasTypes}
use ecs_compositor.WaylandTokio.Connection.Decode.{MsgBuf, decode_opcode, decode_msg}
use ecs_compositor.WaylandTokio.Connection.Decode.Sent.{message_type, receiver_of, decode-transmit}
use ecs_compositor.Codegen.Message.Law.{message_format, message-Lawful}
use ecs_compositor.WaylandTokio.Registry.{Registry, RecvEntry, get, new}
use ecs_compositor.WaylandTokio.Io.{Interest, BufDir, Io}
use ecs_compositor.WaylandTokio.Io.Messages.{MessageType, total_len, transmit, tx_msg_buf, sent}
use ecs_compositor.WaylandTokio.Io.Messages.Transmit.{header, message_bytes}
use ecs_compositor.WaylandTokio.Io.Messages.Deliver.{waiting_for_data}
use ecs_compositor.WaylandTokio.Connection.Driver.{pending_io, ready_io}
use ecs_compositor.WaylandTokio.Connection.Receive.{
  Receiver, ready, pending, end, End, drive, done, pass, dispatch, registered,
}
use ecs_compositor.WaylandTokio.Connection.Receive.Dispatch.{
  HasMessage, LacksMessage, OwnCases, dispatch_own, dispatch_other, dispatch_unknown,
}
use ecs_compositor.WaylandTokio.Connection.RoundTrip.{body, pass-transmit}
use ecs_compositor.WaylandTokio.Connection.Send.{Environment}
use ecs_compositor.WaylandTokio.Connection.Send.Once.{Turn}

abbrev types : List FieldType
types = FieldType.uint ∷ []

abbrev number : MessageType (Fields types)
number = record { value = message types; op = 5 }

abbrev seven : Fields types
seven = (7, tt)

abbrev display : Object
display = record { id = 1 }

number-len : number.value.len seven ≡ (message_format types).size seven + 0
unfolding message fields seq field uint
number-len = refl

abbrev idle : Interest
idle = record { recv = true; send = false; recv_closed = false; send_closed = false }

abbrev buffers : List ℕ → List ℕ → BufDir
buffers items unused = record {
  da = record { before = []; items = items; unused = unused };
  fd = record { before = []; items = []; unused = [] };
}

abbrev io_with : BufDir → BufDir → Io
io_with tx rx = record { tx = tx; rx = rx; interest = idle; rx_hdr = none }

abbrev twelve : List ℕ
twelve = 0 ∷ 0 ∷ 0 ∷ 0 ∷ 0 ∷ 0 ∷ 0 ∷ 0 ∷ 0 ∷ 0 ∷ 0 ∷ 0 ∷ []

abbrev counts : ℕ → Option ℕ
counts opcode = some 0

abbrev receiver : Receiver
receiver = record { id = 1; fd_count = counts; cx = 40 }

-- What the sender of `seven` puts into its buffer, and a byte behind it.
abbrev sent_bytes : List ℕ
sent_bytes =
    message_bytes number (message_format types) (message-Lawful types) display seven 0
      (omega arith, omega arith) (omega arith) (omega arith, tt) number-len twelve

abbrev arrived : Io
arrived = io_with (buffers [] []) (buffers (sent_bytes ++ 99 ∷ []) [])

abbrev sent_header : MessageHeader
sent_header =
    header number (message_format types) (message-Lawful types) display seven 0
      (omega arith, omega arith) (omega arith) (omega arith, tt) number-len

counts-number : receiver.fd_count number.op ≡ some number.value.fd_count
unfolding message count_fds
counts-number = refl

number-short : total_len number display seven < 65536
unfolding message fields seq field uint
number-short = omega arith

number-room : length twelve ≡ total_len number display seven
unfolding message fields seq field uint
number-room = refl

abbrev sent_body : List ℕ
sent_body =
    body number (message_format types) (message-Lawful types) display seven 0
      (omega arith, omega arith) (omega arith) (omega arith, tt) number-len number-short twelve
      number-room

pass-transmit_example :
    (e : End) × (b : Fields types) × (pass receiver arrived new ≡ done e)
    × (e.polled ≡ ready sent_header sent_body [])
    × (e.io.rx.da.items ≡ 99 ∷ [])
    × (e.io.rx.fd.items ≡ [])
    × (e.io.rx_hdr ≡ none)
    × ((message types).read (read_buf sent_body []) ≡ (ok b, read_buf [] []))
    × (message_format types).Same seven b
pass-transmit_example =
    pass-transmit number (message_format types) (message-Lawful types) display seven 0
      (omega arith, omega arith) (omega arith) (omega arith, tt) number-len number-short twelve
      number-room receiver arrived new (99 ∷ []) [] refl refl refl refl counts-number

-- A header of twelve bytes for the object 1, and one for the object 3.
abbrev for_1 : MessageHeader
for_1 = record { object_id = record { id = 1 }; datalen = 12; opcode = 5 }

abbrev for_3 : MessageHeader
for_3 = record { object_id = record { id = 3 }; datalen = 12; opcode = 5 }

abbrev four_bytes : Io
four_bytes = io_with (buffers [] []) (buffers (7 ∷ 0 ∷ 0 ∷ 0 ∷ []) [])

abbrev entry_3 : RecvEntry
entry_3 = record { waker = 50; fd_count = counts }

abbrev with_3 : Registry
with_3 = record new { receiver_map = (3, entry_3) ∷ [] }

-- A sender waits for the lock, and the task 50 receives for the object 0 (which no object has).
abbrev busy : Registry
busy = record new {
  receiver_map = (0, record { waker = 50; fd_count = counts }) ∷ [];
  sender_locked = some 60;
}

dispatch_own_example : OwnCases receiver for_1 four_bytes busy (receiver.fd_count for_1.opcode)
dispatch_own_example = dispatch_own receiver for_1 four_bytes busy refl

get-3 : get 3 with_3.receiver_map ≡ some entry_3
unfolding get
get-3 = refl

dispatch_other_example :
    (HasMessage (content_len for_3) 0 four_bytes
      × (dispatch receiver for_3 four_bytes with_3
          ≡ done (end pending four_bytes (registered receiver with_3) (50 ∷ []))))
    ⊎ (LacksMessage (content_len for_3) 0 four_bytes
        × (dispatch receiver for_3 four_bytes with_3 ≡ drive (waiting_for_data four_bytes)))
dispatch_other_example =
    dispatch_other receiver for_3 four_bytes with_3 0 entry_3 (λ e. omega arith) get-3 refl

get-none : get 3 new.receiver_map ≡ none
unfolding get
get-none = refl

dispatch_unknown_example :
    dispatch receiver for_3 four_bytes new
    ≡ done (end pending four_bytes (registered receiver new) [])
dispatch_unknown_example =
    dispatch_unknown receiver for_3 four_bytes new (λ e. omega arith) get-none

abbrev free_locks : Environment
free_locks = record {
  first_lock = true;
  second_lock = true;
  first_drive = λ io. pending_io;
  second_drive = λ io. pending_io;
}

abbrev turn : Turn
turn = record {
  env = free_locks;
  cx = 40;
  io = io_with (buffers [] twelve) (buffers [] []);
  registry = new;
}

abbrev ready_turn : Turn
ready_turn = record turn { env = record free_locks { second_drive = λ io. ready_io io } }

-- An interface with the one message that `seven` is sent as, with the opcode 0.
abbrev setting : Message
setting = record {
  variant = 97 ∷ [];
  args = record { typ = ArgType.uint; has_interface = false; allow_null = false } ∷ [];
}

abbrev one_message : List Message
one_message = setting ∷ []

setting-types : HasTypes setting.args types
unfolding field_type
setting-types = (refl, tt)

abbrev set : MessageType (Fields types)
set = message_type types 0

set-short : total_len set display seven < 65536
unfolding message fields seq field uint
set-short = omega arith

-- A byte waits to be sent before the message.
abbrev sender : Io
sender = io_with (buffers (5 ∷ []) twelve) (buffers [] [])

abbrev sending_twelve : Io
sending_twelve =
    record (io_with (buffers (5 ∷ 1 ∷ 0 ∷ 0 ∷ 0 ∷ 0 ∷ 0 ∷ 12 ∷ 0 ∷ 7 ∷ 0 ∷ 0 ∷ 0 ∷ []) [])
      (buffers [] [])) { interest = record idle { send = true } }

sender-sent : transmit set display seven sender ≡ sent sending_twelve
unfolding transmit tx_msg_buf split_at message fields seq field uint count_fds object write_id
    write_u32 store_u32 message_header join_word
sender-sent = refl

abbrev set_arrived : Io
set_arrived =
    io_with (buffers [] []) (buffers (1 ∷ 0 ∷ 0 ∷ 0 ∷ 0 ∷ 0 ∷ 12 ∷ 0 ∷ 7 ∷ 0 ∷ 0 ∷ 0 ∷ 99 ∷ []) [])

decode-transmit_example :
    (e : End) × (buf : MsgBuf) × (b : Fields types) × (pass
        (receiver_of one_message 1 40)
        set_arrived
        new
      ≡ done e)
    × (e.polled ≡ ready buf.hdr buf.da buf.fd)
    × (decode_opcode one_message buf ≡ some setting.variant)
    × (decode_msg (message types) buf ≡ ok b)
    × (message_format types).Same seven b
decode-transmit_example =
    decode-transmit one_message (tt, tt) 0 setting refl types setting-types display
      (omega arith, omega arith) (omega arith) seven 0 (omega arith, tt) number-len set-short sender
      sending_twelve sender-sent 40 set_arrived new (99 ∷ []) [] refl refl refl
