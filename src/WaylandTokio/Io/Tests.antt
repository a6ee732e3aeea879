-- ===== src/WaylandTokio/Io/Tests.antt =====
-- The theorems on the buffers of a connection at concrete values.
use ecs_compositor.Prelude.{
  ℕ, zero, suc, ◌+◌, ◌^◌, ◌≤◌, ◌<◌, ◌≡◌, ◌⊎◌, refl, ap, List, [], ◌∷◌, true, false, none, some,
  arith, length, take,
}
use ecs_compositor.Codegen.Message.{FieldType, Fields, message}
use ecs_compositor.Core.Object.{Object}
use ecs_compositor.Core.Int.{uint}
use ecs_compositor.WaylandTokio.Io.{BufDir, Interest, Io, save_cursor}
use ecs_compositor.WaylandTokio.Io.Messages.{
  MessageType, transmit, not_sent, wants_send, rx_msg_buf,
}
use ecs_compositor.WaylandTokio.Io.Messages.Deliver.{behind, waiting_for_data, rx_msg_buf_cases}
use ecs_compositor.WaylandTokio.Io.Socket.{
  taken, send, received, recv, recv_would_block, send_would_block,
}
use ecs_compositor.WaylandTokio.Io.Socket.Stream.{WellSent, send-WellSent}
use ecs_compositor.WaylandTokio.Io.Socket.Bounds.{WellReceived, recv-WellReceived}
use ecs_compositor.WaylandTokio.Io.Socket.Faults.{recv_underflow, recv_overflow}
use ecs_compositor.WaylandTokio.Io.Drive.{Ready, drive_io}
use ecs_compositor.WaylandTokio.Io.Drive.Stream.{WellDriven, drive_io-WellDriven}
use ecs_compositor.WaylandTokio.Io.Drive.Room.{now, room_exhausted}

-- A message of one `uint`, with the opcode 5.
abbrev types : List FieldType
types = FieldType.uint ∷ []

abbrev number : MessageType (Fields types)
number = record { value = message types; op = 5 }

abbrev seven : Fields types
seven = (7, tt)

abbrev display : Object
display = record { id = 1 }

abbrev idle : Interest
idle = record { recv = true; send = false; recv_closed = false; send_closed = false }

abbrev buffers : List ℕ → List ℕ → List ℕ → BufDir
buffers before items unused = record {
  da = record { before = before; items = items; unused = unused };
  fd = record { before = []; items = []; unused = [] };
}

abbrev io_with : BufDir → BufDir → Io
io_with tx rx = record { tx = tx; rx = rx; interest = idle; rx_hdr = none }

abbrev twelve : List ℕ
twelve = 0 ∷ 0 ∷ 0 ∷ 0 ∷ 0 ∷ 0 ∷ 0 ∷ 0 ∷ 0 ∷ 0 ∷ 0 ∷ 0 ∷ []

abbrev start : Io
start = io_with (buffers [] (1 ∷ 2 ∷ []) twelve) (buffers [] (3 ∷ 4 ∷ []) [])

rx_msg_buf_cases_example :
    ((1 ≤ length start.rx.da.items)
      × (0 ≤ length start.rx.fd.items)
      × (rx_msg_buf 1 0 start ≡ (
        some (record {
          cursor = save_cursor start.rx;
          bytes = take 1 start.rx.da.items;
          fds = take 0 start.rx.fd.items;
        }),
        behind 1 0 start,
      )))
    ⊎ (((length start.rx.da.items < 1) ⊎ (length start.rx.fd.items < 0))
        × (rx_msg_buf 1 0 start ≡ (none, waiting_for_data start)))
rx_msg_buf_cases_example = rx_msg_buf_cases 1 0 start

send-WellSent_example : WellSent start (send (taken 1) start)
send-WellSent_example = send-WellSent (taken 1) start

recv-WellReceived_example :
    WellReceived (received (8 ∷ []) []) start (recv (received (8 ∷ []) []) start)
recv-WellReceived_example = recv-WellReceived (received (8 ∷ []) []) start

recv_underflow_example : recv recv_would_block start ≡ none
recv_underflow_example =
    recv_underflow recv_would_block start refl refl (omega arith) (omega arith) (omega arith)

zeros : ℕ → List ℕ
zeros zero = []
zeros (suc n) = 0 ∷ zeros n

length-zeros : (n : ℕ) → length (zeros n) ≡ n
unfolding zeros
length-zeros zero = refl
length-zeros (suc n) = ap suc (length-zeros n)

-- A third of the buffer is in use, and more than the rest arrives.
abbrev half_full : Io
half_full = io_with (buffers [] [] []) (buffers [] (1 ∷ []) (zeros (2 ^ 17)))

recv_overflow_example : recv (received (zeros (2 ^ 17 + 1)) []) half_full ≡ none
recv_overflow_example =
    recv_overflow half_full (zeros (2 ^ 17 + 1)) [] refl (omega arith)
      (omega (arith, length-zeros (2 ^ 17)))
      (omega (arith, length-zeros (2 ^ 17), length-zeros (2 ^ 17 + 1)))
      (omega (arith, length-zeros (2 ^ 17)))

abbrev all_ready : Ready
all_ready = record { readable = true; writable = true; read_closed = false; write_closed = false }

drive_io-WellDriven_example : WellDriven start (
    drive_io
      ((taken 1, received (8 ∷ []) []) ∷ (send_would_block, recv_would_block) ∷ [])
      all_ready
      start)
drive_io-WellDriven_example =
    drive_io-WellDriven
      ((taken 1, received (8 ∷ []) []) ∷ (send_would_block, recv_would_block) ∷ []) all_ready start

abbrev full : Io
full = io_with (buffers twelve [] (0 ∷ [])) (buffers [] [] [])

room_exhausted_example :
    transmit number display seven full
    ≡ not_sent (record full { interest = wants_send full.interest })
room_exhausted_example = room_exhausted number display seven full full (now full) (omega arith)
