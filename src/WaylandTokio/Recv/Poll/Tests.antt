-- ===== src/WaylandTokio/Recv/Poll/Tests.antt =====
-- The theorems on polls of the receive buffer and on cursors at concrete values.
use ecs_compositor.Prelude.{
  ℕ, ◌+◌, ◌≡◌, ◌≢◌, refl, inl, List, [], ◌∷◌, ◌++◌, true, false, none, arith, ◌==◌, if◌then◌else◌,
}
use ecs_compositor.Prelude.Int.{pos}
use ecs_compositor.Core.Error.{Result, ok}
use ecs_compositor.Core.Value.{store_u32}
use ecs_compositor.Core.Header.{MessageHeader}
use ecs_compositor.WaylandTokio.Span.Queue.{indices}
use ecs_compositor.WaylandTokio.Recv.{
  Info, Bufs, RecvState, BufSpan, new_info, new_span, init_bufs, new_spans, data_hold,
}
use ecs_compositor.WaylandTokio.Recv.Collect.{Callback}
use ecs_compositor.WaylandTokio.Recv.Collect.Handle.{CoversOldest}
use ecs_compositor.WaylandTokio.Recv.Cursor.{cursor}
use ecs_compositor.WaylandTokio.Recv.Cursor.Messages.{
  Stored, IsStored, bytes_of, fds_of, messages, reads, reads-stored,
}
use ecs_compositor.WaylandTokio.Recv.Sock.{SockOutcome, io_count, sock_pending, read_sock_into_buf}
use ecs_compositor.WaylandTokio.Recv.Sock.Room.{
  NoHolds, Obeys, BothMeet, read_sock_into_buf-conserved, no_room,
}
use ecs_compositor.WaylandTokio.Recv.Commit.{looping, exchange_loop}
use ecs_compositor.WaylandTokio.Recv.Commit.Exchange.{
  EndsWell, exchange_loop-EndsWell, exchange_loop_quiet,
}
use ecs_compositor.WaylandTokio.Recv.Dropped.{Freed, all_slots_dead}
use ecs_compositor.WaylandTokio.Recv.Poll.{recv}
use ecs_compositor.WaylandTokio.Recv.Poll.Handle.{HandleHas, bufs_read, recv-CoversOldest}

abbrev fresh : RecvState
fresh = record {
  received = new_info;
  socket_closed = false;
  recv_data_hold = none;
  recv_ctrl_hold = none;
  free_data_hold = none;
  free_ctrl_hold = none;
}

fresh-NoHolds : NoHolds fresh new_info
fresh-NoHolds = record {
  recv_holds = (refl, refl);
  free_holds = (refl, refl);
  data_pos = (omega arith, omega arith);
  ctrl_pos = (omega arith, omega arith);
}

-- Eight bytes arrive, and then nothing.
abbrev eight : List SockOutcome
eight = io_count 8 0 ∷ sock_pending ∷ []

eight-Obeys : Obeys eight (init_bufs fresh new_info new_info)
unfolding init_bufs new_spans
eight-Obeys = (omega arith, omega arith, tt)

read_sock_into_buf-conserved_example :
    let b = init_bufs fresh new_info new_info in
    let b' = (read_sock_into_buf eight fresh b).2 in
    (indices b'.recv.da ++ indices b'.free.da ≡ indices b.recv.da ++ indices b.free.da)
    × (indices b'.recv.ct ++ indices b'.free.ct ≡ indices b.recv.ct ++ indices b.free.ct)
    × BothMeet b'
read_sock_into_buf-conserved_example =
    read_sock_into_buf-conserved eight fresh new_info new_info fresh-NoHolds eight-Obeys

abbrev at_end : RecvState
at_end = record fresh { received = record new_info { data_pos = data_hold } }

no_room_example : indices (init_bufs at_end new_info new_info).free.da ≡ []
no_room_example = no_room at_end new_info new_info (refl, refl) refl (omega arith)

abbrev dead : Info
dead = record new_info { all_slots_dead = true }

abbrev empty_bufs : Bufs
empty_bufs = init_bufs fresh new_info new_info

exchange_loop-EndsWell_example :
    EndsWell empty_bufs none
      (dead ∷ dead ∷ [])
      new_info
      (exchange_loop (dead ∷ dead ∷ []) empty_bufs none new_info).0
exchange_loop-EndsWell_example = exchange_loop-EndsWell (dead ∷ dead ∷ []) empty_bufs none new_info

exchange_loop_quiet_example :
    (exchange_loop (dead ∷ dead ∷ []) empty_bufs none new_info).0 ≢ looping
exchange_loop_quiet_example =
    exchange_loop_quiet (dead ∷ dead ∷ []) empty_bufs none new_info (inl refl)

abbrev takes_all : Callback ℕ
takes_all = record { should_include = λ s hdr. (true, s + 1); fd_count = λ s hdr. (0, s) }

abbrev memory : List ℕ
memory = 1 ∷ 0 ∷ 0 ∷ 0 ∷ 5 ∷ 0 ∷ 8 ∷ 0 ∷ []

recv-CoversOldest_example :
    let b = bufs_read eight new_info new_info fresh in
    HandleHas
      (CoversOldest b (new_span b.recv.da.free b.recv.ct.free))
      (recv (λ n. n) (new_info ∷ []) new_info takes_all memory 9 eight new_info fresh 0).polled
recv-CoversOldest_example =
    recv-CoversOldest takes_all (λ n. n) memory 9 (new_info ∷ []) eight new_info new_info fresh 0
      fresh-NoHolds eight-Obeys

-- Two messages, the second with four bytes and a descriptor, in the middle of a memory.
abbrev header_for : ℕ → MessageHeader
header_for len = record { object_id = record { id = 1 }; datalen = len; opcode = len }

abbrev old : List ℕ
old = 0 ∷ 0 ∷ 0 ∷ 0 ∷ 0 ∷ 0 ∷ 0 ∷ 0 ∷ []

abbrev first : Stored
first = record { hdr = header_for 8; old = old; body = []; fds = [] }

abbrev second : Stored
second = record { hdr = header_for 12; old = old; body = 1 ∷ 2 ∷ 3 ∷ 4 ∷ []; fds = pos 7 ∷ [] }

abbrev fds_for : MessageHeader → Result ℕ
fds_for hdr = if hdr.opcode == 12 then ok 1 else ok 0

first-IsStored : IsStored fds_for first
first-IsStored = record {
  valid = ((omega arith, omega arith), omega arith, omega arith);
  eight = refl;
  announced = refl;
  counted = refl;
}

second-IsStored : IsStored fds_for second
second-IsStored = record {
  valid = ((omega arith, omega arith), omega arith, omega arith);
  eight = refl;
  announced = refl;
  counted = refl;
}

abbrev both : BufSpan
both = record { da = 2; da_len = 20; ct = 0; ct_len = 1; count = 2 }

reads-stored_example :
    reads
      (9 ∷ 9 ∷ bytes_of (first ∷ second ∷ []) ++ 5 ∷ [])
      (fds_of (first ∷ second ∷ []) ++ [])
      both
      fds_for
      3
      (cursor both)
    ≡ messages (first ∷ second ∷ [])
unfolding store_u32
reads-stored_example =
    reads-stored fds_for (first ∷ second ∷ []) both (9 ∷ 9 ∷ []) (5 ∷ []) [] []
      (first-IsStored, (second-IsStored, tt)) refl refl refl refl

-- Another handle moves the word once, and then the drop marks it.
abbrev dead_slots : Freed
dead_slots = record { commits = []; result = all_slots_dead }

abbrev moved : Info
moved = record new_info { slot_index = 3 }
