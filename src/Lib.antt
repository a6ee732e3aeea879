-- ===== src/Lib.antt =====
-- ecs-compositor: a wayland compositor and client library in Rust.
--
-- The program's parts. `crates/core` has the wire format of the wayland protocol: values that are
-- read from and written to raw buffers of bytes and descriptors. `crates/codegen` generates, for
-- each message of a protocol file, a struct whose `Value` is put together from those of its
-- fields. `crates/phasesync` and `crates/ring-queue` coordinate ring buffers between threads by
-- arrays of `AtomicU64`: a thread frees its slots by clearing their bits, and whoever finds its own
-- bit cleared looks for the next slot that is in use. `crates/message`, `crates/compositor` and
-- `crates/wayland-tokio` have ring buffers of their own. In `crates/wayland-tokio` the tasks of a
-- connection share its buffers: whoever polls drives the socket for all, and the registry says who
-- is woken next.
--
-- What models which part:
--   Prelude           numbers, tests, lists, bits and `i32`s that all parts use
--   Core/Error        crates/core/src/wl_display.rs (`enumeration`), primitives/mod.rs (`Error`)
--   Core/Value        crates/core/src/primitives/mod.rs (`Value`), raw_slice.rs (`split_at`)
--   Core/Int          crates/core/src/primitives/inner/int.rs, fixed.rs and fd.rs
--   Core/Object       crates/core/src/primitives/inner/object.rs
--   Core/Array        crates/core/src/primitives/inner/array.rs, `align` of primitives/mod.rs
--   Core/Header       crates/core/src/message.rs, `event::error` of wl_display.rs
--   Codegen/Message   crates/codegen/src/generate.rs (`GenArg::new`, `generate_message`)
--   Phasesync/Position   crates/phasesync/src/position.rs, position/carrying_add.rs
--   Phasesync/Helpers    crates/phasesync/src/helpers.rs
--   Phasesync/ChunkIter  crates/phasesync/src/chunk_iter.rs
--   Phasesync/FreeSlots  crates/phasesync/src/lib.rs
--   RingQueue/Position   crates/ring-queue/src/lib.rs, bitfield.rs, `slot` of reader.rs
--   RingQueue/Reader     crates/ring-queue/src/reader.rs, `wrapping_add!` of helpers.rs
--   Message/TravelLogs   crates/message/src/travel_logs.rs
--   Compositor/Subqueue      crates/compositor/src/socket/buffer.rs (`Subqueue`)
--   Compositor/MessageQueue  crates/compositor/src/socket/buffer.rs (`MessageQueue`)
--   Compositor/Deallocate    crates/compositor/src/socket/buffer.rs (`MessageQueue::deallocate`)
--   Codegen/ErrorEvent   crates/core/src/wl_display.rs (`event::error`) against Codegen/Message
--   Codegen/Opcodes      crates/codegen/src/generate.rs (`gen_message_opcodes`, `typ_name`),
--                        crates/wayland-tokio/src/handle.rs (`recv_fd_count`)
--   Codegen/Enums        crates/codegen/src/generate.rs (`impl_enum`, `impl_bitfield`)
--   Codegen/Builder      crates/codegen/src/builder/dir.rs, builder/mod.rs
--   WaylandTokio/Span    crates/wayland-tokio/src/buf/span.rs
--   WaylandTokio/Registry    crates/wayland-tokio/src/connection/registry.rs
--   WaylandTokio/Io          crates/wayland-tokio/src/drive_io.rs
--   WaylandTokio/Connection  crates/wayland-tokio/src/connection/recv.rs, send.rs, ready_fut.rs, mod.rs
--   WaylandTokio/Recv        crates/wayland-tokio/src/buf/recv/io.rs, mod.rs, recv_handle.rs,
--                            buf/macros.rs
-- The `Tests` of each part apply its theorems to concrete values.
--
-- How state is modelled. A cursor `*mut *const [T]` is the list of the items that it still spans,
-- and a method that moves cursors is a function from their state to a result and the new state.
-- On an error the state is the one that the code leaves behind. A write cursor has two lists, what
-- it has passed and what it still spans with the old contents, since a write may leave some old
-- bytes alone. The trait `Value` is a record; `Core/Value/Law` states what an implementation
-- promises with respect to a wire format, and every implementation and every generated message is
-- shown to keep it.
--
-- Numbers are naturals below the width of the machine type, which hypotheses state; sums that wrap
-- in a build without overflow checks are written with the remainder. A `u64` in memory that other
-- threads change is the list of what it holds at each `compare_exchange` of the modelled thread;
-- the list is as long as the run is observed, and a run that is still looping says so. What a
-- socket does is a list of outcomes in the same way, what other threads do to a queue between two
-- steps is a function, and a panic is a result of its own. Where a module
-- models a run without interference, its first comment says so. The search of `crates/phasesync` is
-- recursion on a number of rounds; what is stated of it holds for every number. The clean-up of
-- `crates/compositor` is too; one round more than there are messages is enough. The iterator of the
-- protocol builder is asked for a number of items, and one more than there are events is enough;
-- the loop over the messages of a receive buffer has a number of rounds, and one more than there
-- are bytes is enough where each message has some.
--
-- Not modelled: floating point, text formatting and generated names, the calls of the sockets with
-- their raw structures, what a lock of the standard library does, and the parts
-- that the manifest lists so.
pub mod Prelude
pub mod Core
pub mod Codegen
pub mod Phasesync
pub mod RingQueue
pub mod Message
pub mod Compositor
pub mod WaylandTokio
