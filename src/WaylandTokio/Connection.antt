-- ===== src/WaylandTokio/Connection.antt =====
-- crates/wayland-tokio/src/connection: the tasks that send and receive over one connection.
--
-- A task holds the lock of the buffers throughout a poll, or does not get it. What `drive_io` does
-- at each of its calls is an argument: it is ready with new buffers, it fails, or it is pending.
pub mod Driver
pub mod Receive
pub mod Send
pub mod RoundTrip
pub mod Client
pub mod Decode
pub mod Tests
