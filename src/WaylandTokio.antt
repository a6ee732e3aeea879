-- ===== src/WaylandTokio.antt =====
-- crates/wayland-tokio: the ring of a receive or send buffer.
pub mod Span
pub mod Registry
pub mod Io
pub mod Connection
pub mod Recv
pub mod Tests
