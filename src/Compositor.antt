-- ===== src/Compositor.antt =====
-- crates/compositor: the queues of a socket.
pub mod Subqueue
pub mod MessageQueue
pub mod Deallocate
pub mod Tests
