-- ===== src/RingQueue.antt =====
-- crates/ring-queue: a ring of slots, data and descriptors with positions packed into one `u64`.
pub mod Position
pub mod Reader
pub mod Tests
