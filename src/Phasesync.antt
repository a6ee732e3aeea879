-- ===== src/Phasesync.antt =====
-- crates/phasesync: positions of bits in an array of `AtomicU64`, and the iteration over chunks.
pub mod Position
pub mod Helpers
pub mod ChunkIter
pub mod FreeSlots
pub mod Tests
