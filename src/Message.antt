-- ===== src/Message.antt =====
-- crates/message: ring buffers of messages whose slots and data are freed in order.
pub mod TravelLogs
pub mod Tests
