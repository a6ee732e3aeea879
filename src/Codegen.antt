-- ===== src/Codegen.antt =====
-- crates/codegen: the code that is generated for the messages of a protocol.
pub mod Message
pub mod ErrorEvent
pub mod Builder
pub mod Opcodes
pub mod Enums
pub mod Tests
