-- ===== src/Core.antt =====
-- crates/core: the wayland wire primitives.
pub mod Error
pub mod Value
pub mod Int
pub mod Object
pub mod Array
pub mod Header
pub mod Tests
