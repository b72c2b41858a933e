-- ===== src/Core.antt =====
-- crates/core: the backend-neutral types.
pub mod Fencing
pub mod BlackBox
pub mod Seal
mod Examples
