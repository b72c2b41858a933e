-- ===== src/Testing.antt =====
-- crates/testing: the deterministic simulator and the invariant checker over its histories.
pub mod Event
pub mod Sim
pub mod Checker
pub mod Passes
mod Examples
