-- ===== src/Testing/Passes.antt =====
-- The simulator against the checker: every history that a clean run produces passes the check.
mod Mirror
mod Turn
mod Cases
mod Invariant
pub mod Clean
