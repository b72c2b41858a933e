-- ===== src/Testing/Sim.antt =====
-- crates/testing/src/sim.rs: the scenario, the random numbers, the lock store over virtual time,
-- the worker state machines and the scheduler that drives them.
pub mod Rng
pub mod Store
pub mod Worker
pub mod Run
pub mod Picks
pub mod Progress
