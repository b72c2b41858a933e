-- ===== src/Server.antt =====
-- crates/server: the parts of the lock service that keep state of their own.
pub mod Registry
pub mod Auth
pub mod Sessions
pub mod Service
pub mod WatchHub
mod Examples
