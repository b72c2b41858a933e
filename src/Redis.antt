-- ===== src/Redis.antt =====
-- crates/redis: the locks over one Redis instance. The server is not part of the repository: it is
-- a parameter, with the documented behaviour of the commands that the Lua scripts call.
pub mod Server
pub mod Memory
pub mod Mutex
pub mod Slot
pub mod Traces
pub mod Polling
pub mod Reentrant
pub mod RwLock
pub mod Latch
pub mod Semaphore
pub mod Manager
pub mod Redlock
pub mod Multi
mod Examples
