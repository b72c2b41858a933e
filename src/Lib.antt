-- ===== src/Lib.antt =====
-- Verification of the lock library: leases with fencing tokens over Redis, the bookkeeping of the
-- lock service, and the deterministic simulator with its history checker.
--
-- The program's parts, and the files that model them:
--
-- * crates/core (Core). Core/Fencing is the comparison of fencing tokens (fencing.rs), which the
--   simulated resource uses. Core/BlackBox is the hash-chained recorder (blackbox.rs):
--   `record_entry` is `record`, `verify_chain` is `verify_chain`; a text is the list of its bytes.
--   Core/Seal is the seal of a grant (seal.rs), with the recorder's mixing of bytes as its hash.
-- * crates/redis (Redis). Redis/Server states what the scripts use of a Redis server: a record of
--   operations with laws of their documented replies and effects, as later reads see them, with
--   expiry by the server's clock in milliseconds. The server is not part of the repository, so all
--   that follows takes it as a parameter; Redis/Memory is a server in memory that meets the laws.
--   Redis/Mutex has the scripts acquire.lua, extend.lua and release.lua. Redis/Mutex/Lease is the
--   abstract promise: one owner with a deadline, one counter with a deadline. Redis/Mutex/Steps and
--   Redis/Mutex/Runs relate the scripts to it, Redis/Mutex/Safety draws what clients rely on.
--   Redis/Manager is single.rs: the manager's and the handle's methods over the scripts. A call
--   takes a `Link`, which says whether the request or the reply is lost, and returns the store
--   afterwards with the result; Redis/Manager/Watch is the watchdog, one round after the other, and
--   Redis/Manager/Waiting the waiting loop and the probes. Redis/Redlock is redlock.rs: the ring is
--   a list of visits to nodes, each with its store, its clock and what becomes of the calls; the
--   tokens and the time that a round takes are arguments. Redis/Redlock/Watch is its watchdog.
--   Redis/Slot is what the hash commands do to a lock that is kept as a hash. Redis/Reentrant is
--   reentrant.rs with its scripts, Redis/Reentrant/Spec what they promise. Redis/RwLock is
--   rwlock.rs with its scripts, Redis/RwLock/Spec what they promise, and Redis/Traces the sequences
--   of calls of such a lock. Redis/Latch is latch.rs. Redis/Semaphore is semaphore.rs with its
--   scripts, whose TIME is the time of the call; Redis/Semaphore/Spec is what they promise.
--   Redis/Multi is multi.rs, rounds over several keys. Redis/Polling is the loop of the methods that
--   wait (try_lock_reentrant_for and its like).
-- * crates/server (Server). Server/Registry is the registry of held keys (registry.rs), its methods
--   by their critical sections, and Server/Registry/Sections any interleaving of these; the handlers
--   call the methods whole. Server/Auth is what a principal may do (auth.rs): the permission checks,
--   and the watcher quota as atomic steps on its counter, which may interleave. Server/Auth/Resolve
--   is who the caller is.
--   Server/Sessions is the book of sessions (sessions.rs), Server/Sessions/Closing the release of
--   their locks on a close and by a sweep. Server/Service has the handlers of service.rs, which
--   compose the manager, the access list, the registry and the sessions; each takes the service's
--   state and what becomes of its calls of the store (a `Trip` each, with what others did to the
--   store since the call before), and returns the state afterwards with the response or the status.
--   Server/WatchHub is the broadcast of a key's state to a subscriber (watch_hub.rs).
-- * crates/testing (Testing). Testing/Sim is the simulator (sim.rs): the generator, the store, the
--   turn of a worker, and the scheduler's loop. Testing/Checker is the checker of histories
--   (checker.rs). Testing/Passes relates the two.
--
-- Numbers. A u64 addition or multiplication is `add64` or `mul64`, which wrap around. INCR fails
-- from 2 ^ 63 on, so statements on runs bound the counter. Times are milliseconds, but nanoseconds
-- in Server/Sessions.
--
-- Fuel. The scheduler's loop takes fuel; `simulate` gives one more than `rounds`, that is, three
-- rounds for each step of each worker and one for each worker to stop, and one to see that all
-- stopped. Each round lowers the work that is left, so this is enough.
--
-- Left out: metrics, traces, the texts of errors, the async runtime and its notifications, and the
-- connection itself. Of the service the streams of watch and list_locks and the pipeline of
-- describe_key are not modelled, nor are the watch hub's table of keys and the task that sweeps
-- sessions. The fair lock, the etcd backend, the client, the semantic locks, the testament and the
-- demo are not modelled.
mod Prelude
pub mod Core
pub mod Testing
pub mod Redis
pub mod Server
