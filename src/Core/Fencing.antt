-- ===== src/Core/Fencing.antt =====
-- crates/core/src/fencing.rs: a fencing token is its raw u64 counter value.
use lock_dis.Prelude.{ℕ, Bool, ltb}

-- `FencingToken::supersedes`
unfoldable pub supersedes : ℕ → ℕ → Bool
supersedes token last_seen = ltb last_seen token
