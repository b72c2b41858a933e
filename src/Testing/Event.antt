-- ===== src/Testing/Event.antt =====
-- The recorded occurrences of crates/testing/src/sim.rs, in the order in which a run emits them.
use lock_dis.Prelude.{ℕ}

pub data EventKind : Type 0 where
  grant deny release_ok release_lost write_accepted write_rejected : EventKind

-- Times and fences are u64, workers are indices.
pub record Event : Type 0 where
  pub t_ms : ℕ
  pub worker : ℕ
  pub kind : EventKind
  pub fence : ℕ
