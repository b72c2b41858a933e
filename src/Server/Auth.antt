-- ===== src/Server/Auth.antt =====
-- crates/server/src/auth.rs: what a principal may do. Metrics and the texts of statuses are left
-- out. The two counters are shared by a principal's requests and changed atomically, one by one.
pub mod Permission
pub mod WatchQuota
pub mod Resolve
pub mod Identity
use text.Mathlib.Text.{starts_with}
use lock_dis.Prelude.{
  ℕ, zero, suc, ◌+◌, ◌-◌, Bool, true, false, ◌&&◌, Option, none, some, List, [], ◌∷◌, String,
  if◌then◌else◌, ltb, leb, Result, ok, err, ◌>>=◌,
}

pub record PrincipalConfig : Type 0 where
  pub name : String
  pub token : String
  pub key_prefixes : List String
  pub can_lock : Bool
  pub can_unlock : Bool
  pub can_extend : Bool
  pub can_watch : Bool
  pub can_admin : Bool
  pub max_keys : ℕ
  pub max_watchers : ℕ

-- The code of a refusal, of this module and of the service.
pub data Status : Type 0 where
  permission_denied resource_exhausted unauthenticated : Status
  unavailable invalid_argument not_found internal : Status

unfoldable pub any_prefix : String → List String → Bool
any_prefix key [] = false
any_prefix key (p ∷ ps) = let rest = any_prefix key ps in if starts_with key p then true else rest

unfoldable pub may : PrincipalConfig → String → Bool → Result Status (Unit {0})
unfolding any_prefix
may cfg key allowed =
    if any_prefix key cfg.key_prefixes
    then (if allowed then ok tt else err Status.permission_denied)
    else err Status.permission_denied

-- A principal with its counter of keys; the counter of watchers is in `Watchers`.
pub record Principal : Type 0 where
  pub cfg : PrincipalConfig
  pub held_keys : ℕ

-- Every principal is made here, and nothing changes `held_keys` later.
unfoldable pub make_principal : PrincipalConfig → Principal
make_principal cfg = record { cfg = cfg; held_keys = 0 }

-- The quota in `check_lock`
unfoldable pub check_ceiling : Principal → Result Status (Unit {0})
check_ceiling p =
    if ltb 0 p.cfg.max_keys && leb p.cfg.max_keys p.held_keys
    then err Status.resource_exhausted
    else ok tt

unfoldable pub check_lock : Principal → String → Result Status (Unit {0})
unfolding may check_ceiling
check_lock p key = do _ ← may p.cfg key p.cfg.can_lock; check_ceiling p

unfoldable pub check_unlock : PrincipalConfig → String → Result Status (Unit {0})
check_unlock cfg key = may cfg key cfg.can_unlock

unfoldable pub check_extend : PrincipalConfig → String → Result Status (Unit {0})
check_extend cfg key = may cfg key cfg.can_extend

unfoldable pub check_admin : PrincipalConfig → String → Result Status (Unit {0})
check_admin cfg key = may cfg key cfg.can_admin

-- The counter of watchers with the requests that are under way: those that hold a guard, and those
-- that have counted themselves, found the ceiling reached, and have not yet taken themselves off.
pub record Watchers : Type 0 where
  pub counter : ℕ
  pub guards : ℕ
  pub refused : ℕ

abbrev pub nobody : Watchers
nobody = record { counter = 0; guards = 0; refused = 0 }

-- The atomic steps: `fetch_add` of `check_watch`, the `fetch_sub` of its refusal, and the drop of a
-- guard.
pub data WatchStep : Type 0 where
  enter undo leave : WatchStep

unfoldable pub watch_step : ℕ → Watchers → WatchStep → Watchers
watch_step max_watchers w WatchStep.enter =
    if ltb 0 max_watchers && leb max_watchers w.counter
    then record w { counter = suc w.counter; refused = suc w.refused }
    else record w { counter = suc w.counter; guards = suc w.guards }
watch_step max_watchers w WatchStep.undo =
    if ltb 0 w.refused then record w { counter = w.counter - 1; refused = w.refused - 1 } else w
watch_step max_watchers w WatchStep.leave =
    if ltb 0 w.guards then record w { counter = w.counter - 1; guards = w.guards - 1 } else w
