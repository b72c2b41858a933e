-- ===== src/Redis/Semaphore.antt =====
-- crates/redis/src/semaphore.rs with the scripts semaphore_acquire.lua, semaphore_extend.lua and
-- semaphore_release.lua: permits are the members of a sorted set, scored by the time at which they
-- lapse. The time that a script asks the server for is the time at which it runs.
pub mod Spec
pub mod Refines
pub mod Runs
pub mod Holds
mod Examples
use lock_dis.Prelude.{
  ℕ, ◌+◌, ◌*◌, Bool, true, false, Option, none, some, String, List, [], ◌∷◌, if◌then◌else◌, ltb,
  ◌==◌, Result, ok, err, mul64,
}
use lock_dis.Redis.Server.{Redis, is_some}
use lock_dis.Redis.Mutex.{Reply, fence_key_for}
use lock_dis.Redis.Polling.{Turn, Attempt, poll}
use lock_dis.Redis.Manager.{Error, Link, LockOptions, call, validate, min_ttl}

-- `PermitShared`
pub record Permit : Type 0 where
  pub key : String
  pub token : String
  pub fence : ℕ
  pub gone : Bool

pub record Semaphore : Type 0 where
  pub key : String
  pub max_permits : ℕ

-- `RedisLockManager::semaphore`
unfoldable pub semaphore : String → ℕ → Result Error Semaphore
semaphore key max_permits =
    if max_permits == 0
    then err (Error.invalid_config max_permits)
    else ok (record { key = key; max_permits = max_permits })

module _ (r : Redis) where
  open r use {Store, zcard, zscore, zadd, zremrangebyscore, zrem, pexpire, incr, del}

  -- The fourth argument of the script, the lifetime of the counter, is not used by it.
  unfoldable pub acquire_permit :
      Store → ℕ → (key fence_key token : String) (ttl max_permits fence_ttl : ℕ) → Store × Reply
  acquire_permit s now key fence_key token ttl max_permits fence_ttl =
      let pruned = zremrangebyscore s now key now in
      let added = pexpire (zadd pruned now key (now + ttl) token) now key ttl in
      let (s', fence) = incr added now fence_key in
      if ltb (zcard pruned now key) max_permits
      then (s', record { status = 1; fence = fence })
      else (pruned, record { status = 0; fence = 0 })

  unfoldable pub extend_permit : Store → ℕ → (key token : String) (ttl : ℕ) → Store × ℕ
  extend_permit s now key token ttl =
      if is_some (zscore s now key token)
      then (pexpire (zadd s now key (now + ttl) token) now key ttl, 1)
      else (s, 0)

  unfoldable pub release_permit : Store → ℕ → (key token : String) → Store × ℕ
  release_permit s now key token =
      let (s', removed) = zrem s now key token in
      if removed == 1
      then ((if zcard s' now key == 0 then (del s' now key).0 else s'), 1)
      else (s', 0)

  unfoldable pub granted_permit :
      Store × Result Error Reply → String → String → Store × Result Error Permit
  granted_permit (s, err e) key token = (s, err e)
  granted_permit (s, ok reply) key token =
      if reply.status == 1
      then (s, ok (record { key = key; token = token; fence = reply.fence; gone = false }))
      else (s, err (Error.held key))

  -- For the token that it generates.
  unfoldable pub try_acquire_permit :
      Link → Store → ℕ → Semaphore → String → LockOptions → Store × Result Error Permit
  unfolding validate call granted_permit acquire_permit fence_key_for
  try_acquire_permit link s now sem token options = elim (validate options) [
    | err e ↦ (s, err e)
    | ok _ ↦
        granted_permit
          (call link s (
            acquire_permit s now sem.key (fence_key_for sem.key) token options.ttl sem.max_permits
              (mul64 options.ttl 10)))
          sem.key token
  ]

  -- The permit's `release`: it is marked as gone before the script runs.
  unfoldable pub answered_release :
      Store × Result Error ℕ → Permit → Store × Permit × Result Error (Unit {0})
  answered_release (s, err e) p = (s, p, err e)
  answered_release (s, ok n) p =
      if n == 1 then (s, p, ok tt) else (s, p, err (Error.lost p.key p.fence))

  unfoldable pub permit_release :
      Link → Store → ℕ → Permit → Store × Permit × Result Error (Unit {0})
  unfolding call answered_release release_permit
  permit_release link s now p =
      if p.gone
      then (s, p, ok tt)
      else answered_release (call link s (release_permit s now p.key p.token))
          (record p { gone = true })

  unfoldable pub answered_extend :
      Store × Result Error ℕ → Permit → Store × Permit × Result Error (Unit {0})
  answered_extend (s, err e) p = (s, p, err e)
  answered_extend (s, ok n) p =
      if n == 1
      then (s, p, ok tt)
      else (s, record p { gone = true }, err (Error.lost p.key p.fence))

  unfoldable pub permit_extend :
      Link → Store → ℕ → Permit → ℕ → Store × Permit × Result Error (Unit {0})
  unfolding call answered_extend extend_permit
  permit_extend link s now p ttl =
      if ltb ttl min_ttl
      then (s, p, err (Error.invalid_config ttl))
      else if p.gone
      then (s, p, err (Error.lost p.key p.fence))
      else answered_extend (call link s (extend_permit s now p.key p.token ttl)) p

  -- `Drop`, whose detached release ignores the reply
  unfoldable pub permit_drop : Link → Store → ℕ → Permit → Store × Permit
  unfolding call release_permit
  permit_drop link s now p =
      if p.gone
      then (s, p)
      else ((call link s (release_permit s now p.key p.token)).0, record p { gone = true })

  -- `try_acquire_for`, with the tokens that its attempts generate
  unfoldable pub permit_turns :
      Semaphore → LockOptions → List (String × Attempt Store) → List (Turn Permit)
  unfolding try_acquire_permit
  permit_turns sem options [] = []
  permit_turns sem options ((token, a) ∷ rest) =
      record {
        outcome = (try_acquire_permit a.link a.store a.now sem token options).1;
        instant = a.instant;
      }
      ∷ permit_turns sem options rest

  unfoldable pub try_acquire_permit_for :
      Semaphore
      → LockOptions
      → (deadline : ℕ) → List (String × Attempt Store)
      → Option (Result Error Permit)
  unfolding permit_turns poll
  try_acquire_permit_for sem options deadline attempts =
      poll sem.key deadline (permit_turns sem options attempts)
