-- ===== src/Redis/Mutex.antt =====
-- The scripts acquire.lua, extend.lua and release.lua of crates/redis/src/scripts: a lock key that
-- holds the owner's token under a lease, and beside it the fence counter.
pub mod Effects
pub mod Lease
pub mod Promise
pub mod Refines
pub mod Steps
pub mod Runs
pub mod Safety
use lock_dis.Prelude.{
  ℕ, ◌+◌, ◌≤◌, ◌<◌, ◌≡◌, ◌≢◌, Bool, true, false, Option, none, some, String, if◌then◌else◌, same,
  wrap,
}
use lock_dis.Redis.Server.{Redis}

-- `fence_key_for`
unfoldable pub fence_key_for : String → String
unfolding wrap
fence_key_for key = wrap "{" "}:fence" key

-- A script's reply `{status, fence}`.
pub record Reply : Type 0 where
  pub status : ℕ
  pub fence : ℕ

-- `redis.call('GET', key) == token`
abbrev pub is_token : Option String → String → Bool
is_token none token = false
is_token (some v) token = same v token

module _ (r : Redis) where
  open r use {Store, get, set_nx_px, del, pexpire, incr}

  -- The fence of a grant, with the counter's lifetime set anew.
  unfoldable pub issue_fence : Store → ℕ → String → ℕ → ℕ → Store × Reply
  issue_fence s now fence_key fence_ttl status =
      let (s', fence) = incr s now fence_key in
      (pexpire s' now fence_key fence_ttl, record { status = status; fence = fence })

  unfoldable pub acquire :
      Store → ℕ → (key fence_key token : String) (ttl fence_ttl : ℕ) → Store × Reply
  unfolding issue_fence
  acquire s now key fence_key token ttl fence_ttl =
      let (s', set) = set_nx_px s now key token ttl in
      if set
      then issue_fence s' now fence_key fence_ttl 1
      else if is_token (get s' now key) token
      then issue_fence (pexpire s' now key ttl) now fence_key fence_ttl 2
      else (s', record { status = 0; fence = 0 })

  unfoldable pub extend : Store → ℕ → (key fence_key token : String) (ttl fence_ttl : ℕ) → Store × ℕ
  extend s now key fence_key token ttl fence_ttl =
      if is_token (get s now key) token
      then (pexpire (pexpire s now key ttl) now fence_key fence_ttl, 1)
      else (s, 0)

  unfoldable pub release : Store → ℕ → (key token : String) → Store × ℕ
  release s now key token = if is_token (get s now key) token then del s now key else (s, 0)
