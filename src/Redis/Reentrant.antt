-- ===== src/Redis/Reentrant.antt =====
-- crates/redis/src/reentrant.rs, and the four scripts reentrant_*.lua: a lock that its owner may take
-- again, with a count of its holds. A script's reply of -1 is `none`.
pub mod Spec
pub mod Writes
pub mod Refines
pub mod Runs
pub mod Nesting
pub mod Safety
pub mod Handles
mod Examples
use lock_dis.Prelude.{
  ℕ, zero, suc, ◌+◌, ◌*◌, Bool, true, false, ◌||◌, not, Option, none, some, String, List, [], ◌∷◌,
  if◌then◌else◌, ltb, leb, ◌==◌, same, Result, ok, err, mul64,
}
use lock_dis.Redis.Server.{Redis, Datum}
use lock_dis.Redis.Mutex.{fence_key_for, Reply}
use lock_dis.Redis.Slot.{grant}
use lock_dis.Redis.Polling.{Attempt, turns_of, poll}
use lock_dis.Redis.Manager.{Error, Link, LockOptions, call, validate, min_ttl}

-- `redis.call('HGET', key, field) == text`
abbrev pub is_str : Option Datum → String → Bool
is_str (some (Datum.str v)) token = same v token
is_str _ token = false

-- `ReentrantShared`
pub record ReentrantHandle : Type 0 where
  pub key : String
  pub token : String
  pub fence : ℕ
  pub ttl : ℕ
  pub gone : Bool

unfoldable pub mark_gone : ReentrantHandle → ReentrantHandle × Bool
mark_gone h = (record h { gone = true }, not h.gone)

module _ (r : Redis) where
  open r use {Store, exists, hget, hset, hincr, hdecr, del, pexpire, incr}

  -- The script is given the fence counter's lifetime and does not use it.
  unfoldable pub reentrant_acquire :
      Store → ℕ → (key fence_key token : String) (ttl fence_ttl : ℕ) → Store × Reply
  unfolding grant
  reentrant_acquire s now key fence_key token ttl fence_ttl =
      if not (exists s now key)
      then grant r (hset s now key (("owner", Datum.str token) ∷ ("count", Datum.int 1) ∷ [])) now
          key fence_key ttl 1
      else if is_str (hget s now key "owner") token
      then grant r (hincr s now key "count").0 now key fence_key ttl 2
      else (s, record { status = 0; fence = 0 })

  unfoldable pub reentrant_release : Store → ℕ → (key token : String) (ttl : ℕ) → Store × Option ℕ
  reentrant_release s now key token ttl =
      if not (exists s now key)
      then (s, none)
      else if not (is_str (hget s now key "owner") token)
      then (s, none)
      else (let (s', count) = hdecr s now key "count" in
          if leb count 0
          then ((del s' now key).0, some 0)
          else ((if ltb 0 ttl then pexpire s' now key ttl else s'), some count))

  unfoldable pub reentrant_release_all : Store → ℕ → (key token : String) → Store × Option ℕ
  reentrant_release_all s now key token =
      if not (exists s now key)
      then (s, none)
      else if is_str (hget s now key "owner") token
      then ((del s now key).0, some 1)
      else (s, none)

  unfoldable pub reentrant_extend : Store → ℕ → (key token : String) (ttl : ℕ) → Store × Option ℕ
  reentrant_extend s now key token ttl =
      if not (exists s now key)
      then (s, none)
      else if is_str (hget s now key "owner") token
      then (pexpire s now key ttl, some 1)
      else (s, none)

  abbrev pub taken :
      (key token : String) (ttl : ℕ) → Result Error Reply → Result Error ReentrantHandle
  taken key token ttl (err e) = err e
  taken key token ttl (ok reply) =
      if (reply.status == 1) || (reply.status == 2)
      then ok (record { key = key; token = token; fence = reply.fence; ttl = ttl; gone = false })
      else err (Error.held key)

  unfoldable pub try_lock_reentrant :
      Link → Store → ℕ → (key owner : String) → LockOptions → Store × Result Error ReentrantHandle
  unfolding validate call reentrant_acquire
  try_lock_reentrant link s now key owner options = elim (validate options) [
    | err e ↦ (s, err e)
    | ok _ ↦
        (let (s', reply) = call link s (
            reentrant_acquire s now key (fence_key_for key) owner options.ttl
              (mul64 options.ttl 10)) in
          (s', taken key owner options.ttl reply))
  ]

  -- `try_lock_reentrant_for`, for the attempts that it makes.
  unfoldable pub try_lock_reentrant_for :
      (key owner : String)
      → LockOptions
      → (deadline : ℕ) → List (Attempt Store)
      → Option (Result Error ReentrantHandle)
  unfolding poll try_lock_reentrant
  try_lock_reentrant_for key owner options deadline attempts =
      poll key deadline
        (turns_of (λ link s now. try_lock_reentrant link s now key owner options) attempts)

  -- What the methods make of a script's reply.
  unfoldable pub settled : ReentrantHandle → Result Error (Option ℕ) → Result Error (Unit {0})
  settled h (err e) = err e
  settled h (ok none) = err (Error.lost h.key h.fence)
  settled h (ok (some n)) = ok tt

  unfoldable pub release_one :
      Link → Store → ℕ → ReentrantHandle → Store × ReentrantHandle × Result Error (Unit {0})
  unfolding mark_gone call settled
  release_one link s now h =
      let (h', first) = mark_gone h in
      if not first
      then (s, h', ok tt)
      else (let (s', reply) = call link s (reentrant_release s now h.key h.token h.ttl) in
          (s', h', settled h reply))

  unfoldable pub release_all :
      Link → Store → ℕ → ReentrantHandle → Store × ReentrantHandle × Result Error (Unit {0})
  unfolding mark_gone call settled
  release_all link s now h =
      let (h', first) = mark_gone h in
      if not first
      then (s, h', ok tt)
      else (let (s', reply) = call link s (reentrant_release_all s now h.key h.token) in
          (s', h', settled h reply))

  -- `Drop`, whose release does not renew the lease
  unfoldable pub drop : Link → Store → ℕ → ReentrantHandle → Store × ReentrantHandle
  unfolding mark_gone call
  drop link s now h =
      let (h', first) = mark_gone h in
      if not first then (s, h') else ((call link s (reentrant_release s now h.key h.token 0)).0, h')

  unfoldable pub on_extended :
      ReentrantHandle
      → Store × Result Error (Option ℕ)
      → Store × ReentrantHandle × Result Error (Unit {0})
  on_extended h (s, err e) = (s, h, err e)
  on_extended h (s, ok none) = (s, record h { gone = true }, err (Error.lost h.key h.fence))
  on_extended h (s, ok (some n)) = (s, h, ok tt)

  unfoldable pub extend :
      Link → Store → ℕ → ReentrantHandle → ℕ → Store × ReentrantHandle × Result Error (Unit {0})
  unfolding call on_extended
  extend link s now h ttl =
      if ltb ttl min_ttl
      then (s, h, err (Error.invalid_config ttl))
      else if h.gone
      then (s, h, err (Error.lost h.key h.fence))
      else on_extended h (call link s (reentrant_extend s now h.key h.token ttl))
