-- ===== src/Redis/Manager.antt =====
-- crates/redis/src/single.rs: the lock manager and its handles, over the scripts of Mutex. A call of
-- the server succeeds or fails; a call that fails may have run (its reply is lost) or not. Metrics
-- and traces are left out.

pub mod Stale
pub mod Watch
pub mod Waiting
pub mod Budget
pub mod Freed
pub mod Tried
use lock_dis.Prelude.{
  ℕ, zero, suc, ◌^◌, ◌-◌, ◌+◌, ◌*◌, ◌<◌, Bool, true, false, ◌||◌, not, Option, none, some, String,
  List, [], ◌∷◌, if◌then◌else◌, ltb, leb, ◌==◌, Result, ok, err, mul64, u64_max,
}
use lock_dis.Redis.Server.{Redis}
use lock_dis.Redis.Mutex.{fence_key_for, Reply, acquire, extend, release}

-- `MIN_TTL`, `RENEWAL_DIVISOR` and `FENCE_TTL_MULTIPLIER`, times in milliseconds
abbrev pub min_ttl : ℕ
min_ttl = 10

abbrev pub renewal_divisor : ℕ
renewal_divisor = 3

abbrev pub fence_ttl_multiplier : ℕ
fence_ttl_multiplier = 10

pub data SafetyPolicy : Type 0 where
  cowardly balanced aggressive : SafetyPolicy

unfoldable pub max_transient_failures : SafetyPolicy → ℕ
max_transient_failures SafetyPolicy.cowardly = 0
max_transient_failures SafetyPolicy.balanced = 2
max_transient_failures SafetyPolicy.aggressive = 2 ^ 32 - 1

pub data Error : Type 0 where
  timeout : (key : String) → Error
  held : (key : String) → Error
  lost : (key : String) (fence : ℕ) → Error
  invalid_config : (ttl : ℕ) → Error
  backend : Error

-- What becomes of one call of the server.
pub data Link : Type 0 where
  up request_lost reply_lost : Link

-- One of several calls: what becomes of it, the store's time, and what others have
-- done to the store since the call before.
pub record Trip (S : Type 0) : Type 0 where
  pub link : Link
  pub now : ℕ
  pub meanwhile : S → S

pub record LockOptions : Type 0 where
  pub ttl : ℕ
  pub watchdog : Option Bool
  pub safety_policy : SafetyPolicy

unfoldable pub validate : LockOptions → Result Error (Unit {0})
validate options = if ltb options.ttl min_ttl then err (Error.invalid_config options.ttl) else ok tt

-- `HandleShared`; `watched` says that a watchdog was started for it.
pub record Handle : Type 0 where
  pub key : String
  pub fence_key : String
  pub token : String
  pub fence : ℕ
  pub released : Bool
  pub poisoned : Bool
  pub lost : Bool
  pub ttl : ℕ
  pub policy : SafetyPolicy
  pub watched : Bool

unfoldable pub mark_lost : Handle → Handle
mark_lost h = record h { poisoned = true; lost = true }

unfoldable pub disarm : Handle → Handle
disarm h = record h { released = true }

-- A script call through a link: the store afterwards, and the reply if it arrived.
unfoldable pub call {ℓ} : {S : Type ℓ} {A : Type 0} → Link → S → S × A → S × Result Error A
call Link.up s done = (done.0, ok done.1)
call Link.request_lost s done = (s, err Error.backend)
call Link.reply_lost s done = (done.0, err Error.backend)

module _ (r : Redis) where
  open r use {Store, del, exists}

  unfoldable pub on_acquired :
      Store × Result Error Reply
      → String
      → String
      → LockOptions
      → Bool
      → Store × Result Error Handle
  on_acquired (s, err e) key token options watchdog_default = (s, err e)
  on_acquired (s, ok reply) key token options watchdog_default =
      if (reply.status == 1) || (reply.status == 2)
      then (
        s,
        ok (record {
          key = key;
          fence_key = fence_key_for key;
          token = token;
          fence = reply.fence;
          released = false;
          poisoned = false;
          lost = false;
          ttl = options.ttl;
          policy = options.safety_policy;
          watched = elim options.watchdog [ none ↦ watchdog_default | some w ↦ w ];
        }),
      )
      else (s, err (Error.held key))

  -- `try_lock_with`, for the token of the owner that it has generated.
  unfoldable pub try_lock_with :
      Link → Store → ℕ → String → String → LockOptions → Bool → Store × Result Error Handle
  unfolding validate call on_acquired acquire fence_key_for
  try_lock_with link s now key token options watchdog_default = elim (validate options) [
    | err e ↦ (s, err e)
    | ok _ ↦
        on_acquired
          (call link s (
            acquire r s now key (fence_key_for key) token options.ttl
              (mul64 options.ttl fence_ttl_multiplier)))
          key token options watchdog_default
  ]

  abbrev pub is_one : Store × Result Error ℕ → Store × Result Error Bool
  is_one (s, err e) = (s, err e)
  is_one (s, ok n) = (s, ok (n == 1))

  unfoldable pub unlock_with_token : Link → Store → ℕ → String → String → Store × Result Error Bool
  unfolding call
  unlock_with_token link s now key token = is_one (call link s (release r s now key token))

  -- `fire_extend`, and `extend_with_token` behind its guard
  unfoldable pub fire_extend :
      Link → Store → ℕ → String → String → String → ℕ → Store × Result Error Bool
  unfolding call
  fire_extend link s now key fence_key token ttl =
      is_one (call link s (extend r s now key fence_key token ttl (mul64 ttl fence_ttl_multiplier)))

  unfoldable pub extend_with_token :
      Link → Store → ℕ → String → String → ℕ → Store × Result Error Bool
  unfolding fire_extend
  extend_with_token link s now key token ttl =
      if ltb ttl min_ttl
      then (s, err (Error.invalid_config ttl))
      else fire_extend link s now key (fence_key_for key) token ttl

  unfoldable pub on_extended :
      Store × Result Error Bool → Handle → Store × Handle × Result Error (Unit {0})
  unfolding mark_lost
  on_extended (s, err e) h = (s, h, err e)
  on_extended (s, ok true) h = (s, h, ok tt)
  on_extended (s, ok false) h = (s, mark_lost h, err (Error.lost h.key h.fence))

  -- The handle's `extend`
  unfoldable pub handle_extend :
      Link → Store → ℕ → Handle → ℕ → Store × Handle × Result Error (Unit {0})
  unfolding on_extended fire_extend
  handle_extend link s now h ttl =
      if ltb ttl min_ttl
      then (s, h, err (Error.invalid_config ttl))
      else if h.released
      then (s, h, err (Error.lost h.key h.fence))
      else on_extended (fire_extend link s now h.key h.fence_key h.token ttl) h

  unfoldable pub on_released :
      Store × Result Error ℕ → Handle → Store × Handle × Result Error (Unit {0})
  on_released (s, err e) h = (s, h, err e)
  on_released (s, ok n) h = if n == 1 then (s, h, ok tt) else (s, h, err (Error.lost h.key h.fence))

  -- The handle's `release`: the flag is set before the script runs, so it runs at most once.
  unfoldable pub handle_release :
      Link → Store → ℕ → Handle → Store × Handle × Result Error (Unit {0})
  unfolding on_released call
  handle_release link s now h =
      if h.released
      then (s, h, ok tt)
      else on_released (call link s (release r s now h.key h.token)) (record h { released = true })

  -- `Drop`: the detached release, which ignores the reply; without a runtime the request is lost.
  unfoldable pub drop : Link → Store → ℕ → Handle → Store × Handle
  unfolding call
  drop link s now h =
      if h.released
      then (s, h)
      else ((call link s (release r s now h.key h.token)).0, record h { released = true })

  unfoldable pub force_unlock : Link → Store → ℕ → String → Store × Result Error Bool
  unfolding call
  force_unlock link s now key =
      let (s', n) = call link s (del s now key) in
      (s', elim n [ err e ↦ err e | ok k ↦ ok (ltb 0 k) ])
