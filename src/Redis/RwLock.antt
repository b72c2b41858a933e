-- ===== src/Redis/RwLock.antt =====
-- crates/redis/src/rwlock.rs, and the five scripts rw_*.lua: readers that share a lock, each with its
-- token registered as a field of the hash, or one writer. A script's reply of -1 is `none`.
pub mod Spec
pub mod Fields
pub mod Refines
pub mod Runs
pub mod Safety
pub mod Handles
mod Examples
use lock_dis.Prelude.{
  ℕ, zero, suc, ◌+◌, ◌*◌, Bool, true, false, ◌&&◌, ◌||◌, not, Option, none, some, String, List, [],
  ◌∷◌, if◌then◌else◌, ltb, leb, ◌==◌, same, Result, ok, err, mul64, wrap,
}
use lock_dis.Redis.Server.{Redis, Datum, is_some}
use lock_dis.Redis.Mutex.{fence_key_for, Reply}
use lock_dis.Redis.Slot.{grant}
use lock_dis.Redis.Reentrant.{is_str}
use lock_dis.Redis.Polling.{Attempt, turns_of, poll}
use lock_dis.Redis.Manager.{Error, Link, LockOptions, call, validate, min_ttl}

-- `'r:' .. token`
unfoldable pub reader_field : String → String
unfolding wrap
reader_field token = wrap "r:" "" token

-- `RwShared`
pub record RwHandle : Type 0 where
  pub key : String
  pub token : String
  pub fence : ℕ
  pub ttl : ℕ
  pub gone : Bool
  pub write_mode : Bool

unfoldable pub mark_gone : RwHandle → RwHandle × Bool
mark_gone h = (record h { gone = true }, not h.gone)

unfoldable pub validate_ttl : ℕ → Result Error (Unit {0})
validate_ttl ttl = if ltb ttl min_ttl then err (Error.invalid_config ttl) else ok tt

module _ (r : Redis) where
  open r use {Store, exists, hget, hset, hdel, hincr, hdecr, del, pexpire}

  unfoldable pub rw_read_acquire :
      Store → ℕ → (key fence_key token : String) (ttl fence_ttl : ℕ) → Store × Reply
  unfolding grant
  rw_read_acquire s now key fence_key token ttl fence_ttl =
      if not (exists s now key)
      then grant r
          (hset s now key (
            ("mode", Datum.str "r")
            ∷ ("readers", Datum.int 1)
            ∷ (reader_field token, Datum.str "1")
            ∷ []))
          now key fence_key ttl 1
      else if is_str (hget s now key "mode") "r"
          && not (is_some (hget s now key (reader_field token)))
      then grant r
          (hset (hincr s now key "readers").0 now key ((reader_field token, Datum.str "1") ∷ []))
          now key fence_key ttl 1
      else (s, record { status = 0; fence = 0 })

  unfoldable pub rw_read_release : Store → ℕ → (key token : String) (ttl : ℕ) → Store × Option ℕ
  rw_read_release s now key token ttl =
      if not (exists s now key)
      then (s, none)
      else if not (is_str (hget s now key "mode") "r")
      then (s, none)
      else if not (is_some (hget s now key (reader_field token)))
      then (s, none)
      else (let (s', readers) = hdecr (hdel s now key (reader_field token)) now key "readers" in
          if leb readers 0
          then ((del s' now key).0, some 0)
          else (pexpire s' now key ttl, some readers))

  unfoldable pub rw_write_acquire :
      Store → ℕ → (key fence_key token : String) (ttl fence_ttl : ℕ) → Store × Reply
  unfolding grant
  rw_write_acquire s now key fence_key token ttl fence_ttl =
      if not (exists s now key)
      then grant r (hset s now key (("mode", Datum.str "w") ∷ ("owner", Datum.str token) ∷ [])) now
          key fence_key ttl 1
      else if is_str (hget s now key "mode") "w" && is_str (hget s now key "owner") token
      then grant r s now key fence_key ttl 2
      else (s, record { status = 0; fence = 0 })

  unfoldable pub rw_write_release : Store → ℕ → (key token : String) → Store × Option ℕ
  rw_write_release s now key token =
      if not (exists s now key)
      then (s, none)
      else if is_str (hget s now key "mode") "w" && is_str (hget s now key "owner") token
      then ((del s now key).0, some 1)
      else (s, none)

  unfoldable pub rw_extend : Store → ℕ → (key token : String) (ttl : ℕ) → Store × Option ℕ
  rw_extend s now key token ttl =
      if not (exists s now key)
      then (s, none)
      else if is_str (hget s now key "mode") "r"
      then (pexpire s now key ttl, some 1)
      else if is_str (hget s now key "mode") "w" && is_str (hget s now key "owner") token
      then (pexpire s now key ttl, some 1)
      else (s, none)

  -- The handle that `try_read` or `try_write` makes of a script's reply; each has its own test.
  abbrev pub guarded :
      (granted : Reply → Bool) (key token : String) (ttl : ℕ) (write_mode : Bool)
      → Result Error Reply
      → Result Error RwHandle
  guarded granted key token ttl write_mode (err e) = err e
  guarded granted key token ttl write_mode (ok reply) =
      if granted reply
      then ok (record {
        key = key;
        token = token;
        fence = reply.fence;
        ttl = ttl;
        gone = false;
        write_mode = write_mode;
      })
      else err (Error.held key)

  -- `try_read` and `try_write`, for the tokens that they generate
  unfoldable pub try_read :
      Link → Store → ℕ → (key token : String) → LockOptions → Store × Result Error RwHandle
  unfolding validate call
  try_read link s now key token options = elim (validate options) [
    | err e ↦ (s, err e)
    | ok _ ↦
        (let (s', reply) = call link s (
            rw_read_acquire s now key (fence_key_for key) token options.ttl
              (mul64 options.ttl 10)) in
          (s', guarded (λ x. x.status == 1) key token options.ttl false reply))
  ]

  unfoldable pub try_write :
      Link → Store → ℕ → (key token : String) → LockOptions → Store × Result Error RwHandle
  unfolding validate call
  try_write link s now key token options = elim (validate options) [
    | err e ↦ (s, err e)
    | ok _ ↦
        (let (s', reply) = call link s (
            rw_write_acquire s now key (fence_key_for key) token options.ttl
              (mul64 options.ttl 10)) in
          (s', guarded (λ x. not (x.status == 0)) key token options.ttl true reply))
  ]

  -- `try_read_for` and `try_write_for`, for the attempts that they make, each with its token
  unfoldable pub try_read_for :
      (key : String) (token_at : ℕ → String)
      → LockOptions
      → (deadline : ℕ) → List (Attempt Store)
      → Option (Result Error RwHandle)
  unfolding poll try_read
  try_read_for key token_at options deadline attempts =
      poll key deadline
        (turns_of (λ link s now. try_read link s now key (token_at now) options) attempts)

  unfoldable pub try_write_for :
      (key : String) (token_at : ℕ → String)
      → LockOptions
      → (deadline : ℕ) → List (Attempt Store)
      → Option (Result Error RwHandle)
  unfolding poll try_write
  try_write_for key token_at options deadline attempts =
      poll key deadline
        (turns_of (λ link s now. try_write link s now key (token_at now) options) attempts)

  unfoldable pub settled : RwHandle → Result Error (Option ℕ) → Result Error (Unit {0})
  settled h (err e) = err e
  settled h (ok none) = err (Error.lost h.key h.fence)
  settled h (ok (some n)) = ok tt

  -- `RwReadHandle::release`
  unfoldable pub read_release :
      Link → Store → ℕ → RwHandle → Store × RwHandle × Result Error (Unit {0})
  unfolding mark_gone call settled
  read_release link s now h =
      let (h', first) = mark_gone h in
      if not first
      then (s, h', ok tt)
      else (let (s', reply) = call link s (rw_read_release s now h.key h.token h.ttl) in
          (s', h', settled h reply))

  -- `RwWriteHandle::release`
  unfoldable pub write_release :
      Link → Store → ℕ → RwHandle → Store × RwHandle × Result Error (Unit {0})
  unfolding mark_gone call settled
  write_release link s now h =
      let (h', first) = mark_gone h in
      if not first
      then (s, h', ok tt)
      else (let (s', reply) = call link s (rw_write_release s now h.key h.token) in
          (s', h', settled h reply))

  -- `Drop`; a reader's detached release asks for a lease of 0.
  unfoldable pub drop : Link → Store → ℕ → RwHandle → Store × RwHandle
  unfolding mark_gone call
  drop link s now h =
      let (h', first) = mark_gone h in
      if not first
      then (s, h')
      else if h.write_mode
      then ((call link s (rw_write_release s now h.key h.token)).0, h')
      else ((call link s (rw_read_release s now h.key h.token 0)).0, h')

  unfoldable pub on_extended :
      RwHandle → Store × Result Error (Option ℕ) → Store × RwHandle × Result Error (Unit {0})
  on_extended h (s, err e) = (s, h, err e)
  on_extended h (s, ok none) = (s, record h { gone = true }, err (Error.lost h.key h.fence))
  on_extended h (s, ok (some n)) = (s, h, ok tt)

  -- `extend`, of both kinds of guard
  unfoldable pub extend :
      Link → Store → ℕ → RwHandle → ℕ → Store × RwHandle × Result Error (Unit {0})
  unfolding call on_extended validate_ttl
  extend link s now h ttl = elim (validate_ttl ttl) [
    | err e ↦ (s, h, err e)
    | ok _ ↦
        if h.gone
        then (s, h, err (Error.lost h.key h.fence))
        else on_extended h (call link s (rw_extend s now h.key h.token ttl))
  ]
