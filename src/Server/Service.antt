-- ===== src/Server/Service.antt =====
-- crates/server/src/service.rs: the handlers of the lock service, over the manager, the access list,
-- the registry and the book of sessions. A handler takes the state of the service, what becomes of
-- its calls of the store (a `Trip` for each), the clock, and the request; it returns the state
-- afterwards and the response. Metrics, the audit log, and the texts of statuses are left out, and
-- so are the streams of `watch` and `list_locks` and the pipeline of `describe_key`.
pub mod Grants
pub mod Exits
pub mod Unlocks
mod Examples
use lock_dis.Prelude.{
  ℕ, ◌+◌, ◌*◌, Bool, true, false, Option, none, some, String, List, if◌then◌else◌, ltb, ◌==◌, same,
  Result, ok, err, ◌>>=◌, min,
}
use lock_dis.Redis.Server.{Redis}
use lock_dis.Redis.Manager.{
  Trip, Error, Handle, LockOptions, SafetyPolicy, try_lock_with, handle_release, unlock_with_token,
  extend_with_token, force_unlock,
}
use lock_dis.Redis.Manager.Waiting
use lock_dis.Redis.Manager.Waiting.{TimedAttempt}
use lock_dis.Server.Registry.{HeldRegistry, try_acquire, release}
use lock_dis.Server.Auth.{
  PrincipalConfig, make_principal, Status, check_lock, check_unlock, check_extend, check_admin,
}
use lock_dis.Server.Auth.Resolve.{Acl, resolve}
use lock_dis.Server.Sessions.{Book, HbResult, register, heartbeat, bind}
use lock_dis.Server.Sessions.Closing.{close}

pub record ServiceConfig : Type 0 where
  pub default_ttl : ℕ
  pub max_ttl : ℕ

-- `LockOptionsPb`, and the requests for a lock; `wait_ms` is given to the waiting one apart.
pub record OptionsPb : Type 0 where
  pub ttl_ms : ℕ
  pub watchdog : Option Bool

pub record LockRequest : Type 0 where
  pub bearer : Option String
  pub key : String
  pub options : Option OptionsPb
  pub session : String

pub data LockOutcome : Type 0 where
  granted : (token : String) (fencing_token ttl_ms : ℕ) → LockOutcome
  held : (key : String) → LockOutcome
  timed_out : (key : String) → LockOutcome

-- The two results of an unlock, and of an extension.
pub data Answer : Type 0 where
  done lost : Answer

pub record Service (S : Type 0) : Type 0 where
  pub store : S
  pub book : Book
  pub registry : HeldRegistry
  pub ready : Bool

unfoldable pub set_ready : {S : Type 0} → Service S → Bool → Service S
set_ready sv ready = record sv { ready = ready }

unfoldable pub check_ready : Bool → Result Status (Unit {0})
check_ready ready = if ready then ok tt else err Status.unavailable

abbrev pub asked_ttl : Option OptionsPb → ℕ → ℕ
asked_ttl none default_ttl = default_ttl
asked_ttl (some o) default_ttl = if o.ttl_ms == 0 then default_ttl else o.ttl_ms

abbrev pub asked_watchdog : Option OptionsPb → Option Bool
asked_watchdog none = none
asked_watchdog (some o) = o.watchdog

unfoldable pub options_from_pb : Option OptionsPb → ServiceConfig → Result Status LockOptions
options_from_pb pb config =
    let ttl = asked_ttl pb config.default_ttl in
    if ltb config.max_ttl ttl
    then err Status.invalid_argument
    else ok
        (record { ttl = ttl; watchdog = asked_watchdog pb; safety_policy = SafetyPolicy.balanced })

-- The checks before an acquisition
unfoldable pub admit :
    ServiceConfig → Acl → Bool → LockRequest → Result Status (PrincipalConfig × LockOptions)
unfolding check_ready resolve options_from_pb check_lock make_principal
admit config acl ready req = do
  _ ← check_ready ready
  principal ← resolve acl req.bearer
  options ← options_from_pb req.options config
  _ ← check_lock (make_principal principal) req.key
  ok (principal, options)

-- A session is bound only if the request names one.
unfoldable pub bind_session : Book → ℕ → String → String → String → Bool × Book
unfolding bind
bind_session book clock session key token =
    if same session "" then (true, book) else bind book clock session key token

unfoldable pub on_heartbeat : HbResult → Result Status (Unit {0})
on_heartbeat HbResult.accepted = ok tt
on_heartbeat HbResult.rate_limited = err Status.resource_exhausted
on_heartbeat HbResult.unknown = err Status.not_found

-- Milliseconds in the nanoseconds of the book of sessions; 10 s where none are asked for.
unfoldable pub session_ttl : ServiceConfig → ℕ → ℕ
session_ttl config ttl_ms = if ttl_ms == 0 then 10_000 else min ttl_ms config.max_ttl

module _ (r : Redis) (config : ServiceConfig) (acl : Acl) (watchdog_default : Bool) where
  open r use {Store}

  -- The grant is undone; whatever becomes of the release, the handle is spent.
  unfoldable pub undo :
      Trip Store → Service Store → Handle → Status → Service Store × Result Status LockOutcome
  undo trip sv h status = (
    record sv { store = (handle_release r trip.link (trip.meanwhile sv.store) trip.now h).0 },
    err status,
  )

  -- After a grant: the session, the registry, and the answer. The handle is disarmed, so that its
  -- drop does nothing.
  unfoldable pub settle_grant :
      ℕ
      → Trip Store
      → Service Store
      → PrincipalConfig
      → LockRequest
      → LockOptions
      → Handle
      → Service Store × Result Status LockOutcome
  unfolding bind_session undo
  settle_grant clock back sv principal req options h =
      let (bound, book) = bind_session sv.book clock req.session req.key h.token in
      let (room, registry) = try_acquire sv.registry req.key principal.name principal.max_keys in
      if bound
      then (if room
          then (
            record sv { book = book; registry = registry },
            ok (LockOutcome.granted h.token h.fence options.ttl),
          )
          else undo back (record sv { book = book }) h Status.resource_exhausted)
      else undo back (record sv { book = book }) h Status.not_found

  -- What is answered to the manager's outcome, by either handler.
  unfoldable pub answer_lock :
      ℕ
      → Trip Store
      → Service Store
      → PrincipalConfig
      → LockRequest
      → LockOptions
      → Result Error Handle
      → Service Store × Result Status LockOutcome
  unfolding settle_grant
  answer_lock clock back sv principal req options (ok h) =
      settle_grant clock back sv principal req options h
  answer_lock clock back sv principal req options (err (Error.held _)) =
      (sv, ok (LockOutcome.held req.key))
  answer_lock clock back sv principal req options (err _) = (sv, err Status.internal)

  -- `token` is the owner that the manager generates; `back` is the trip of a release.
  unfoldable pub try_lock :
      ℕ
      → (there back : Trip Store) → Service Store
      → LockRequest
      → (token : String) → Service Store × Result Status LockOutcome
  unfolding admit answer_lock try_lock_with
  try_lock clock there back sv req token = elim (admit config acl sv.ready req) [
    | err status ↦ (sv, err status)
    | ok (principal, options) ↦
        let (s, outcome) =
          try_lock_with r there.link (there.meanwhile sv.store) there.now req.key token options
            watchdog_default in
        answer_lock clock back (record sv { store = s }) principal req options outcome
  ]

  unfoldable pub answer_wait :
      ℕ
      → Trip Store
      → Service Store
      → PrincipalConfig
      → LockRequest
      → LockOptions
      → Result Error Handle
      → Service Store × Result Status LockOutcome
  unfolding answer_lock
  answer_wait clock back sv principal req options (err (Error.timeout _)) =
      (sv, ok (LockOutcome.timed_out req.key))
  answer_wait clock back sv principal req options outcome =
      answer_lock clock back sv principal req options outcome

  -- The wait is the manager's, whose attempts and their instants are given, with the store at its
  -- end; `none` says that it goes on.
  unfoldable pub try_lock_for :
      ℕ
      → Option ℕ
      → List (TimedAttempt Store)
      → Store
      → Trip Store
      → Service Store
      → LockRequest
      → Option (Service Store × Result Status LockOutcome)
  unfolding admit answer_wait Waiting.try_lock_for
  try_lock_for clock deadline attempts after back sv req = elim (admit config acl sv.ready req) [
    | err status ↦ some (sv, err status)
    | ok (principal, options) ↦
        elim (Waiting.try_lock_for r req.key options watchdog_default deadline attempts) [
          | none ↦ none
          | some outcome ↦
              some
                (answer_wait clock back (record sv { store = after }) principal req options outcome)
        ]
  ]

  unfoldable pub on_unlocked :
      Service Store → String → Store × Result Error Bool → Service Store × Result Status Answer
  on_unlocked sv key (s, err e) = (record sv { store = s }, err Status.internal)
  on_unlocked sv key (s, ok true) =
      (record sv { store = s; registry = (release sv.registry key).1 }, ok Answer.done)
  on_unlocked sv key (s, ok false) = (record sv { store = s }, ok Answer.lost)

  unfoldable pub unlock :
      Trip Store
      → Service Store
      → (bearer : Option String) (key token : String) → Service Store × Result Status Answer
  unfolding resolve check_unlock on_unlocked unlock_with_token
  unlock there sv bearer key token =
      elim (resolve acl bearer >>= λ principal. check_unlock principal key) [
        | err status ↦ (sv, err status)
        | ok _ ↦
            on_unlocked sv key
              (unlock_with_token r there.link (there.meanwhile sv.store) there.now key token)
      ]

  unfoldable pub on_extension :
      Service Store → Store × Result Error Bool → Service Store × Result Status Answer
  on_extension sv (s, err e) = (record sv { store = s }, err Status.internal)
  on_extension sv (s, ok true) = (record sv { store = s }, ok Answer.done)
  on_extension sv (s, ok false) = (record sv { store = s }, ok Answer.lost)

  unfoldable pub extend :
      Trip Store
      → Service Store
      → (bearer : Option String) (key token : String) (ttl_ms : ℕ)
      → Service Store × Result Status Answer
  unfolding resolve check_extend on_extension extend_with_token
  extend there sv bearer key token ttl_ms =
      elim (resolve acl bearer >>= λ principal. check_extend principal key) [
        | err status ↦ (sv, err status)
        | ok _ ↦
            if ltb config.max_ttl ttl_ms
            then (sv, err Status.invalid_argument)
            else on_extension sv (
                extend_with_token r there.link (there.meanwhile sv.store) there.now key token
                  ttl_ms)
      ]

  -- The session's token is generated; the response carries it with the lease time.
  unfoldable pub register_session :
      ℕ → Service Store → (token client_id : String) (ttl_ms : ℕ) → Service Store × (String × ℕ)
  unfolding register session_ttl
  register_session clock sv token client_id ttl_ms =
      let ttl = session_ttl config ttl_ms in
      (record sv { book = register sv.book clock token client_id (ttl * 1_000_000) }, (token, ttl))

  unfoldable pub heartbeat_session :
      ℕ → Service Store → String → Service Store × Result Status (Unit {0})
  unfolding heartbeat on_heartbeat
  heartbeat_session clock sv token =
      let (result, book) = heartbeat sv.book clock token in
      (record sv { book = book }, on_heartbeat result)

  unfoldable pub close_session : (ℕ → Trip Store) → Service Store → String → Service Store × ℕ
  unfolding close
  close_session trips sv token =
      let ((s, book), released) = close r trips sv.store sv.book token in
      (record sv { store = s; book = book }, released)

  unfoldable pub on_forced :
      Service Store → String → Store × Result Error Bool → Service Store × Result Status Bool
  on_forced sv key (s, err e) = (record sv { store = s }, err Status.internal)
  on_forced sv key (s, ok released) =
      (record sv { store = s; registry = (release sv.registry key).1 }, ok released)

  unfoldable pub unlock_force :
      Trip Store
      → Service Store
      → (bearer : Option String) (key : String) → Service Store × Result Status Bool
  unfolding resolve check_admin on_forced force_unlock
  unlock_force there sv bearer key =
      elim (resolve acl bearer >>= λ principal. check_admin principal key) [
        | err status ↦ (sv, err status)
        | ok _ ↦
            on_forced sv key (force_unlock r there.link (there.meanwhile sv.store) there.now key)
      ]
