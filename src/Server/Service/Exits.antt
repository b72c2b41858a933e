-- ===== src/Server/Service/Exits.antt =====
-- The exits of an acquisition that change nothing (service.rs).
use lock_dis.Prelude.{
  outcome-cases, ℕ, ◌≡◌, inl, inr, Bool, String, Result, ok, err, Bool-cases, subst,
}
use lock_dis.Redis.Server.{Redis}
use lock_dis.Redis.Manager.{Trip, Error, Handle, LockOptions, try_lock_with}
use lock_dis.Server.Registry.{try_acquire}
use lock_dis.Server.Auth.{PrincipalConfig, Status}
use lock_dis.Server.Auth.Resolve.{Acl}
use lock_dis.Server.Service.{
  ServiceConfig, LockRequest, Service, admit, undo, settle_grant, answer_lock, try_lock,
  bind_session,
}

-- The refusals that speak of the request and not of the lock.
abbrev pub IsEarly : Status → Type 0
IsEarly Status.unavailable = Unit
IsEarly Status.unauthenticated = Unit
IsEarly Status.permission_denied = Unit
IsEarly Status.invalid_argument = Unit
IsEarly _ = ⊥

abbrev NotEarly {ℓ} : {A : Type ℓ} → Result Status A → Type 0
NotEarly (ok a) = Unit
NotEarly (err status) = ¬ IsEarly status

module _ (r : Redis) (config : ServiceConfig) (acl : Acl) (watchdog_default : Bool)
    (clock : ℕ) where
  settle_grant-NotEarly :
      (back : Trip r.Store) (sv : Service r.Store) (principal : PrincipalConfig) (req : LockRequest)
      (options : LockOptions) (h : Handle)
      → NotEarly
          (settle_grant r config acl watchdog_default clock back sv principal req options h).1
  unfolding settle_grant undo
  settle_grant-NotEarly back sv principal req options h =
      elim (Bool-cases (bind_session sv.book clock req.session req.key h.token).0) [
        | inr b ↦ rw (settle_grant, b) (λ early. early)
        | inl b ↦
            elim (Bool-cases
              (try_acquire sv.registry req.key principal.name principal.max_keys).0) [
                | inr q ↦ rw (settle_grant, b, q) (λ early. early)
                | inl q ↦ rw (settle_grant, b, q) tt
              ]
      ]

  answer_lock-NotEarly :
      (back : Trip r.Store) (sv : Service r.Store) (principal : PrincipalConfig) (req : LockRequest)
      (options : LockOptions) (outcome : Result Error Handle)
      → NotEarly
          (answer_lock r config acl watchdog_default clock back sv principal req options outcome).1
  unfolding answer_lock
  answer_lock-NotEarly back sv principal req options (ok h) =
      settle_grant-NotEarly back sv principal req options h
  answer_lock-NotEarly back sv principal req options (err (Error.held _)) = tt
  answer_lock-NotEarly back sv principal req options (err (Error.timeout _)) = λ early. early
  answer_lock-NotEarly back sv principal req options (err (Error.lost _ _)) = λ early. early
  answer_lock-NotEarly back sv principal req options (err (Error.invalid_config _)) = λ early. early
  answer_lock-NotEarly back sv principal req options (err Error.backend) = λ early. early

  -- An acquisition that the service refuses as draining, unauthenticated, not permitted or badly
  -- asked for changes neither the store nor the book of sessions nor the registry.
  pub try_lock-unchanged :
      (there back : Trip r.Store) (sv : Service r.Store) (req : LockRequest) (token : String)
      (status : Status)
      → (try_lock r config acl watchdog_default clock there back sv req token).1 ≡ err status
      → IsEarly status
      → (try_lock r config acl watchdog_default clock there back sv req token).0 ≡ sv
  unfolding try_lock
  try_lock-unchanged there back sv req token status refused early =
      elim (outcome-cases (admit config acl sv.ready req)) [
        | inr (s, e) ↦ rw (try_lock, e)
        | inl ((principal, options), e) ↦
            let tried =
              try_lock_with r there.link (there.meanwhile sv.store) there.now req.key token options
                watchdog_default in
            let answered =
              answer_lock r config acl watchdog_default clock back (record sv { store = tried.0 })
                principal req options tried.1 in
            let same_answer : answered.1 ≡ err status = rw (try_lock, e) at refused in
            absurd (
              (subst (λ x. NotEarly x) same_answer
                  (answer_lock-NotEarly back (record sv { store = tried.0 }) principal req options
                    tried.1))
                early)
      ]
