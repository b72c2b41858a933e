-- ===== src/Server/Service/Grants.antt =====
-- What an acquisition through the service leaves behind (service.rs).
use lock_dis.Prelude.{
  outcome-cases, subst, ℕ, ◌≤◌, ◌≡◌, ◌≢◌, ◌⊎◌, refl, ap, inl, inr, Bool, true, false, [], ◌∷◌, ◌++◌,
  same_iff, same_refl, some, String, same, Bool-cases, Option-cases, ok, err, Result,
}
use lock_dis.Redis.Server.{Redis}
use lock_dis.Redis.Manager.{Trip, Error, Handle, Link, LockOptions, try_lock_with}
use lock_dis.Redis.Manager.Tried.{Tried, try_lock_with-Tried}
use lock_dis.Redis.Manager.Freed.{Freed, Freed-later, handle_release-Freed}
use lock_dis.Server.Registry.{HeldRegistry, try_acquire, early_answer, holder_of, at_ceiling}
use lock_dis.Server.Sessions.{Book, SessionEntry, bind}
use mathlib.Core.Bool.{false≢true}
use lock_dis.Server.Auth.{PrincipalConfig, Status}
use lock_dis.Server.Auth.Resolve.{Acl}
use lock_dis.Server.Sessions.Closing.{Locks}
use lock_dis.Server.Service.{
  ServiceConfig, LockRequest, LockOutcome, Service, admit, undo, settle_grant, answer_lock,
  try_lock, bind_session,
}

-- The last lock bound to the session is the key, with the token.
abbrev pub Bound : Book → String → String → String → Type 0
Bound book session key token =
    (e : SessionEntry) × (before : Locks) × (book session ≡ some e)
    × (e.locks ≡ before ++ ((key, token) ∷ []))

abbrev pub Registered : HeldRegistry → String → Type 0
Registered reg key = (p : String) × (holder_of key reg.holders ≡ some p)

try_acquire-Registered :
    (reg : HeldRegistry) (key principal : String) (max_keys : ℕ)
    → (try_acquire reg key principal max_keys).0 ≡ true
    → Registered (try_acquire reg key principal max_keys).1 key
unfolding try_acquire early_answer holder_of
try_acquire-Registered reg key principal max_keys e =
    elim (Option-cases (holder_of key reg.holders)) [
      | inr (o, q) ↦ rw (q, try_acquire, early_answer) (o, q)
      | inl q ↦ elim (Bool-cases (at_ceiling reg principal max_keys)) [
        | inl m ↦ absurd (false≢true (rw (q, m, try_acquire, early_answer) at e))
        | inr m ↦ rw (q, m, try_acquire, early_answer) (principal, rw (same_refl key))
      ]
    ]

bind_session-Bound :
    (book : Book) (clock : ℕ) (session key token : String)
    → let (bound, book') = bind_session book clock session key token in
      bound ≡ true → (session ≡ "") ⊎ Bound book' session key token
unfolding bind_session bind
bind_session-Bound book clock session key token e = elim (Bool-cases (same session "")) [
  | inl q ↦ inl ((same_iff session "").0 q)
  | inr q ↦ elim (Option-cases (book session)) [
    | inl z ↦ absurd (false≢true (rw (bind_session, bind, q, z) at e))
    | inr (entry, z) ↦ inr (
        rw (bind_session, bind, q, z)
          (rw (same_refl session) (
            record entry { last_seen = clock; locks = entry.locks ++ ((key, token) ∷ []) },
            entry.locks,
            refl,
            refl,
          )))
  ]
]

module _ (r : Redis) (config : ServiceConfig) (acl : Acl) (watchdog_default : Bool) (clock : ℕ)
    (back : Trip r.Store) (req : LockRequest) (token : String)
    (arrives : back.link ≢ Link.request_lost) where
  -- A grant is told, registered and bound to the session that the request names; without a grant
  -- the key does not show the token.
  abbrev pub Settles : Service r.Store × Result Status LockOutcome → Type 0
  Settles res =
      ((fence : ℕ) × (ttl : ℕ) × (res.1 ≡ ok (LockOutcome.granted token fence ttl))
        × Registered res.0.registry req.key
        × ((req.session ≡ "") ⊎ Bound res.0.book req.session req.key token))
      ⊎ Freed r req.key token res.0.store back.now

  undo-Freed :
      (sv : Service r.Store) (h : Handle) (status : Status)
      → h.key ≡ req.key
      → h.token ≡ token
      → h.released ≡ false
      → Freed r req.key token (undo r config acl watchdog_default back sv h status).0.store back.now
  unfolding undo
  undo-Freed sv h status ek et live =
      subst
        (λ k.
          Freed r k token (undo r config acl watchdog_default back sv h status).0.store back.now)
        ek
        (subst
          (λ t.
            Freed r h.key t (undo r config acl watchdog_default back sv h status).0.store back.now)
          et (handle_release-Freed r back.link (back.meanwhile sv.store) back.now h arrives live))

  settle_grant-Settles :
      (sv : Service r.Store) (principal : PrincipalConfig) (options : LockOptions) (h : Handle)
      → h.key ≡ req.key
      → h.token ≡ token
      → h.released ≡ false
      → Settles (settle_grant r config acl watchdog_default clock back sv principal req options h)
  unfolding settle_grant
  settle_grant-Settles sv principal options h ek et live =
      elim (Bool-cases (bind_session sv.book clock req.session req.key h.token).0) [
        | inr b ↦
            rw (settle_grant, b)
              (inr (
                undo-Freed
                  (record sv { book = (bind_session sv.book clock req.session req.key h.token).1 })
                  h Status.not_found ek et live))
        | inl b ↦
            elim (Bool-cases
              (try_acquire sv.registry req.key principal.name principal.max_keys).0) [
                | inr q ↦
                    rw (settle_grant, b, q)
                      (inr (
                        undo-Freed
                          (record sv {
                            book = (bind_session sv.book clock req.session req.key h.token).1;
                          })
                          h Status.resource_exhausted ek et live))
                | inl q ↦
                    rw (settle_grant, b, q)
                      (inl (
                        h.fence,
                        options.ttl,
                        ap (λ t. ok (LockOutcome.granted t h.fence options.ttl)) et,
                        try_acquire-Registered sv.registry req.key principal.name principal.max_keys
                            q,
                        subst
                            (λ t.
                              (req.session ≡ "")
                              ⊎ Bound (bind_session sv.book clock req.session req.key h.token).1
                                  req.session req.key t)
                            et (bind_session-Bound sv.book clock req.session req.key h.token b),
                      ))
              ]
      ]

  answer_lock-Settles :
      (sv : Service r.Store) (principal : PrincipalConfig) (options : LockOptions) (now : ℕ)
      (outcome : Result Error Handle)
      → now ≤ back.now
      → Tried r sv.store now req.key token (sv.store, outcome)
      → Settles
          (answer_lock r config acl watchdog_default clock back sv principal req options outcome)
  unfolding answer_lock
  answer_lock-Settles sv principal options now (ok h) le (ek, et, live) =
      settle_grant-Settles sv principal options h ek et live
  answer_lock-Settles sv principal options now (err (Error.held _)) le free =
      inr (Freed-later r req.key token sv.store now back.now le free)
  answer_lock-Settles sv principal options now (err (Error.timeout _)) le free =
      inr (Freed-later r req.key token sv.store now back.now le free)
  answer_lock-Settles sv principal options now (err (Error.lost _ _)) le free =
      inr (Freed-later r req.key token sv.store now back.now le free)
  answer_lock-Settles sv principal options now (err (Error.invalid_config _)) le free =
      inr (Freed-later r req.key token sv.store now back.now le free)
  answer_lock-Settles sv principal options now (err Error.backend) le free =
      inr (Freed-later r req.key token sv.store now back.now le free)

  -- An acquisition through the service, whose request does not lose its reply and whose undoing
  -- reaches the store, either answers with the grant of its token, registers the key, and binds the
  -- key to the session if one is named; or no key is left locked under the token, whatever the
  -- refusal. Nobody else uses the token.
  pub try_lock-Settles :
      (there : Trip r.Store) (sv : Service r.Store)
      → there.link ≢ Link.reply_lost
      → there.now ≤ back.now
      → Freed r req.key token sv.store there.now
      → Freed r req.key token (there.meanwhile sv.store) there.now
      → Settles (try_lock r config acl watchdog_default clock there back sv req token)
  unfolding try_lock
  try_lock-Settles there sv n le free free' = elim (outcome-cases (admit config acl sv.ready req)) [
    | inr (status, e) ↦
        rw (try_lock, e) (inr (Freed-later r req.key token sv.store there.now back.now le free))
    | inl ((principal, options), e) ↦
        let tried =
          try_lock_with r there.link (there.meanwhile sv.store) there.now req.key token options
            watchdog_default in
        rw (try_lock, e)
          (answer_lock-Settles (record sv { store = tried.0 }) principal options there.now tried.1
            le
            (try_lock_with-Tried r (there.meanwhile sv.store) there.now req.key token there.link
              options watchdog_default free' n))
  ]
