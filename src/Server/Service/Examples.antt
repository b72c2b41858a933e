-- ===== src/Server/Service/Examples.antt =====
-- The service at concrete requests, over the store in memory.
use lock_dis.Prelude.{
  String, ap, ℕ, ◌≡◌, ◌≢◌, ◌≤◌, ◌⊎◌, refl, true, false, none, some, [], ◌∷◌, ok, err, Result, arith,
  ◌>>=◌, All,
}
use lock_dis.Redis.Memory.{memory, empty}
use lock_dis.Redis.Mutex
use lock_dis.Redis.Mutex.{is_token}
use lock_dis.Redis.Manager.{Trip, Link}
use lock_dis.Redis.Manager.Freed.{Freed, set_nx_px_other-Freed}
use Prim.Native.String.{count}
use lock_dis.Server.Registry.{new, release, try_acquire, early_answer, holder_of}
use lock_dis.Server.Auth.{Status, check_unlock, may}
use lock_dis.Server.Auth.Resolve.{open_acl, resolve}
use lock_dis.Server.Sessions.{Book, SessionEntry, register}
use lock_dis.Server.Sessions.Closing.{close}
use lock_dis.Server.Sessions.Closing.Frees.{close-frees}
use lock_dis.Server.Service.{
  ServiceConfig, LockRequest, LockOutcome, Answer, Service, try_lock, unlock,
}
use lock_dis.Server.Service.Grants.{Settles, try_lock-Settles}
use lock_dis.Server.Service.Exits.{try_lock-unchanged}
use lock_dis.Server.Service.Unlocks.{unlock-answers}

abbrev config : ServiceConfig
config = record { default_ttl = 30_000; max_ttl = 600_000 }

abbrev at : ℕ → Trip memory.Store
at now = record { link = Link.up; now = now; meanwhile = λ s. s }

abbrev one_session : Book
one_session = register (λ _. none) 0 "s1" "worker" 10_000_000_000

abbrev start : Service memory.Store
start = record { store = empty; book = one_session; registry = new; ready = true }

abbrev request : LockRequest
request = record { bearer = none; key = "job"; options = none; session = "s1" }

abbrev locked : Service memory.Store × Result Status LockOutcome
locked = try_lock memory config open_acl true 5 (at 100) (at 101) start request "t"

up-ne : Link.up ≢ Link.request_lost
up-ne e = cc

up_reply : Link.up ≢ Link.reply_lost
up_reply e = cc

try_lock-Settles_example : Settles memory config open_acl true 5 (at 101) request "t" up-ne locked
try_lock-Settles_example =
    try_lock-Settles memory config open_acl true 5 (at 101) request "t" up-ne (at 100) start
      up_reply (omega arith) (λ t le e. cc) (λ t le e. cc)

first_grant : locked.1 ≡ ok (LockOutcome.granted "t" 1 30_000)
unfolding try_lock register open_acl try_acquire early_answer holder_of
first_grant = refl

draining :
    (try_lock memory config open_acl true 5
      (at 100)
      (at 101)
      (record start { ready = false })
      request
      "t").1
    ≡ err Status.unavailable
unfolding try_lock
draining = refl

try_lock-unchanged_example :
    (try_lock memory config open_acl true 5
      (at 100)
      (at 101)
      (record start { ready = false })
      request
      "t").0
    ≡ record start { ready = false }
try_lock-unchanged_example =
    try_lock-unchanged memory config open_acl true 5 (at 100) (at 101)
      (record start { ready = false }) request "t" Status.unavailable draining tt

permitted : resolve open_acl none >>= (λ principal. check_unlock principal "job") ≡ ok tt
unfolding resolve check_unlock open_acl may
permitted = refl

unlock-answers_example :
    let (sv, answer) = unlock memory config open_acl true (at 200) locked.0 none "job" "t" in
    ((is_token (memory.get locked.0.store 200 "job") "t" ≡ true)
      × (answer ≡ ok Answer.done)
      × Freed memory "job" "t" sv.store 200
      × (sv.registry ≡ (release locked.0.registry "job").1)
      × (sv.book ≡ locked.0.book))
    ⊎ ((is_token (memory.get locked.0.store 200 "job") "t" ≡ false)
        × (answer ≡ ok Answer.lost)
        × (sv ≡ locked.0))
unlock-answers_example =
    unlock-answers memory config open_acl true (at 200) locked.0 none "job" "t" refl permitted

unlocked : (unlock memory config open_acl true (at 200) locked.0 none "job" "t").1 ≡ ok Answer.done
unfolding unlock try_lock register open_acl Mutex.release try_acquire early_answer holder_of
unlocked = refl

-- The session that the grant was bound to.
abbrev bound_entry : SessionEntry
bound_entry = record {
  client_id = "worker";
  ttl = 10_000_000_000;
  last_seen = 5;
  hb_floor = 0;
  locks = ("job", "t") ∷ [];
}

bound : locked.0.book "s1" ≡ some bound_entry
unfolding try_lock register open_acl try_acquire early_answer holder_of
bound = refl

-- A rival that takes the key as soon as it is free.
abbrev contended : ℕ → Trip memory.Store
contended i = record {
  link = Link.up;
  now = 200;
  meanwhile = λ s. (memory.set_nx_px s 200 "job" "rival" 100).0;
}

rival-ne : ◌≢◌ {A = String} "rival" "t"
rival-ne e = absurd (omega (arith, ap count e))

close-frees_example :
    let ((s, book), released) = close memory contended locked.0.store locked.0.book "s1" in
    (book "s1" ≡ none) × All (λ l. Freed memory l.0 l.1 s 200) bound_entry.locks × (released ≤ 1)
close-frees_example =
    close-frees memory contended locked.0.store locked.0.book "s1" bound_entry 200 bound
      (record { arrives = λ i. up-ne; in_order = λ i. omega arith; over = λ i. omega arith })
      (λ i s. set_nx_px_other-Freed memory "job" "t" s 200 "job" "rival" 100 rival-ne, tt)
