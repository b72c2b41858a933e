-- ===== src/Redis/Examples.antt =====
-- The mutex over the server in memory: runs, and the theorems at concrete calls.
use lock_dis.Prelude.{
  ◌∙◌, if◌then◌else◌, ltb, err, ℕ, ◌<◌, ◌≡◌, ◌≢◌, refl, sym, subst, Option, none, some, List, [],
  ◌∷◌, String, arith, ap, true, false, same_iff,
}
use mathlib.Core.Bool.{false≢true}
use lock_dis.Redis.Memory.{memory, empty}
use lock_dis.Redis.Mutex.{fence_key_for, acquire, issue_fence, extend, release}
use lock_dis.Redis.Mutex.Effects.{fence_key_for-ne}
use lock_dis.Redis.Mutex.Lease.{Op, Lease, answer, at, lease_step, promise, granted}
use lock_dis.Redis.Mutex.Refines.{Shows}
use lock_dis.Redis.Mutex.Steps.{perform}
use lock_dis.Redis.Mutex.Runs.{Call, run, lease_run, run-refines}
use lock_dis.Redis.Manager.{
  Error, Handle, Link, SafetyPolicy, handle_extend, handle_release, drop, try_lock_with, validate,
  call, on_acquired, max_transient_failures, mark_lost,
}
use lock_dis.Redis.Manager.Stale.{stale_handle-harmless}
use lock_dis.Redis.Manager.Watch.{rounds, started, rounds-give_up}
use lock_dis.Redis.Mutex.Safety.{
  reply_after, replies_after, InTime, acquire-excludes, acquire-fences_increase,
  acquire-after_expiry,
}

abbrev job : String
job = "job"

apart : job ≢ fence_key_for job
apart = fence_key_for-ne job

abbrev free : Lease
free = record { owner = none; counter = none }

vacant : Shows memory job (fence_key_for job) apart empty 0 free
vacant t le = (refl, refl)

abbrev ask : String → Op
ask token = Op.acquire token 100 1000

abbrev at_time : ℕ → Op → Call
at_time now op = record { now = now; op = op }

-- One client takes the lock, another is refused, and is granted it after the release.
abbrev three_calls : List Call
three_calls =
    at_time 0 (ask "a")
    ∷ at_time 10 (ask "b")
    ∷ at_time 20 (Op.release "a")
    ∷ at_time 30 (ask "b")
    ∷ []

run-replies :
    (run memory job (fence_key_for job) apart empty three_calls).1
    ≡ answer 1 1 ∷ answer 0 0 ∷ answer 1 0 ∷ answer 1 2 ∷ []
unfolding perform acquire issue_fence release fence_key_for
run-replies = refl

run-refines_example :
    ((run memory job (fence_key_for job) apart empty three_calls).1
      ≡ (lease_run free three_calls).1)
    × Shows memory job
        (fence_key_for job)
        apart
        (run memory job (fence_key_for job) apart empty three_calls).0
        30
        (lease_run free three_calls).0
run-refines_example =
    run-refines memory job (fence_key_for job) apart empty 0 free three_calls vacant
      (omega arith, (omega arith, (omega arith, (omega arith, tt)))) (omega arith)

took : (perform memory job (fence_key_for job) apart empty 0 (ask "a")).1 ≡ answer 1 1
unfolding perform acquire issue_fence fence_key_for
took = refl

took_it : (perform memory job (fence_key_for job) apart empty 0 (ask "a")).1.status ≢ 0
took_it z = absurd (omega (arith, ap (λ x. x.status) took, z))

abbrev tries : List Call
tries = at_time 10 (ask "b") ∷ at_time 20 (Op.release "b") ∷ []

b_is_not_a : ◌≢◌ {A = String} "b" "a"
b_is_not_a e = false≢true ((same_iff "b" "a").1 e)

acquire-excludes_example :
    reply_after memory job
      (fence_key_for job)
      apart
      empty
      0
      free
      vacant
      0
      (ask "a")
      tries
      99
      (ask "b")
    ≡ answer 0 0
acquire-excludes_example =
    acquire-excludes memory job (fence_key_for job) apart empty 0 free vacant 0 "a" 100 1000 tries
      99 (ask "b") (omega arith) (omega arith) took_it (omega arith, (omega arith, tt))
      ((omega arith, b_is_not_a), ((omega arith, b_is_not_a), tt)) (omega arith) (omega arith)
      b_is_not_a

-- Two extensions keep the counter of the first grant alive beyond its own lifetime.
abbrev brief : String → Op
brief token = Op.acquire token 100 150

abbrev long_hold : List Call
long_hold =
    at_time 90 (Op.extend "a" 100 150)
    ∷ at_time 180 (Op.extend "a" 100 150)
    ∷ at_time 200 (brief "b")
    ∷ at_time 270 (Op.release "a")
    ∷ []

brief_taken : (perform memory job (fence_key_for job) apart empty 0 (brief "a")).1 ≡ answer 1 1
unfolding perform acquire issue_fence fence_key_for
brief_taken = refl

long_hold-replies :
    replies_after memory job (fence_key_for job) apart empty 0 free vacant 0 (brief "a") long_hold
    ≡ answer 1 0 ∷ answer 1 0 ∷ answer 0 0 ∷ answer 1 0 ∷ []
unfolding perform acquire issue_fence extend release fence_key_for
long_hold-replies = refl

after_long_hold :
    reply_after memory job
      (fence_key_for job)
      apart
      empty
      0
      free
      vacant
      0
      (brief "a")
      long_hold
      300
      (brief "b")
    ≡ answer 1 2
unfolding perform acquire issue_fence extend release fence_key_for
after_long_hold = refl

acquire-fences_increase_example :
    (perform memory job (fence_key_for job) apart empty 0 (brief "a")).1.fence
    < (reply_after memory job
        (fence_key_for job)
        apart
        empty
        0
        free
        vacant
        0
        (brief "a")
        long_hold
        300
        (brief "b")).fence
acquire-fences_increase_example =
    acquire-fences_increase memory job (fence_key_for job) apart empty 0 free vacant 0 "a" 100 150
      long_hold 300 "b" 100 150 (omega arith) (omega arith)
      (λ z. absurd (omega (arith, ap (λ x. x.status) brief_taken, z)))
      (omega arith, (omega arith, (omega arith, (omega arith, tt)))) (omega arith)
      (subst (λ x. InTime 150 long_hold x 300) (sym long_hold-replies)
        (omega arith, (omega arith, (omega arith, (omega arith, omega arith)))))
      (λ z. absurd (omega (arith, ap (λ x. x.status) after_long_hold, z)))

acquire-after_expiry_example :
    (reply_after memory job
      (fence_key_for job)
      apart
      empty
      0
      free
      vacant
      0
      (ask "a")
      (at_time 60 (Op.extend "a" 100 1000) ∷ [])
      160
      (ask "b")).status
    ≡ 1
acquire-after_expiry_example =
    acquire-after_expiry memory job (fence_key_for job) apart empty 0 free vacant 0 (ask "a")
      (at_time 60 (Op.extend "a" 100 1000) ∷ []) 160 "b" 100 1000 (omega arith) (omega arith)
      (omega arith, tt) (omega arith) tt (omega arith) (omega arith, tt)

-- A handle of "a", kept beyond its lease.
abbrev old_handle : Handle
old_handle = record {
  key = job;
  fence_key = "{job}:fence";
  token = "a";
  fence = 1;
  released = false;
  poisoned = false;
  lost = false;
  ttl = 100;
  policy = SafetyPolicy.balanced;
  watched = true;
}

tag : old_handle.fence_key ≡ fence_key_for job
unfolding fence_key_for
tag = refl

abbrev taken_over : memory.Store
taken_over = (run memory job (fence_key_for job) apart empty three_calls).0

abbrev owned : Lease
owned = (lease_run free three_calls).0

owner_is_b : at 30 owned.owner ≡ some "b"
unfolding lease_step promise granted
owner_is_b = refl

not_a : at 30 owned.owner ≢ some "a"
not_a e = b_is_not_a (ap (or_else "") (sym owner_is_b ∙ e))
  where
    or_else : String → Option String → String
    or_else d none = d
    or_else d (some v) = v

stale_handle-harmless_example :
    ((handle_extend memory Link.reply_lost taken_over 30 old_handle 100).0 ≡ taken_over)
    × ((handle_release memory Link.reply_lost taken_over 30 old_handle).0 ≡ taken_over)
    × ((drop memory Link.reply_lost taken_over 30 old_handle).0 ≡ taken_over)
stale_handle-harmless_example =
    stale_handle-harmless memory taken_over 30 job owned run-refines_example.1 Link.reply_lost
      old_handle 100 refl tag not_a

rounds-give_up_example :
    (rounds memory
      (Link.request_lost ∷ Link.reply_lost ∷ Link.request_lost ∷ [])
      taken_over
      30
      old_handle
      started).1
    ≡ (if ltb (max_transient_failures old_handle.policy) 3
        then mark_lost old_handle
        else old_handle)
rounds-give_up_example =
    rounds-give_up memory (Link.request_lost ∷ Link.reply_lost ∷ Link.request_lost ∷ []) taken_over
      30 old_handle (tt, (tt, (tt, tt))) refl (omega arith)

-- The lock is free, the script runs, and the reply is lost: the caller gets an error, and the key
-- is held until the lease runs out.
orphaned :
    (try_lock_with memory Link.reply_lost empty 0 job "a"
      (record { ttl = 100; watchdog = none; safety_policy = SafetyPolicy.balanced })
      true).1
    ≡ err Error.backend
unfolding try_lock_with validate call on_acquired
orphaned = refl
