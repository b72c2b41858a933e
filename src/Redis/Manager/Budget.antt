-- ===== src/Redis/Manager/Budget.antt =====
-- The time that a waiting caller gives its attempts, and what the probes see.
use lock_dis.Prelude.{
  outcome-cases, ℕ, ◌+◌, ◌≤◌, ◌<◌, ◌≡◌, ◌⊎◌, leb→le, leb→gt, refl, inl, inr, Option, none, some,
  String, List, [], ◌∷◌, leb, arith, Bool-cases, ok,
}
use lock_dis.Redis.Server.{Redis, is_some, as_number}
use lock_dis.Redis.Mutex.{fence_key_for}
use lock_dis.Redis.Mutex.Effects.{fence_key_for-ne}
use lock_dis.Redis.Mutex.Lease.{Lease, at, count}
use lock_dis.Redis.Mutex.Refines.{Shows, as_lock, as_counter}
use lock_dis.Redis.Manager.{Link, call}
use lock_dis.Redis.Manager.Waiting.{
  left_until, attempt_budget, Bounded, TimedTurn, is_over, timed_poll, probe_state, or_zero,
}
use lock_dis.Redis.Polling.{Turn, wait_on, poll}

-- An attempt either starts by the deadline and is cut off by it, or it starts later, after the last
-- pause, and gets two seconds of its own.
pub attempt_budget-late :
    (deadline now : ℕ)
    → ((now ≤ deadline) × (now + attempt_budget (some deadline) now ≤ deadline))
      ⊎ ((deadline < now) × (attempt_budget (some deadline) now ≡ 2000))
unfolding attempt_budget left_until
attempt_budget-late deadline now = elim (Bool-cases (leb now deadline)) [
  | inl early ↦ inl (leb→le now deadline early, rw early (ground arith))
  | inr late ↦ inr (leb→gt now deadline late, rw late refl)
]

is_over-deadline : (d now : ℕ) → is_over (some d) now ≡ leb d now
unfolding is_over left_until
is_over-deadline d now = ground arith

abbrev pub unbounded : {A : Type 0} → List (Turn A) → List (TimedTurn A)
unbounded [] = []
unbounded (t ∷ ts) =
    record { outcome = Bounded.finished t.outcome; instant = t.instant } ∷ unbounded ts

-- When no attempt is cut off, the loop gives what the loop of the other locks gives.
pub timed_poll-poll :
    {A : Type 0} (key : String) (deadline : ℕ) (turns : List (Turn A))
    → timed_poll key (some deadline) (unbounded turns) ≡ poll key deadline turns
unfolding timed_poll poll wait_on
timed_poll-poll key deadline [] = refl
timed_poll-poll key deadline (t ∷ ts) = elim (outcome-cases t.outcome) [
  | inl (a, e) ↦ simp e refl
  | inr (x, e) ↦ rw (e, is_over-deadline deadline t.instant, timed_poll-poll key deadline ts) refl
]

is_some-as_lock : (o : Option String) → is_some (as_lock o) ≡ is_some o
is_some-as_lock none = refl
is_some-as_lock (some v) = refl

or_zero-counter : (o : Option ℕ) → or_zero (as_number (as_counter o)) ≡ count o
or_zero-counter none = refl
or_zero-counter (some n) = refl

-- What watchers are told is the lease: whether it has an owner, and the last fence issued.
pub probe_state-lease :
    (r : Redis) (s : r.Store) (now : ℕ) (key : String) (l : Lease)
    → Shows r key (fence_key_for key) (fence_key_for-ne key) s now l
    → (probe_state r Link.up s now key).1 ≡ ok (is_some (at now l.owner), count (at now l.counter))
unfolding probe_state call
probe_state-lease r s now key l sh =
    let (owner, counter) = sh now (omega arith) in
    rw
      (
        r.exists-reply s now key,
        r.get_number-reply s now (fence_key_for key),
        owner,
        counter,
        is_some-as_lock (at now l.owner),
        or_zero-counter (at now l.counter),
      )
      refl
