-- ===== src/Redis/Manager/Waiting.antt =====
-- The waiting loop try_lock_for of crates/redis/src/single.rs, which bounds each attempt by the time
-- that is left, and the probes of a key. Times of the client's clock are in milliseconds.
use lock_dis.Prelude.{
  ℕ, ◌+◌, ◌-◌, Bool, true, false, Option, none, some, String, List, [], ◌∷◌, if◌then◌else◌, ltb,
  leb, ◌==◌, min, Result, ok, err,
}
use lock_dis.Redis.Server.{Redis}
use lock_dis.Redis.Mutex.{fence_key_for}
use lock_dis.Redis.Manager.{Error, Link, LockOptions, Handle, call, try_lock_with}
use lock_dis.Redis.Polling.{is_held}

-- `deadline.checked_duration_since(now)`, which is none once the deadline has passed
unfoldable pub left_until : Option ℕ → (now : ℕ) → Option ℕ
left_until none now = none
left_until (some d) now = if leb now d then some (d - now) else none

-- The time that an attempt gets, which starts at `now`.
unfoldable pub attempt_budget : Option ℕ → (now : ℕ) → ℕ
unfolding left_until
attempt_budget deadline now =
    min (elim (left_until deadline now) [ none ↦ 5000 | some left ↦ left ]) 2000

-- An attempt under `tokio::time::timeout`
pub data Bounded (A : Type 0) : Type 0 where
  finished : Result Error A → Bounded A
  cut_off : Bounded A

pub record TimedTurn (A : Type 0) : Type 0 where
  pub outcome : Bounded A
  pub instant : ℕ

-- Whether the loop gives up after a refusal at this instant.
unfoldable pub is_over : Option ℕ → (now : ℕ) → Bool
unfolding left_until
is_over none now = false
is_over (some d) now = elim (left_until (some d) now) [ none ↦ true | some left ↦ left == 0 ]

-- The loop, for the turns to come; `none` says that it is still running.
unfoldable pub timed_poll :
    {A : Type 0} → String → Option ℕ → List (TimedTurn A) → Option (Result Error A)
unfolding is_held is_over
timed_poll key deadline [] = none
timed_poll key deadline (turn ∷ turns) =
    let onward = timed_poll key deadline turns in
    elim turn.outcome [
      | cut_off ↦ some (err (Error.timeout key))
      | finished inner ↦ elim inner [
        | ok a ↦ some (ok a)
        | err e ↦
            if is_held e
            then (if is_over deadline turn.instant then some (err (Error.timeout key)) else onward)
            else some (err e)
      ]
    ]

-- An attempt of the loop: the token that it generates, what becomes of its call, the store that it
-- finds, the server's time, and when it started and ended. One that takes longer than its budget is
-- cut off.
pub record TimedAttempt (S : Type 0) : Type 0 where
  pub token : String
  pub link : Link
  pub store : S
  pub now : ℕ
  pub began : ℕ
  pub instant : ℕ

abbrev pub or_zero : Option ℕ → ℕ
or_zero none = 0
or_zero (some n) = n

module _ (r : Redis) where
  open r use {Store, exists, get_number}

  unfoldable pub timed_turns :
      (key : String)
      → LockOptions
      → (watchdog_default : Bool) → Option ℕ
      → List (TimedAttempt Store)
      → List (TimedTurn Handle)
  unfolding attempt_budget try_lock_with
  timed_turns key options watchdog_default deadline [] = []
  timed_turns key options watchdog_default deadline (a ∷ rest) =
      let turns = timed_turns key options watchdog_default deadline rest in
      record {
        outcome =
            if ltb (a.began + attempt_budget deadline a.began) a.instant
            then Bounded.cut_off
            else Bounded.finished
                (try_lock_with r a.link a.store a.now key a.token options watchdog_default).1;
        instant = a.instant;
      }
      ∷ turns

  unfoldable pub try_lock_for :
      (key : String)
      → LockOptions
      → (watchdog_default : Bool) → (deadline : Option ℕ) → List (TimedAttempt Store)
      → Option (Result Error Handle)
  unfolding timed_poll timed_turns
  try_lock_for key options watchdog_default deadline attempts =
      timed_poll key deadline (timed_turns key options watchdog_default deadline attempts)

  unfoldable pub probe_held : Link → Store → ℕ → String → Store × Result Error Bool
  unfolding call
  probe_held link s now key = call link s (s, exists s now key)

  unfoldable pub probe_state : Link → Store → ℕ → String → Store × Result Error (Bool × ℕ)
  unfolding call
  probe_state link s now key =
      call link s (s, (exists s now key, or_zero (get_number s now (fence_key_for key))))
