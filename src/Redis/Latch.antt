-- ===== src/Redis/Latch.antt =====
-- crates/redis/src/latch.rs: the countdown latch, with its three scripts. A script's reply of -1 is
-- `none`. The key has no deadline; its count is never below 0, since the script stops there.
pub mod Counts
mod Examples
use lock_dis.Prelude.{
  ℕ, zero, suc, ◌+◌, Option, none, some, String, List, [], ◌∷◌, if◌then◌else◌, leb, ◌==◌, Result,
  ok, err,
}
use lock_dis.Redis.Server.{Redis}
use lock_dis.Redis.Manager.{Error, Link, call}
use lock_dis.Redis.Polling.{Attempt}

-- What the client makes of a script's reply: a latch that is not there counts as finished.
abbrev pub counted_out : Result Error (Option ℕ) → Result Error ℕ
counted_out (err e) = err e
counted_out (ok none) = ok 0
counted_out (ok (some v)) = ok v

unfoldable pub initial_counts : ℕ → Result Error ℕ
initial_counts n = if n == 0 then err (Error.invalid_config n) else ok n

module _ (r : Redis) where
  open r use {Store, set_nx, get_number, decr}

  unfoldable pub latch_init : Store → ℕ → (key : String) → ℕ → Store × ℕ
  latch_init s now key n = let (s', set) = set_nx s now key n in (s', if set then 1 else 0)

  unfoldable pub latch_count_down : Store → ℕ → (key : String) → Store × Option ℕ
  latch_count_down s now key = elim (get_number s now key) [
    | none ↦ (s, none)
    | some v ↦
        if v == 0 then (s, some 0) else (let (s', left) = decr s now key in (s', some (left + 1)))
  ]

  unfoldable pub latch_get : Store → ℕ → (key : String) → Store × Option ℕ
  latch_get s now key = (s, get_number s now key)

  unfoldable pub create : Link → Store → ℕ → (key : String) → ℕ → Store × Result Error (Unit {0})
  unfolding initial_counts call latch_init
  create link s now key n = elim (initial_counts n) [
    | err e ↦ (s, err e)
    | ok m ↦
        (let (s', created) = call link s (latch_init s now key m) in
          (s', elim created [ err e ↦ err e | ok _ ↦ ok tt ]))
  ]

  unfoldable pub count_down : Link → Store → ℕ → (key : String) → Store × Result Error ℕ
  unfolding call latch_count_down
  count_down link s now key =
      let (s', reply) = call link s (latch_count_down s now key) in (s', counted_out reply)

  unfoldable pub count : Link → Store → ℕ → (key : String) → Store × Result Error ℕ
  unfolding call latch_get
  count link s now key =
      let (s', reply) = call link s (latch_get s now key) in (s', counted_out reply)

  -- `wait_until_zero`, for the turns of its loop; `none` says that it is still running.
  unfoldable pub wait_until_zero :
      (key : String) (deadline : ℕ) → List (Attempt Store) → Option (Result Error (Unit {0}))
  unfolding count
  wait_until_zero key deadline [] = none
  wait_until_zero key deadline (a ∷ rest) =
      let onward = wait_until_zero key deadline rest in
      elim (count a.link a.store a.now key).1 [
        | err e ↦ some (err e)
        | ok n ↦
            if n == 0
            then some (ok tt)
            else if leb deadline a.instant
            then some (err (Error.timeout key))
            else onward
      ]
