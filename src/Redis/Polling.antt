-- ===== src/Redis/Polling.antt =====
-- The loop with which try_lock_reentrant_for, try_read_for, try_write_for and try_acquire_for wait
-- (reentrant.rs, rwlock.rs, semaphore.rs): try, give up on any error but `Held`, give up when the
-- deadline has passed, sleep.
pub mod Returns
use lock_dis.Prelude.{
  ℕ, Bool, true, false, Option, none, some, String, List, [], ◌∷◌, if◌then◌else◌, leb, Result, ok,
  err,
}
use lock_dis.Redis.Manager.{Error, Link}

-- One turn: what the attempt gives, and the instant after it.
pub record Turn {ℓ} (A : Type ℓ) : Type ℓ where
  pub outcome : Result Error A
  pub instant : ℕ

unfoldable pub is_held : Error → Bool
is_held (Error.held key) = true
is_held _ = false

-- After a turn that got no lock; `none` says that the loop is still running.
unfoldable pub wait_on {ℓ} :
    {A : Type ℓ}
    → String
    → (deadline instant : ℕ) → Error
    → Option (Result Error A)
    → Option (Result Error A)
unfolding is_held
wait_on key deadline instant e onward =
    if is_held e
    then (if leb deadline instant then some (err (Error.timeout key)) else onward)
    else some (err e)

-- The loop, for the turns to come.
unfoldable pub poll {ℓ} :
    {A : Type ℓ} → String → (deadline : ℕ) → List (Turn A) → Option (Result Error A)
unfolding wait_on
poll key deadline [] = none
poll key deadline (turn ∷ turns) =
    let onward = poll key deadline turns in
    elim turn.outcome [ ok a ↦ some (ok a) | err e ↦ wait_on key deadline turn.instant e onward ]

-- An attempt on a server: what becomes of its call, the store that it finds and the server's time,
-- and the instant after it by the client's clock. Other clients act between two attempts.
pub record Attempt (S : Type 0) : Type 0 where
  pub link : Link
  pub store : S
  pub now : ℕ
  pub instant : ℕ

abbrev pub turns_of :
    {S : Type 0} {A : Type 0}
    → (Link → S → ℕ → S × Result Error A)
    → List (Attempt S)
    → List (Turn A)
turns_of try [] = []
turns_of try (a ∷ rest) =
    record { outcome = (try a.link a.store a.now).1; instant = a.instant } ∷ turns_of try rest
