-- ===== src/Redis/Mutex/Lease.antt =====
-- What the mutex promises, without keys and commands: one lease with its owner and deadline, and
-- the fence counter with a deadline of its own. The scripts implement it (Refines).
use lock_dis.Prelude.{ℕ, suc, ◌+◌, Option, none, some, String, if◌then◌else◌, same}
use lock_dis.Redis.Server.{until}
use lock_dis.Redis.Mutex.{Reply, is_token}

-- One call of a script on the lock's two keys, with its arguments.
pub data Op : Type 0 where
  acquire : (token : String) (ttl fence_ttl : ℕ) → Op
  extend : (token : String) (ttl fence_ttl : ℕ) → Op
  release : (token : String) → Op

-- A value with the time at which it lapses.
pub record Leased {ℓ} (A : Type ℓ) : Type ℓ where
  pub value : A
  pub deadline : ℕ

abbrev pub at {ℓ} : {A : Type ℓ} → ℕ → Option (Leased A) → Option A
at t none = none
at t (some l) = until t l.deadline l.value

abbrev pub renewed {ℓ} : {A : Type ℓ} → Option A → ℕ → Option (Leased A)
renewed none deadline = none
renewed (some v) deadline = some (record { value = v; deadline = deadline })

pub record Lease : Type 0 where
  pub owner : Option (Leased String)
  pub counter : Option (Leased ℕ)

abbrev pub count : Option ℕ → ℕ
count none = 0
count (some n) = n

abbrev pub answer : ℕ → ℕ → Reply
answer status fence = record { status = status; fence = fence }

-- A grant to `token` at `now`.
unfoldable pub granted : Lease → ℕ → String → ℕ → ℕ → ℕ → Lease × Reply
granted l now token ttl fence_ttl status =
    let fence = suc (count (at now l.counter)) in
    (
      record {
        owner = some (record { value = token; deadline = now + ttl });
        counter = some (record { value = fence; deadline = now + fence_ttl });
      },
      answer status fence,
    )

unfoldable pub promise : Lease → ℕ → Option String → Op → Lease × Reply
unfolding granted
promise l now none (Op.acquire token ttl fence_ttl) = granted l now token ttl fence_ttl 1
promise l now (some v) (Op.acquire token ttl fence_ttl) =
    if same v token then granted l now token ttl fence_ttl 2 else (l, answer 0 0)
promise l now own (Op.extend token ttl fence_ttl) =
    if is_token own token
    then (
      record {
        owner = renewed own (now + ttl);
        counter = renewed (at now l.counter) (now + fence_ttl);
      },
      answer 1 0,
    )
    else (l, answer 0 0)
promise l now own (Op.release token) =
    if is_token own token then (record l { owner = none }, answer 1 0) else (l, answer 0 0)

-- One operation at `now`, which sees who holds the lease then.
unfoldable pub lease_step : Lease → ℕ → Op → Lease × Reply
unfolding promise
lease_step l now op = promise l now (at now l.owner) op
