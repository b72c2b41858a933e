-- ===== src/Redis/Reentrant/Spec.antt =====
-- What the reentrant lock promises, without keys and commands: an owner with a count of holds, under
-- a lease, and the number of grants. The scripts implement it (Refines).
use lock_dis.Prelude.{ℕ, zero, suc, ◌+◌, ◌≤◌, Option, none, some, String, if◌then◌else◌, same, ltb}
use lock_dis.Redis.Mutex.Lease.{Leased, at, answer}
use lock_dis.Redis.Mutex.{Reply}

pub record Holds : Type 0 where
  pub owner : String
  -- one less than the count of holds
  pub nested : ℕ

-- One call of a script, with its arguments.
pub data Op : Type 0 where
  acquire : (token : String) (ttl fence_ttl : ℕ) → Op
  release : (token : String) (ttl : ℕ) → Op
  release_all : (token : String) → Op
  extend : (token : String) (ttl : ℕ) → Op

abbrev pub token_of : Op → String
token_of (Op.acquire token _ _) = token
token_of (Op.release token _) = token
token_of (Op.release_all token) = token
token_of (Op.extend token _) = token

pub record Reentrant : Type 0 where
  pub holds : Option (Leased Holds)
  pub grants : ℕ

-- What a script replies: an acquisition its status and fence, another call the holds that are left.
pub data Answer : Type 0 where
  granted : Reply → Answer
  left : Option ℕ → Answer

abbrev pub leased : String → ℕ → ℕ → Option (Leased Holds)
leased token nested deadline =
    some (record { value = record { owner = token; nested = nested }; deadline = deadline })

-- The deadline of a lease.
abbrev pub deadline_of : Option (Leased Holds) → ℕ
deadline_of none = 0
deadline_of (some l) = l.deadline

-- The count of holds is at most the number of grants.
abbrev pub Counted : Option (Leased Holds) → ℕ → Type 0
Counted none n = Unit
Counted (some h) n = suc h.value.nested ≤ n

unfoldable pub promise : Reentrant → ℕ → Option Holds → Op → Reentrant × Answer
promise l now none (Op.acquire token ttl fence_ttl) = (
  record { holds = leased token 0 (now + ttl); grants = suc l.grants },
  Answer.granted (answer 1 (suc l.grants)),
)
promise l now none (Op.release token ttl) = (l, Answer.left none)
promise l now none (Op.release_all token) = (l, Answer.left none)
promise l now none (Op.extend token ttl) = (l, Answer.left none)
promise l now (some h) (Op.acquire token ttl fence_ttl) =
    if same h.owner token
    then (
      record { holds = leased token (suc h.nested) (now + ttl); grants = suc l.grants },
      Answer.granted (answer 2 (suc l.grants)),
    )
    else (l, Answer.granted (answer 0 0))
promise l now (some h) (Op.release token ttl) =
    if same h.owner token
    then elim h.nested [
      | zero ↦ (record l { holds = none }, Answer.left (some 0))
      | suc n ↦ (
        record l { holds = leased token n (if ltb 0 ttl then now + ttl else deadline_of l.holds) },
        Answer.left (some (suc n)),
      )
    ]
    else (l, Answer.left none)
promise l now (some h) (Op.release_all token) =
    if same h.owner token
    then (record l { holds = none }, Answer.left (some 1))
    else (l, Answer.left none)
promise l now (some h) (Op.extend token ttl) =
    if same h.owner token
    then (record l { holds = leased token h.nested (now + ttl) }, Answer.left (some 1))
    else (l, Answer.left none)

-- One operation at `now`, which sees who holds the lock then.
unfoldable pub step : Reentrant → ℕ → Op → Reentrant × Answer
unfolding promise
step l now op = promise l now (at now l.holds) op
