-- ===== src/Redis/RwLock/Spec.antt =====
-- What the read-write lock promises, without keys and commands: the readers' tokens or the writer's,
-- under one lease, and the number of grants. The scripts implement it (Refines).
use lock_dis.Prelude.{
  ℕ, suc, ◌+◌, Bool, false, ◌||◌, Option, none, some, String, List, [], ◌∷◌, if◌then◌else◌, same,
  length,
}
use lock_dis.Redis.Mutex.Lease.{Leased, at, answer}
use lock_dis.Redis.Mutex.{Reply}

pub data Mode : Type 0 where
  reading : (tokens : List String) → Mode
  writing : (token : String) → Mode

pub data Op : Type 0 where
  read_acquire : (token : String) (ttl fence_ttl : ℕ) → Op
  read_release : (token : String) (ttl : ℕ) → Op
  write_acquire : (token : String) (ttl fence_ttl : ℕ) → Op
  write_release : (token : String) → Op
  extend : (token : String) (ttl : ℕ) → Op

abbrev pub token_of : Op → String
token_of (Op.read_acquire token _ _) = token
token_of (Op.read_release token _) = token
token_of (Op.write_acquire token _ _) = token
token_of (Op.write_release token) = token
token_of (Op.extend token _) = token

pub record RwState : Type 0 where
  pub mode : Option (Leased Mode)
  pub grants : ℕ

-- An acquisition's status and fence, or what another script replies.
pub data Answer : Type 0 where
  granted : Reply → Answer
  left : Option ℕ → Answer

abbrev pub leased : Mode → ℕ → Option (Leased Mode)
leased m deadline = some (record { value = m; deadline = deadline })

abbrev pub member : String → List String → Bool
member token [] = false
member token (t ∷ ts) = same t token || member token ts

abbrev pub without : String → List String → List String
without token [] = []
without token (t ∷ ts) = if same t token then ts else t ∷ without token ts

-- The state after a reader that was registered is gone.
abbrev pub remaining : RwState → ℕ → List String → RwState × Answer
remaining l deadline [] = (record l { mode = none }, Answer.left (some 0))
remaining l deadline (t ∷ ts) = (
  record l { mode = leased (Mode.reading (t ∷ ts)) deadline },
  Answer.left (some (suc (length ts))),
)

-- A grant that leaves the lock in a mode.
abbrev pub given : RwState → Mode → (deadline status : ℕ) → RwState × Answer
given l m deadline status = (
  record { mode = leased m deadline; grants = suc l.grants },
  Answer.granted (answer status (suc l.grants)),
)

abbrev pub refused : RwState → RwState × Answer
refused l = (l, Answer.granted (answer 0 0))

unfoldable pub promise : RwState → ℕ → Option Mode → Op → RwState × Answer
promise l now none (Op.read_acquire token ttl fence_ttl) =
    given l (Mode.reading (token ∷ [])) (now + ttl) 1
promise l now none (Op.write_acquire token ttl fence_ttl) =
    given l (Mode.writing token) (now + ttl) 1
promise l now none (Op.read_release token ttl) = (l, Answer.left none)
promise l now none (Op.write_release token) = (l, Answer.left none)
promise l now none (Op.extend token ttl) = (l, Answer.left none)
promise l now (some (Mode.reading ts)) (Op.read_acquire token ttl fence_ttl) =
    if member token ts then refused l else given l (Mode.reading (token ∷ ts)) (now + ttl) 1
promise l now (some (Mode.reading ts)) (Op.write_acquire token ttl fence_ttl) = refused l
promise l now (some (Mode.reading ts)) (Op.read_release token ttl) =
    if member token ts then remaining l (now + ttl) (without token ts) else (l, Answer.left none)
promise l now (some (Mode.reading ts)) (Op.write_release token) = (l, Answer.left none)
promise l now (some (Mode.reading ts)) (Op.extend token ttl) =
    (record l { mode = leased (Mode.reading ts) (now + ttl) }, Answer.left (some 1))
promise l now (some (Mode.writing t)) (Op.read_acquire token ttl fence_ttl) = refused l
promise l now (some (Mode.writing t)) (Op.write_acquire token ttl fence_ttl) =
    if same t token then given l (Mode.writing t) (now + ttl) 2 else refused l
promise l now (some (Mode.writing t)) (Op.read_release token ttl) = (l, Answer.left none)
promise l now (some (Mode.writing t)) (Op.write_release token) =
    if same t token then (record l { mode = none }, Answer.left (some 1)) else (l, Answer.left none)
promise l now (some (Mode.writing t)) (Op.extend token ttl) =
    if same t token
    then (record l { mode = leased (Mode.writing t) (now + ttl) }, Answer.left (some 1))
    else (l, Answer.left none)

-- One operation at `now`, which sees the mode of the lock then.
unfoldable pub step : RwState → ℕ → Op → RwState × Answer
unfolding promise
step l now op = promise l now (at now l.mode) op
