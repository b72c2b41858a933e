-- ===== src/Redis/Semaphore/Spec.antt =====
-- What the semaphore promises, without keys and commands: the permits with the times at which they
-- lapse, kept together until a deadline, and the number of grants.
use lock_dis.Prelude.{ℕ, suc, ◌+◌, Option, none, some, [], ◌∷◌, String, if◌then◌else◌, ltb, length}
use lock_dis.Redis.Server.{Members, above, score_of, with_member, without_member, is_some}
use lock_dis.Redis.Mutex.{Reply}
use lock_dis.Redis.Mutex.Lease.{Leased, at, answer}

-- One call of a script on the semaphore.
pub data Op : Type 0 where
  acquire : (token : String) (ttl : ℕ) → Op
  extend : (token : String) (ttl : ℕ) → Op
  release : (token : String) → Op

pub record Pool : Type 0 where
  pub permits : Option (Leased Members)
  pub grants : ℕ

abbrev pub members : Option Members → Members
members none = []
members (some ms) = ms

-- Fewer members, which are kept as long as those before.
abbrev pub left : Option (Leased Members) → Members → Option (Leased Members)
left none ms = none
left (some l) [] = none
left (some l) (m ∷ ms) = some (record { value = m ∷ ms; deadline = l.deadline })

abbrev pub kept_with : Members → String → ℕ → Option (Leased Members)
kept_with ms token deadline =
    some (record { value = with_member token deadline ms; deadline = deadline })

unfoldable pub pool_step : ℕ → Pool → ℕ → Op → Pool × Reply
pool_step max_permits p now (Op.acquire token ttl) =
    let live = above now (members (at now p.permits)) in
    if ltb (length live) max_permits
    then (
      record { permits = kept_with live token (now + ttl); grants = suc p.grants },
      answer 1 (suc p.grants),
    )
    else (record p { permits = left p.permits live }, answer 0 0)
pool_step max_permits p now (Op.extend token ttl) =
    let ms = members (at now p.permits) in
    if is_some (score_of token ms)
    then (record p { permits = kept_with ms token (now + ttl) }, answer 1 0)
    else (p, answer 0 0)
pool_step max_permits p now (Op.release token) =
    let ms = members (at now p.permits) in
    (
      record p { permits = left p.permits (without_member token ms) },
      answer (if is_some (score_of token ms) then 1 else 0) 0,
    )
