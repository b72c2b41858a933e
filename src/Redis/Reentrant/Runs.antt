-- ===== src/Redis/Reentrant/Runs.antt =====
-- Sequences of calls of the reentrant lock's scripts by any number of owners, in the order of the
-- server.
use lock_dis.Prelude.{
  ℕ, suc, ◌+◌, ◌≤◌, ◌<◌, ◌^◌, ◌≡◌, ◌≢◌, inl, inr, Option, none, some, String, List, ltb, same,
  arith, length, Bool-cases, ℕ-cases,
}
use lock_dis.Redis.Server.{Redis}
use lock_dis.Redis.Mutex.Lease.{Leased, at}
use lock_dis.Redis.Reentrant.Spec.{Holds, Op, Reentrant, Answer, promise, step, Counted}
use lock_dis.Redis.Reentrant.Writes.{encode, perform, Shows}
use lock_dis.Redis.Traces as Traces
use lock_dis.Redis.Traces.{Ordered, end}
use lock_dis.Redis.Slot as Slot
use lock_dis.Redis.Reentrant.Refines.{perform-Agrees}

abbrev pub Call : Type 0
Call = Traces.Call Op

-- The promise, call by call: the state and the answers.
abbrev pub after : Reentrant → List Call → Reentrant
after l cs = Traces.run step l cs

abbrev pub promised : Reentrant → List Call → List Answer
promised l cs = Traces.replies step l cs

-- A call keeps the count of holds within the grants, and makes at most one grant.
abbrev CountedNow : Option Holds → ℕ → Type 0
CountedNow none n = Unit
CountedNow (some h) n = suc h.nested ≤ n

Counted-at : (now : ℕ) (o : Option (Leased Holds)) (n : ℕ) → Counted o n → CountedNow (at now o) n
Counted-at now none n c = tt
Counted-at now (some h) n c = elim (Bool-cases (ltb now h.deadline)) [
  | inl e ↦ rw e c
  | inr e ↦ rw e tt
]

abbrev Fits : Reentrant → Reentrant → Type 0
Fits l l' = Counted l'.holds l'.grants × (l'.grants ≤ suc l.grants)

promise-Fits :
    (l : Reentrant) (now : ℕ) (o : Option Holds) (op : Op)
    → Counted l.holds l.grants
    → CountedNow o l.grants
    → Fits l (promise l now o op).0
unfolding promise
promise-Fits l now none (Op.acquire token ttl fttl) c n = (omega arith, omega arith)
promise-Fits l now none (Op.release token ttl) c n = (c, omega arith)
promise-Fits l now none (Op.release_all token) c n = (c, omega arith)
promise-Fits l now none (Op.extend token ttl) c n = (c, omega arith)
promise-Fits l now (some h) (Op.acquire token ttl fttl) c n =
    elim (Bool-cases (same h.owner token)) [
      | inl e ↦ rw e (omega arith, omega arith)
      | inr e ↦ rw e (c, omega arith)
    ]
promise-Fits l now (some h) (Op.release token ttl) c n = elim (Bool-cases (same h.owner token)) [
  | inl e ↦ elim (ℕ-cases h.nested) [
    | inl last ↦ rw (e, last) (tt, omega arith)
    | inr (m, more) ↦ rw (e, more) (omega arith, omega arith)
  ]
  | inr e ↦ rw e (c, omega arith)
]
promise-Fits l now (some h) (Op.release_all token) c n = elim (Bool-cases (same h.owner token)) [
  | inl e ↦ rw e (tt, omega arith)
  | inr e ↦ rw e (c, omega arith)
]
promise-Fits l now (some h) (Op.extend token ttl) c n = elim (Bool-cases (same h.owner token)) [
  | inl e ↦ rw e (omega arith, omega arith)
  | inr e ↦ rw e (c, omega arith)
]

pub step-Fits :
    (l : Reentrant) (now : ℕ) (op : Op) → Counted l.holds l.grants → Fits l (step l now op).0
unfolding step
step-Fits l now op c = promise-Fits l now (at now l.holds) op c (Counted-at now l.holds l.grants c)

module _ (r : Redis) (key fence_key : String) (ne : key ≢ fence_key) where
  open r use {Store}

  abbrev pub run : Store → List Call → Store
  run s cs = Traces.run (perform r key fence_key ne) s cs

  abbrev pub replies : Store → List Call → List Answer
  replies s cs = Traces.replies (perform r key fence_key ne) s cs

  -- However the owners' calls interleave, each gets the answer that the promise gives, and the keys
  -- show its state at the end, as long as fewer than 2 ^ 63 grants are made.
  pub run-keeps_promise :
      (s : Store) (t : ℕ) (l : Reentrant) (cs : List Call)
      → Shows r key fence_key ne s t l
      → Counted l.holds l.grants
      → Ordered t cs
      → l.grants + length cs < 2 ^ 63
      → (replies s cs ≡ promised l cs) × Shows r key fence_key ne (run s cs) (end t cs) (after l cs)
  run-keeps_promise s t l cs sh c o room =
      Traces.run-follows (perform r key fence_key ne) step (Shows r key fence_key ne)
        (λ l. Counted l.holds l.grants) (λ l. l.grants)
        (λ s t u l le sh. Slot.Shows_later encode r key fence_key ne s t u l.grants l.holds le sh)
        (λ s now l op sh c room. perform-Agrees r key fence_key ne s now l op sh c room)
        (λ l now op c. step-Fits l now op c) s t l cs sh c o room
