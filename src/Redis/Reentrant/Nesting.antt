-- ===== src/Redis/Reentrant/Nesting.antt =====
-- What the reentrant lock is for: its owner may enter again, and the others stay out.
use lock_dis.Prelude.{
  ℕ, suc, ◌+◌, ◌≤◌, ◌<◌, ◌≡◌, ◌≢◌, refl, sym, ap, ◌∙◌, true, false, none, some, String, List, [],
  ◌∷◌, ◌++◌, All, ltb, same, same_refl, same_ne, arith,
}
use lock_dis.Redis.Mutex.Lease.{at, answer}
use lock_dis.Redis.Reentrant.Spec.{Op, Reentrant, Answer, leased, promise, step, token_of}
use lock_dis.Redis.Reentrant.Runs.{Call, after, promised}

-- The refusal of a call that another owner's holds exclude.
abbrev pub refusal : Op → Answer
refusal (Op.acquire _ _ _) = Answer.granted (answer 0 0)
refusal (Op.release _ _) = Answer.left none
refusal (Op.release_all _) = Answer.left none
refusal (Op.extend _ _) = Answer.left none

abbrev pub refusals : List Call → List Answer
refusals [] = []
refusals (c ∷ cs) = refusal c.op ∷ refusals cs

-- Calls of other owners, within the lease.
abbrev pub Foreign : String → ℕ → List Call → Type 0
Foreign token deadline cs = All (λ c. (c.now < deadline) × (token_of c.op ≢ token)) cs

step-refusal :
    (l : Reentrant) (now n d : ℕ) (token : String) (op : Op)
    → l.holds ≡ leased token n d
    → now < d
    → token_of op ≢ token
    → step l now op ≡ (l, refusal op)
unfolding step promise
step-refusal l now n d token op is early other =
    let live : at now (leased token n d) ≡ some (record { owner = token; nested = n }) =
      ground arith in
    let held : at now l.holds ≡ some (record { owner = token; nested = n }) =
      ap (at now) is ∙ live in
    rw held (refuse op (same_ne token (token_of op) (λ e. other (sym e))))
  where
    refuse :
        (op : Op)
        → same token (token_of op) ≡ false
        → promise l now (some (record { owner = token; nested = n })) op ≡ (l, refusal op)
    refuse (Op.acquire t ttl fttl) e = rw e
    refuse (Op.release t ttl) e = rw e
    refuse (Op.release_all t) e = rw e
    refuse (Op.extend t ttl) e = rw e

pub promised-refusals :
    (l : Reentrant) (n d : ℕ) (token : String) (cs : List Call)
    → l.holds ≡ leased token n d
    → Foreign token d cs
    → (promised l cs ≡ refusals cs) × (after l cs ≡ l)
promised-refusals l n d token [] is f = (refl, refl)
promised-refusals l n d token (c ∷ cs) is f =
    let no_change = step-refusal l c.now n d token c.op is f.0.0 f.0.1 in
    let (rest, kept) = promised-refusals l n d token cs is f.1 in
    rw (no_change, rest, kept) (refl, refl)

-- Uses of the lock by an owner that holds it: each is entered, may have others inside, and is left
-- again, at given times.
pub data Nested : Type 0 where
  done : Nested
  inside : (enter : ℕ) (inner : Nested) (leave : ℕ) (rest : Nested) → Nested

abbrev pub calls : String → ℕ → Nested → List Call
calls token ttl Nested.done = []
calls token ttl (Nested.inside enter inner leave rest) =
    record { now = enter; op = Op.acquire token ttl (ttl + ttl) }
    ∷ (calls token ttl inner
        ++ (record { now = leave; op = Op.release token ttl } ∷ calls token ttl rest))

-- The time of the last call.
abbrev pub finish : ℕ → Nested → ℕ
finish t Nested.done = t
finish t (Nested.inside enter inner leave rest) = finish leave rest

-- No call comes before another, or later than its lease.
abbrev pub Prompt : ℕ → ℕ → Nested → Type 0
Prompt ttl t Nested.done = Unit
Prompt ttl t (Nested.inside enter inner leave rest) =
    (t ≤ enter)
    × (enter < t + ttl)
    × Prompt ttl enter inner
    × (finish enter inner ≤ leave)
    × (leave < finish enter inner + ttl)
    × Prompt ttl leave rest

pub after-append : (l : Reentrant) (cs ds : List Call) → after l (cs ++ ds) ≡ after (after l cs) ds
after-append l [] ds = refl
after-append l (c ∷ cs) ds = after-append (step l c.now c.op).0 cs ds

pub step-acquire :
    (l : Reentrant) (now n d ttl fttl : ℕ) (token : String)
    → l.holds ≡ leased token n d
    → now < d
    → (step l now (Op.acquire token ttl fttl)).0.holds ≡ leased token (suc n) (now + ttl)
unfolding step promise
step-acquire l now n d ttl fttl token is early =
    let live : at now (leased token n d) ≡ some (record { owner = token; nested = n }) =
      ground arith in
    rw (is, live, same_refl token)

step-release :
    (l : Reentrant) (now n d ttl : ℕ) (token : String)
    → l.holds ≡ leased token (suc n) d
    → now < d
    → 0 < ttl
    → (step l now (Op.release token ttl)).0.holds ≡ leased token n (now + ttl)
unfolding step promise
step-release l now n d ttl token is early pos =
    let live : at now (leased token (suc n) d) ≡ some (record { owner = token; nested = suc n }) =
      ground arith in
    let renewed : ltb 0 ttl ≡ true = ground arith in rw (is, live, same_refl token, renewed)

pub after-calls :
    (b : Nested) (l : Reentrant) (t n ttl : ℕ) (token : String)
    → l.holds ≡ leased token n (t + ttl)
    → 0 < ttl
    → Prompt ttl t b
    → (after l (calls token ttl b)).holds ≡ leased token n (finish t b + ttl)
after-calls Nested.done l t n ttl token is pos p = is
after-calls (Nested.inside enter inner leave rest) l t n ttl token is pos p =
    let (_, before, within, _, in_time, onward) = p in
    let l₁ = (step l enter (Op.acquire token ttl (ttl + ttl))).0 in
    let l₂ = after l₁ (calls token ttl inner) in
    let l₃ = (step l₂ leave (Op.release token ttl)).0 in
    let entered = step-acquire l enter n (t + ttl) ttl (ttl + ttl) token is before in
    let around = after-calls inner l₁ enter (suc n) ttl token entered pos within in
    let left = step-release l₂ leave n (finish enter inner + ttl) ttl token around in_time pos in
    ap (λ x. x.holds)
      (after-append l₁ (calls token ttl inner)
        (record { now = leave; op = Op.release token ttl } ∷ calls token ttl rest))
    ∙ after-calls rest l₃ leave n ttl token left pos onward
