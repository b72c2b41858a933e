-- ===== src/Redis/RwLock/Safety.antt =====
-- What readers and writers rely on.
use lock_dis.Prelude.{
  ℕ, ◌+◌, ◌≤◌, ◌<◌, ◌^◌, ◌≡◌, ◌≢◌, refl, sym, ap, ◌∙◌, inl, inr, true, none, some, String, List, [],
  ◌∷◌, All, same, same_iff, same_ne, length, arith, Bool-cases,
}
use lock_dis.Redis.Server.{Redis, is_some}
use lock_dis.Redis.Mutex.Lease.{at, answer}
use lock_dis.Redis.RwLock.{reader_field}
use lock_dis.Redis.RwLock.Spec.{
  Mode, Op, RwState, Answer, leased, member, without, remaining, refused, promise, step, token_of,
}
use lock_dis.Redis.RwLock.Fields.{encode, is_some-encode}
use lock_dis.Redis.RwLock.Refines.{perform, Shows}
use lock_dis.Redis.RwLock.Runs.{Fits, run-keeps_mode}
use lock_dis.Redis.Traces.{Call, Ordered, end, run, replies}
use lock_dis.Redis.Slot.{hget-at}
use lock_dis.Redis.Slot as Slot

-- The token is among the readers, until `deadline` at least.
abbrev Reads : String → ℕ → RwState → Type 0
Reads token deadline l =
    (ts : List String) × (d : ℕ) × (l.mode ≡ leased (Mode.reading ts) d)
    × (member token ts ≡ true)
    × (deadline ≤ d)

-- A call before the deadline that asks for a lease beyond it, and is not the reader's own release.
abbrev pub Considerate : String → ℕ → ℕ → Op → Type 0
Considerate token deadline now (Op.read_acquire t ttl _) = deadline ≤ now + ttl
Considerate token deadline now (Op.read_release t ttl) = (deadline ≤ now + ttl) × (t ≢ token)
Considerate token deadline now (Op.write_acquire t ttl _) = Unit
Considerate token deadline now (Op.write_release t) = Unit
Considerate token deadline now (Op.extend t ttl) = deadline ≤ now + ttl

abbrev pub AllConsiderate : String → ℕ → List (Call Op) → Type 0
AllConsiderate token deadline cs =
    All (λ c. (c.now < deadline) × Considerate token deadline c.now c.op) cs

-- A writer's acquisition is refused.
abbrev pub NoWriter : Op → Answer → Type 0
NoWriter (Op.write_acquire t ttl _) a = a ≡ Answer.granted (answer 0 0)
NoWriter (Op.read_acquire _ _ _) a = Unit
NoWriter (Op.read_release _ _) a = Unit
NoWriter (Op.write_release _) a = Unit
NoWriter (Op.extend _ _) a = Unit

abbrev pub NoWriters : List (Call Op) → List Answer → Type 0
NoWriters [] answers = Unit
NoWriters (c ∷ cs) [] = ⊥
NoWriters (c ∷ cs) (a ∷ answers) = NoWriter c.op a × NoWriters cs answers

member-without_other :
    (t token : String) (ts : List String)
    → t ≢ token
    → member token ts ≡ true
    → member token (without t ts) ≡ true
member-without_other t token [] n m = m
member-without_other t token (x ∷ ts) n m = elim (Bool-cases (same x t)) [
  | inl e ↦ rw e (rw ((same_iff x t).0 e, same_ne t token n) at m)
  | inr e ↦ elim (Bool-cases (same x token)) [
    | inl q ↦ rw (e, q)
    | inr q ↦ rw (e, q) (member-without_other t token ts n (rw q at m))
  ]
]

remaining-Reads :
    (token : String) (deadline d : ℕ) (l : RwState) (ts : List String)
    → member token ts ≡ true
    → deadline ≤ d
    → Reads token deadline (remaining l d ts).0
remaining-Reads token deadline d l [] m le = cc
remaining-Reads token deadline d l (t ∷ ts) m le = (t ∷ ts, d, refl, m, le)

promise-Reads :
    (l : RwState) (now deadline d : ℕ) (token : String) (ts : List String) (op : Op)
    → l.mode ≡ leased (Mode.reading ts) d
    → member token ts ≡ true
    → deadline ≤ d
    → Considerate token deadline now op
    → let (l', a) = promise l now (some (Mode.reading ts)) op in
      Reads token deadline l' × NoWriter op a
unfolding promise
promise-Reads l now deadline d token ts (Op.read_acquire t ttl fttl) is m le c =
    elim (Bool-cases (member t ts)) [
      | inl e ↦ rw e ((ts, d, is, m, le), tt)
      | inr e ↦ rw e ((t ∷ ts, now + ttl, refl, joined t, c), tt)
    ]
  where
    joined : (t : String) → member token (t ∷ ts) ≡ true
    joined t = elim (Bool-cases (same t token)) [ inl e ↦ rw e | inr e ↦ rw e m ]
promise-Reads l now deadline d token ts (Op.read_release t ttl) is m le c =
    elim (Bool-cases (member t ts)) [
      | inl e ↦ rw e (
        remaining-Reads token deadline (now + ttl) l (without t ts)
            (member-without_other t token ts c.1 m) c.0,
        tt,
      )
      | inr e ↦ rw e ((ts, d, is, m, le), tt)
    ]
promise-Reads l now deadline d token ts (Op.write_acquire t ttl fttl) is m le c =
    ((ts, d, is, m, le), refl)
promise-Reads l now deadline d token ts (Op.write_release t) is m le c = ((ts, d, is, m, le), tt)
promise-Reads l now deadline d token ts (Op.extend t ttl) is m le c =
    ((ts, now + ttl, refl, m, c), tt)

step-Reads :
    (l : RwState) (now deadline : ℕ) (token : String) (op : Op)
    → Reads token deadline l
    → now < deadline
    → Considerate token deadline now op
    → Reads token deadline (step l now op).0 × NoWriter op (step l now op).1
unfolding step
step-Reads l now deadline token op (ts, d, is, m, le) lt c =
    let live : at now (leased (Mode.reading ts) d) ≡ some (Mode.reading ts) = ground arith in
    let seen : at now l.mode ≡ some (Mode.reading ts) = ap (at now) is ∙ live in
    rw seen (promise-Reads l now deadline d token ts op is m le c)

run-Reads :
    (l : RwState) (deadline : ℕ) (token : String) (cs : List (Call Op))
    → Reads token deadline l
    → AllConsiderate token deadline cs
    → Reads token deadline (run step l cs) × NoWriters cs (replies step l cs)
run-Reads l deadline token [] reads c = (reads, tt)
run-Reads l deadline token (x ∷ cs) reads c =
    let (reads', refused) = step-Reads l x.now deadline token x.op reads c.0.0 c.0.1 in
    let (at_end, none_of_them) = run-Reads (step l x.now x.op).0 deadline token cs reads' c.1 in
    (at_end, (refused, none_of_them))

-- A writer's lease lasts: another token's calls change nothing.
abbrev pub Foreign : String → ℕ → Call Op → Type 0
Foreign token deadline c = (c.now < deadline) × (token_of c.op ≢ token)

abbrev pub refusal : Op → Answer
refusal (Op.read_acquire _ _ _) = Answer.granted (answer 0 0)
refusal (Op.write_acquire _ _ _) = Answer.granted (answer 0 0)
refusal (Op.read_release _ _) = Answer.left none
refusal (Op.write_release _) = Answer.left none
refusal (Op.extend _ _) = Answer.left none

abbrev pub refusals : List (Call Op) → List Answer
refusals [] = []
refusals (c ∷ cs) = refusal c.op ∷ refusals cs

promise-refusal :
    (l : RwState) (now : ℕ) (token : String) (op : Op)
    → token_of op ≢ token
    → promise l now (some (Mode.writing token)) op ≡ (l, refusal op)
unfolding promise
promise-refusal l now token (Op.read_acquire t ttl fttl) n = refl
promise-refusal l now token (Op.read_release t ttl) n = refl
promise-refusal l now token (Op.write_acquire t ttl fttl) n = rw (same_ne token t (λ e. n (sym e)))
promise-refusal l now token (Op.write_release t) n = rw (same_ne token t (λ e. n (sym e)))
promise-refusal l now token (Op.extend t ttl) n = rw (same_ne token t (λ e. n (sym e)))

run-refusals :
    (l : RwState) (d : ℕ) (token : String) (cs : List (Call Op))
    → l.mode ≡ leased (Mode.writing token) d
    → All (λ c. Foreign token d c) cs
    → (replies step l cs ≡ refusals cs) × (run step l cs ≡ l)
unfolding step
run-refusals l d token [] is f = (refl, refl)
run-refusals l d token (x ∷ cs) is f =
    let lt = f.0.0 in
    let live : at x.now (leased (Mode.writing token) d) ≡ some (Mode.writing token) =
      ground arith in
    let seen : at x.now l.mode ≡ some (Mode.writing token) = ap (at x.now) is ∙ live in
    let no_change : step l x.now x.op ≡ (l, refusal x.op) =
      rw seen (promise-refusal l x.now token x.op f.0.1) in
    let (rest, kept) = run-refusals l d token cs is f.1 in rw (no_change, rest, kept) (refl, refl)

module _ (r : Redis) (key fence_key : String) (ne : key ≢ fence_key) where
  open r use {Store, hget}

  registered :
      (s : Store) (t u deadline : ℕ) (l : RwState) (token : String)
      → Shows r key fence_key ne s t l
      → t ≤ u
      → u < deadline
      → Reads token deadline l
      → is_some (hget s u key (reader_field token)) ≡ true
  registered s t u deadline l token sh after before (ts, d, is, m, le) =
      let live : at u (leased (Mode.reading ts) d) ≡ some (Mode.reading ts) = ground arith in
      let sh' = Slot.Shows_later encode r key fence_key ne s t u l.grants l.mode after sh in
      ap is_some (
        hget-at encode r key fence_key ne s u l.grants l.mode (reader_field token) sh'
        ∙ ap (λ o. Slot.field_of encode o (reader_field token)) (ap (at u) is ∙ live))
      ∙ (is_some-encode token ts ∙ m)

  -- A reader keeps writers out: while its lease lasts, as long as it does not release it and no call
  -- that changes the lease asks for a shorter one, every writer's acquisition is refused, whatever
  -- the clients try in between, and the reader is registered at the end; fewer than 2 ^ 63 grants
  -- are made.
  pub replies-NoWriters :
      (s : Store) (t : ℕ) (l : RwState) (token : String) (ts : List String) (deadline d u : ℕ)
      (cs : List (Call Op))
      → Shows r key fence_key ne s t l
      → Fits l
      → l.mode ≡ leased (Mode.reading ts) d
      → member token ts ≡ true
      → deadline ≤ d
      → Ordered t cs
      → AllConsiderate token deadline cs
      → l.grants + length cs < 2 ^ 63
      → end t cs ≤ u
      → u < deadline
      → NoWriters cs (replies (perform r key fence_key ne) s cs)
        × (is_some (hget (run (perform r key fence_key ne) s cs) u key (reader_field token)) ≡ true)
  replies-NoWriters s t l token ts deadline d u cs sh f is m le o c room after before =
      let (answers, shows) = run-keeps_mode r key fence_key ne s t l cs sh f o room in
      let (reads, refused) = run-Reads l deadline token cs (ts, d, is, m, le) c in
      (
        rw answers refused,
        registered (run (perform r key fence_key ne) s cs) (end t cs) u deadline (run step l cs)
            token shows after before reads,
      )

  -- A writer keeps all others out: while its lease lasts every call of another token is refused,
  -- whatever they try, and the lock stays the writer's; fewer than 2 ^ 63 grants are made.
  pub replies-kept_out :
      (s : Store) (t : ℕ) (l : RwState) (token : String) (deadline : ℕ) (cs : List (Call Op))
      → Shows r key fence_key ne s t l
      → Fits l
      → l.mode ≡ leased (Mode.writing token) deadline
      → Ordered t cs
      → All (λ c. Foreign token deadline c) cs
      → l.grants + length cs < 2 ^ 63
      → (replies (perform r key fence_key ne) s cs ≡ refusals cs)
        × Shows r key fence_key ne (run (perform r key fence_key ne) s cs) (end t cs) l
  replies-kept_out s t l token deadline cs sh f is o foreign room =
      let (answers, shows) = run-keeps_mode r key fence_key ne s t l cs sh f o room in
      let (refused, kept) = run-refusals l deadline token cs is foreign in
      (answers ∙ refused, rw kept at shows)
