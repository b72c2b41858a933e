-- ===== src/Redis/Semaphore/Holds.antt =====
-- A permit lasts until its lease time is over, whatever the other holders do, if none of them asks
-- for a lease that ends before.
use lock_dis.Prelude.{
  ℕ, ◌+◌, ◌≤◌, ◌<◌, ◌^◌, ◌≡◌, ◌≢◌, refl, sym, ap, ◌∙◌, ◌⊎◌, inl, inr, true, false, Option, none,
  some, String, List, [], ◌∷◌, ltb, same, same_iff, same_refl, arith, Bool-cases, length, All,
}
use lock_dis.Redis.Server.{Redis, Members, is_some, score_of, with_member, without_member, above}
use lock_dis.Redis.Mutex.{Reply}
use lock_dis.Redis.Mutex.Lease.{Leased, at}
use lock_dis.Redis.Traces.{Call, Ordered, end, run}
use lock_dis.Redis.Semaphore.Spec.{Op, Pool, members, left, pool_step}
use lock_dis.Redis.Semaphore.Refines.{Shows, Shows_onward, perform_permit, perform-Agrees}
use lock_dis.Redis.Semaphore.Runs.{run-Shows, grants_few, grants_run}

score_above :
    (token : String) (bound d : ℕ) (ms : Members)
    → score_of token ms ≡ some d
    → bound < d
    → score_of token (above bound ms) ≡ some d
score_above token bound d [] e lt = e
score_above token bound d ((n, score) ∷ ms) e lt = elim (Bool-cases (same n token)) [
  | inl q ↦ ground arith
  | inr q ↦ ground (arith, score_above token bound d ms)
]

score_with_other :
    (token other : String) (score : ℕ) (ms : Members)
    → same other token ≡ false
    → score_of token (with_member other score ms) ≡ score_of token ms
score_with_other token other score [] q = rw q
score_with_other token other score ((n, old) ∷ ms) q = elim (Bool-cases (same n other)) [
  | inl e ↦ let m : n ≡ other = (same_iff n other).0 e in rw e (rw (m, q))
  | inr e ↦ rw e (elim (Bool-cases (same n token)) [
    | inl f ↦ rw f
    | inr f ↦ rw f (score_with_other token other score ms q)
  ])
]

score_with_self :
    (token : String) (score : ℕ) (ms : Members)
    → score_of token (with_member token score ms) ≡ some score
score_with_self token score [] = rw (same_refl token)
score_with_self token score ((n, old) ∷ ms) = elim (Bool-cases (same n token)) [
  | inl e ↦ rw (e, same_refl token)
  | inr e ↦ rw (e, e) (score_with_self token score ms)
]

score_without_other :
    (token other : String) (ms : Members)
    → same other token ≡ false
    → score_of token (without_member other ms) ≡ score_of token ms
score_without_other token other [] q = refl
score_without_other token other ((n, old) ∷ ms) q = elim (Bool-cases (same n other)) [
  | inl e ↦ let m : n ≡ other = (same_iff n other).0 e in rw e (rw (m, q))
  | inr e ↦ rw e (elim (Bool-cases (same n token)) [
    | inl f ↦ rw f
    | inr f ↦ rw f (score_without_other token other ms q)
  ])
]

-- The token's permit lapses at `d`, and the set is kept at least that long.
abbrev Holds : String → ℕ → Option (Leased Members) → Type 0
Holds token d none = ⊥
Holds token d (some l) = (score_of token l.value ≡ some d) × (d ≤ l.deadline)

Holds-left :
    (token : String) (d : ℕ) (o : Option (Leased Members)) (ms : Members)
    → Holds token d o
    → score_of token ms ≡ some d
    → Holds token d (left o ms)
Holds-left token d none ms h e = h
Holds-left token d (some l) [] h e = cc
Holds-left token d (some l) (m ∷ ms) h e = (e, h.1)

Holds-members :
    (token : String) (d now : ℕ) (o : Option (Leased Members))
    → Holds token d o
    → now < d
    → score_of token (members (at now o)) ≡ some d
Holds-members token d now none h lt = absurd h
Holds-members token d now (some l) h lt =
    let alive : ltb now l.deadline ≡ true = ground arith in rw alive (h.0)

-- A call at `now` by another holder, which asks for no lease that ends before `d`.
abbrev pub Considerate : String → ℕ → ℕ → Op → Type 0
Considerate token d now (Op.acquire other ttl) = (same other token ≡ false) × (d ≤ now + ttl)
Considerate token d now (Op.extend other ttl) = (same other token ≡ false) × (d ≤ now + ttl)
Considerate token d now (Op.release other) = same other token ≡ false

step-Holds :
    (max_permits : ℕ) (token : String) (d : ℕ) (p : Pool) (now : ℕ) (op : Op)
    → Holds token d p.permits
    → now < d
    → Considerate token d now op
    → Holds token d (pool_step max_permits p now op).0.permits
unfolding pool_step
step-Holds max_permits token d p now (Op.acquire other ttl) h lt (foreign, long) =
    let ms = members (at now p.permits) in
    let there = score_above token now d ms (Holds-members token d now p.permits h lt) lt in
    elim (Bool-cases (ltb (length (above now ms)) max_permits)) [
      | inl e ↦ rw e (score_with_other token other (now + ttl) (above now ms) foreign ∙ there, long)
      | inr e ↦ rw e (Holds-left token d p.permits (above now ms) h there)
    ]
step-Holds max_permits token d p now (Op.extend other ttl) h lt (foreign, long) =
    let ms = members (at now p.permits) in
    elim (Bool-cases (is_some (score_of other ms))) [
      | inl e ↦ rw e (
        score_with_other token other (now + ttl) ms foreign
            ∙ Holds-members token d now p.permits h lt,
        long,
      )
      | inr e ↦ rw e h
    ]
step-Holds max_permits token d p now (Op.release other) h lt foreign =
    let ms = members (at now p.permits) in
    Holds-left token d p.permits (without_member other ms) h
      (score_without_other token other ms foreign ∙ Holds-members token d now p.permits h lt)

run-Holds :
    (max_permits : ℕ) (token : String) (d : ℕ) (p : Pool) (calls : List (Call Op))
    → Holds token d p.permits
    → All (λ c. (c.now < d) × Considerate token d c.now c.op) calls
    → Holds token d (run (pool_step max_permits) p calls).permits
run-Holds max_permits token d p [] h good = h
run-Holds max_permits token d p (c ∷ calls) h good =
    run-Holds max_permits token d (pool_step max_permits p c.now c.op).0 calls
      (step-Holds max_permits token d p c.now c.op h good.0.0 good.0.1) good.1

granted-Holds :
    (max_permits : ℕ) (p : Pool) (now : ℕ) (token : String) (ttl : ℕ)
    → (pool_step max_permits p now (Op.acquire token ttl)).1.status ≡ 1
    → Holds token (now + ttl) (pool_step max_permits p now (Op.acquire token ttl)).0.permits
unfolding pool_step
granted-Holds max_permits p now token ttl won =
    let live = above now (members (at now p.permits)) in
    elim (Bool-cases (ltb (length live) max_permits)) [
      | inl e ↦ rw e (score_with_self token (now + ttl) live, omega arith)
      | inr e ↦ absurd (omega (arith, rw e at won))
    ]

held_reply :
    (max_permits : ℕ) (p : Pool) (u d : ℕ) (token : String) (op : Op)
    → Holds token d p.permits
    → u < d
    → (op ≡ Op.release token) ⊎ ((ttl : ℕ) × (op ≡ Op.extend token ttl))
    → (pool_step max_permits p u op).1.status ≡ 1
unfolding pool_step
held_reply max_permits p u d token op h lt (inl e) =
    rw (e, pool_step, Holds-members token d u p.permits h lt)
held_reply max_permits p u d token op h lt (inr (ttl, e)) =
    rw (e, pool_step, Holds-members token d u p.permits h lt)

module _ (r : Redis) (key fence_key : String) (ne : key ≢ fence_key) (max_permits : ℕ) (s : r.Store)
    (t : ℕ) (p : Pool) (shows : Shows r key fence_key ne s t p) where
  -- The reply to a call at `u`, after a call at `now` and then `calls`.
  abbrev pub reply_after : ℕ → Op → List (Call Op) → ℕ → Op → Reply
  reply_after now first calls u op =
      (perform_permit r key fence_key ne max_permits
        (run (perform_permit r key fence_key ne max_permits)
          (perform_permit r key fence_key ne max_permits s now first).0 calls)
        u op).1

  pool_after : ℕ → Op → List (Call Op) → Pool
  pool_after now first calls =
      run (pool_step max_permits) (pool_step max_permits p now first).0 calls

  reply_of_pool :
      (now : ℕ) (first : Op) (calls : List (Call Op)) (u : ℕ) (op : Op)
      → t ≤ now
      → Ordered now calls
      → end now calls ≤ u
      → p.grants + length calls + 2 < 2 ^ 63
      → reply_after now first calls u op
        ≡ (pool_step max_permits (pool_after now first calls) u op).1
  unfolding pool_after
  reply_of_pool now first calls u op le ord last room =
      let s₁ = (perform_permit r key fence_key ne max_permits s now first).0 in
      let p₁ = (pool_step max_permits p now first).0 in
      let (shown, _) =
        perform-Agrees r key fence_key ne max_permits s now p first
          (Shows_onward r key fence_key ne s t now p le shows) (omega arith) in
      let few = grants_few max_permits p now first in
      let (_, many) =
        run-Shows r key fence_key ne max_permits s₁ now p₁ calls shown ord (omega (arith, few)) in
      (perform-Agrees r key fence_key ne max_permits
        (run (perform_permit r key fence_key ne max_permits) s₁ calls) u
        (run (pool_step max_permits) p₁ calls) op
        (Shows_onward r key fence_key ne
          (run (perform_permit r key fence_key ne max_permits) s₁ calls) (end now calls) u
          (run (pool_step max_permits) p₁ calls) last many)
        (omega (arith, few, grants_run max_permits p₁ calls))).1

  -- A permit that was granted is still its holder's until the lease time is over: an extension and a
  -- release succeed, whatever the other holders do in between, as long as none of them asks for a
  -- lease that ends before; the grants are fewer than 2 ^ 63.
  pub acquire-lasts :
      (now : ℕ) (token : String) (ttl : ℕ) (others : List (Call Op)) (u ttl₂ : ℕ)
      → t ≤ now
      → p.grants + length others + 2 < 2 ^ 63
      → (perform_permit r key fence_key ne max_permits s now (Op.acquire token ttl)).1.status ≡ 1
      → Ordered now others
      → All (λ c. (c.now < now + ttl) × Considerate token (now + ttl) c.now c.op) others
      → end now others ≤ u
      → u < now + ttl
      → ((reply_after now (Op.acquire token ttl) others u (Op.extend token ttl₂)).status ≡ 1)
        × ((reply_after now (Op.acquire token ttl) others u (Op.release token)).status ≡ 1)
  unfolding pool_after
  acquire-lasts now token ttl others u ttl₂ le room won ord good last before =
      let first = Op.acquire token ttl in
      let agreed =
        perform-Agrees r key fence_key ne max_permits s now p first
          (Shows_onward r key fence_key ne s t now p le shows) (omega arith) in
      let kept =
        run-Holds max_permits token (now + ttl) (pool_step max_permits p now first).0 others
          (granted-Holds max_permits p now token ttl (ap (λ x. x.status) (sym agreed.1) ∙ won))
          good in
      (
        ap (λ x. x.status)
              (reply_of_pool now first others u (Op.extend token ttl₂) le ord last room)
            ∙ held_reply max_permits (pool_after now first others) u (now + ttl) token
                (Op.extend token ttl₂) kept before (inr (ttl₂, refl)),
        ap (λ x. x.status) (reply_of_pool now first others u (Op.release token) le ord last room)
            ∙ held_reply max_permits (pool_after now first others) u (now + ttl) token
                (Op.release token) kept before (inl refl),
      )
