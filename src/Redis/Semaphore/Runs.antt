-- ===== src/Redis/Semaphore/Runs.antt =====
-- What holds of every sequence of calls on a semaphore, by any number of clients.
use lock_dis.Prelude.{
  ℕ, suc, ◌+◌, ◌≤◌, ◌<◌, ◌^◌, ◌≡◌, ◌≢◌, ap, inl, inr, true, Option, none, some, String, List, [],
  ◌∷◌, ltb, same, arith, Bool-cases, length,
}
use lock_dis.Redis.Server.{
  Redis, Members, as_members, is_some, score_of, with_member, without_member, above,
}
use lock_dis.Redis.Mutex.Lease.{Leased, at}
use lock_dis.Redis.Traces.{Call, Ordered, end, run, replies, run-follows}
use lock_dis.Redis.Semaphore.Spec.{Op, Pool, members, left, pool_step}
use lock_dis.Redis.Semaphore.Refines.{
  as_members_zset, Shows, Shows_onward, perform_permit, perform-Agrees,
}

abbrev pub vacant : Pool
vacant = record { permits = none; grants = 0 }

pub grants_few :
    (max_permits : ℕ) (p : Pool) (now : ℕ) (op : Op)
    → (pool_step max_permits p now op).0.grants ≤ suc p.grants
unfolding pool_step
grants_few max_permits p now (Op.acquire token ttl) =
    elim (Bool-cases (ltb (length (above now (members (at now p.permits)))) max_permits)) [
      | inl e ↦ rw e (omega arith)
      | inr e ↦ rw e (omega arith)
    ]
grants_few max_permits p now (Op.extend token ttl) =
    elim (Bool-cases (is_some (score_of token (members (at now p.permits))))) [
      | inl e ↦ rw e (omega arith)
      | inr e ↦ rw e (omega arith)
    ]
grants_few max_permits p now (Op.release token) = omega arith

pub grants_run :
    (max_permits : ℕ) (p : Pool) (calls : List (Call Op))
    → (run (pool_step max_permits) p calls).grants ≤ p.grants + length calls
grants_run max_permits p [] = omega arith
grants_run max_permits p (c ∷ calls) = omega (
  arith,
  grants_few max_permits p c.now c.op,
  grants_run max_permits (pool_step max_permits p c.now c.op).0 calls,
)

-- How many members an operation leaves.
length-above : (bound : ℕ) (ms : Members) → length (above bound ms) ≤ length ms
length-above bound [] = omega arith
length-above bound ((n, score) ∷ ms) = ground (arith, length-above bound ms)

length-without_member : (m : String) (ms : Members) → length (without_member m ms) ≤ length ms
length-without_member m [] = omega arith
length-without_member m ((n, score) ∷ ms) = ground (arith, length-without_member m ms)

length-with_member :
    (m : String) (score : ℕ) (ms : Members) → length (with_member m score ms) ≤ suc (length ms)
length-with_member m score [] = omega arith
length-with_member m score ((n, old) ∷ ms) = ground (arith, length-with_member m score ms)

-- A score that is set anew is no new member.
length-with_known :
    (m : String) (score : ℕ) (ms : Members)
    → is_some (score_of m ms) ≡ true
    → length (with_member m score ms) ≡ length ms
length-with_known m score [] e = cc
length-with_known m score ((n, old) ∷ ms) e = elim (Bool-cases (same n m)) [
  | inl q ↦ rw q
  | inr q ↦ rw q (ap suc (length-with_known m score ms (rw q at e)))
]

-- No more members than the capacity are kept.
abbrev Within : ℕ → Option (Leased Members) → Type 0
Within max_permits none = Unit
Within max_permits (some l) = length l.value ≤ max_permits

Within-left :
    (max_permits : ℕ) (o : Option (Leased Members)) (ms : Members)
    → length ms ≤ max_permits
    → Within max_permits (left o ms)
Within-left max_permits none ms h = tt
Within-left max_permits (some l) [] h = tt
Within-left max_permits (some l) (m ∷ ms) h = h

members-Within :
    (max_permits now : ℕ) (o : Option (Leased Members))
    → Within max_permits o
    → length (members (at now o)) ≤ max_permits
members-Within max_permits now none h = omega arith
members-Within max_permits now (some l) h = elim (Bool-cases (ltb now l.deadline)) [
  | inl e ↦ rw e h
  | inr e ↦ rw e (omega arith)
]

step-Within :
    (max_permits : ℕ) (p : Pool) (now : ℕ) (op : Op)
    → Within max_permits p.permits
    → Within max_permits (pool_step max_permits p now op).0.permits
unfolding pool_step
step-Within max_permits p now (Op.acquire token ttl) h =
    let ms = members (at now p.permits) in
    let few : length (above now ms) ≤ max_permits =
      omega (arith, members-Within max_permits now p.permits h, length-above now ms) in
    elim (Bool-cases (ltb (length (above now ms)) max_permits)) [
      | inl e ↦ rw e (
          let room : length (above now ms) < max_permits = ground arith in
          omega (arith, length-with_member token (now + ttl) (above now ms)))
      | inr e ↦ rw e (Within-left max_permits p.permits (above now ms) few)
    ]
step-Within max_permits p now (Op.extend token ttl) h =
    let ms = members (at now p.permits) in
    elim (Bool-cases (is_some (score_of token ms))) [
      | inl e ↦ rw e (
          omega (
            arith,
            length-with_known token (now + ttl) ms e,
            members-Within max_permits now p.permits h,
          ))
      | inr e ↦ rw e h
    ]
step-Within max_permits p now (Op.release token) h =
    Within-left max_permits p.permits (without_member token (members (at now p.permits))) (
      omega (
        arith,
        length-without_member token (members (at now p.permits)),
        members-Within max_permits now p.permits h,
      ))

run-Within :
    (max_permits : ℕ) (p : Pool) (calls : List (Call Op))
    → Within max_permits p.permits
    → Within max_permits (run (pool_step max_permits) p calls).permits
run-Within max_permits p [] h = h
run-Within max_permits p (c ∷ calls) h =
    run-Within max_permits (pool_step max_permits p c.now c.op).0 calls
      (step-Within max_permits p c.now c.op h)

module _ (r : Redis) (key fence_key : String) (ne : key ≢ fence_key) (max_permits : ℕ) where
  open r use {Store, read}

  -- However the clients' calls of the scripts interleave, each gets the reply that the promise gives,
  -- and the two keys show the permits and the count of grants at the end, as long as the grants are
  -- fewer than 2 ^ 63.
  pub run-Shows :
      (s : Store) (t : ℕ) (p : Pool) (calls : List (Call Op))
      → Shows r key fence_key ne s t p
      → Ordered t calls
      → p.grants + length calls < 2 ^ 63
      → (replies (perform_permit r key fence_key ne max_permits) s calls
          ≡ replies (pool_step max_permits) p calls)
        × Shows r key fence_key ne
            (run (perform_permit r key fence_key ne max_permits) s calls)
            (end t calls)
            (run (pool_step max_permits) p calls)
  run-Shows s t p calls sh ord room =
      run-follows (perform_permit r key fence_key ne max_permits) (pool_step max_permits)
        (Shows r key fence_key ne) (λ q. Unit) (λ q. q.grants)
        (λ s₁ u v q le h. Shows_onward r key fence_key ne s₁ u v q le h)
        (λ s₁ now q op h f few. perform-Agrees r key fence_key ne max_permits s₁ now q op h few)
        (λ q now op f. (tt, grants_few max_permits q now op)) s t p calls sh tt ord room

  -- Whatever calls of the scripts come after each other on a semaphore that nobody holds, each with
  -- the capacity, the set never has more members than the capacity; there are fewer than 2 ^ 63 calls.
  pub run-capacity :
      (s : Store) (t : ℕ) (calls : List (Call Op)) (u : ℕ)
      → Shows r key fence_key ne s t vacant
      → Ordered t calls
      → length calls < 2 ^ 63
      → end t calls ≤ u
      → length
          (as_members (read (run (perform_permit r key fence_key ne max_permits) s calls) u key))
        ≤ max_permits
  run-capacity s t calls u sh ord room le =
      let final = run (pool_step max_permits) vacant calls in
      let seen = (run-Shows s t vacant calls sh ord (omega (arith, room))).1 u le in
      rw (seen.0, as_members_zset (at u final.permits))
        (members-Within max_permits u final.permits (run-Within max_permits vacant calls tt))
