-- ===== src/Redis/Mutex/Safety.antt =====
-- What clients may rely on when their calls interleave: a lease excludes the others until it is
-- over, fences grow from grant to grant, and a lease that nobody renews does not block forever.
use lock_dis.Prelude.{
  ℕ, suc, ◌+◌, ◌≤◌, ◌<◌, ◌^◌, ◌≡◌, ◌≢◌, subst, ap, ◌∙◌, some, List, [], ◌∷◌, String, arith, length,
  All,
}
use lock_dis.Redis.Server.{Redis}
use lock_dis.Redis.Mutex.{Reply}
use lock_dis.Redis.Mutex.Lease.{Op, Lease, at, answer, granted, count, lease_step}
use lock_dis.Redis.Mutex.Refines.{Shows}
use lock_dis.Redis.Mutex.Promise.{
  token_of, lasts, counter_until, issued, Reached, OverBy, issued-lease_step, lease_step-foreign,
  lease_step-Reached, lease_step-OverBy, lease_step-over, lease_step-grant, Reached-count,
}
use lock_dis.Redis.Mutex.Steps.{perform}
use lock_dis.Redis.Mutex.Runs.{
  Call, Ordered, end, lease_run, run, Shows_later, perform-Agrees, run-refines,
}

lease_run_keeps :
    (P : Lease → Type 0) (calls : List Call) (l : Lease)
    → P l
    → All (λ c. (m : Lease) → P m → P (lease_step m c.now c.op).0) calls
    → P (lease_run l calls).0
lease_run_keeps P [] l p keeps = p
lease_run_keeps P (c ∷ cs) l p keeps =
    lease_run_keeps P cs (lease_step l c.now c.op).0 (keeps.0 l p) keeps.1

issued_run :
    (calls : List Call) (l : Lease)
    → issued (lease_run l calls).0.counter ≤ issued l.counter + length calls
issued_run [] l = omega arith
issued_run (c ∷ cs) l =
    omega (arith, issued-lease_step l c.now c.op, issued_run cs (lease_step l c.now c.op).0)

All-map :
    (P Q : Call → Type 0) (calls : List Call) → ((c : Call) → P c → Q c) → All P calls → All Q calls
All-map P Q [] f h = tt
All-map P Q (c ∷ cs) f h = (f c h.0, All-map P Q cs f h.1)

-- No call comes at or after the time until which the counter is to live, `d` at first, and neither
-- does a call at `u` that follows; the replies tell which calls gave the counter a new lifetime.
abbrev pub InTime : ℕ → List Call → List Reply → ℕ → Type 0
InTime d [] replies u = u < d
InTime d (c ∷ cs) [] u = ⊥
InTime d (c ∷ cs) (reply ∷ replies) u =
    (c.now < d) × InTime (counter_until d c.now c.op reply.status) cs replies u

lease_run-Reached :
    (n d u : ℕ) (calls : List Call) (l : Lease)
    → Reached n d l.counter
    → InTime d calls (lease_run l calls).1 u
    → n ≤ count (at u (lease_run l calls).0.counter)
lease_run-Reached n d u [] l h time = Reached-count n d u l.counter h time
lease_run-Reached n d u (c ∷ cs) l h time =
    let next = lease_step l c.now c.op in
    lease_run-Reached n (counter_until d c.now c.op next.1.status) u cs next.0
      (lease_step-Reached l c.now c.op n d h time.0) time.1

module _ (r : Redis) (key fence_key : String) (ne : key ≢ fence_key) (s : r.Store) (t : ℕ)
    (l : Lease) (shows : Shows r key fence_key ne s t l) where
  -- The store right after one call at `now`.
  abbrev after : ℕ → Op → r.Store
  after now op = (perform r key fence_key ne s now op).0

  -- The reply to a call at `u`, after a call at `now` and then `calls`.
  abbrev pub reply_after : ℕ → Op → List Call → ℕ → Op → Reply
  reply_after now first calls u op =
      (perform r key fence_key ne (run r key fence_key ne (after now first) calls).0 u op).1

  -- The replies to `calls`, after a call at `now`.
  abbrev pub replies_after : ℕ → Op → List Call → List Reply
  replies_after now first calls = (run r key fence_key ne (after now first) calls).1

  replies_of_lease :
      (now : ℕ) (first : Op) (calls : List Call)
      → t ≤ now
      → Ordered now calls
      → issued l.counter + length calls + 2 < 2 ^ 63
      → replies_after now first calls ≡ (lease_run (lease_step l now first).0 calls).1
  replies_of_lease now first calls le ord room =
      let (_, one) =
        perform-Agrees r key fence_key ne s now l first
          (Shows_later r key fence_key ne s t now l le shows) (omega arith) in
      (run-refines r key fence_key ne (after now first) now (lease_step l now first).0 calls one ord
        (omega (arith, issued-lease_step l now first))).0

  reply_of_lease :
      (now : ℕ) (first : Op) (calls : List Call) (u : ℕ) (op : Op)
      → t ≤ now
      → Ordered now calls
      → end now calls ≤ u
      → issued l.counter + length calls + 2 < 2 ^ 63
      → reply_after now first calls u op
        ≡ (lease_step (lease_run (lease_step l now first).0 calls).0 u op).1
  reply_of_lease now first calls u op le ord last room =
      let (_, one) =
        perform-Agrees r key fence_key ne s now l first
          (Shows_later r key fence_key ne s t now l le shows) (omega arith) in
      let (_, many) =
        run-refines r key fence_key ne (after now first) now (lease_step l now first).0 calls one
          ord (omega (arith, issued-lease_step l now first)) in
      (perform-Agrees r key fence_key ne (run r key fence_key ne (after now first) calls).0 u
        (lease_run (lease_step l now first).0 calls).0 op
        (Shows_later r key fence_key ne (run r key fence_key ne (after now first) calls).0
          (end now calls) u (lease_run (lease_step l now first).0 calls).0 last many)
        (omega
          (arith, issued-lease_step l now first, issued_run calls (lease_step l now first).0))).0

  granted_lease :
      (now : ℕ) (token : String) (ttl fence_ttl : ℕ)
      → t ≤ now
      → issued l.counter + 1 < 2 ^ 63
      → (perform r key fence_key ne s now (Op.acquire token ttl fence_ttl)).1.status ≢ 0
      → (status : ℕ) × (lease_step l now (Op.acquire token ttl fence_ttl)
          ≡ granted l now token ttl fence_ttl status)
        × ((perform r key fence_key ne s now (Op.acquire token ttl fence_ttl)).1
            ≡ answer status (suc (count (at now l.counter))))
  unfolding granted
  granted_lease now token ttl fttl le room ok =
      let (reply, _) =
        perform-Agrees r key fence_key ne s now l (Op.acquire token ttl fttl)
          (Shows_later r key fence_key ne s t now l le shows) (omega arith) in
      let (status, e) =
        lease_step-grant l now token ttl fttl (λ z. ok (ap (λ x. x.status) reply ∙ z)) in
      (status, e, reply ∙ ap (λ x. x.1) e)

  -- Once `acquire` has granted the lock to a token, every other token's call is refused until the
  -- lease time is over or the holder itself calls again, whatever the others try in between.
  pub acquire-excludes :
      (now : ℕ) (token : String) (ttl fence_ttl : ℕ) (others : List Call) (u : ℕ) (op : Op)
      → t ≤ now
      → issued l.counter + length others + 2 < 2 ^ 63
      → (perform r key fence_key ne s now (Op.acquire token ttl fence_ttl)).1.status ≢ 0
      → Ordered now others
      → All (λ c. (c.now < now + ttl) × (token_of c.op ≢ token)) others
      → end now others ≤ u
      → u < now + ttl
      → token_of op ≢ token
      → reply_after now (Op.acquire token ttl fence_ttl) others u op ≡ answer 0 0
  unfolding granted
  acquire-excludes now token ttl fttl others u op le room ok ord foreign last before n =
      let (status, e, _) = granted_lease now token ttl fttl le (omega arith) ok in
      let Held : Lease → Type 0 =
        λ m. m.owner ≡ some (record { value = token; deadline = now + ttl }) in
      let held =
        lease_run_keeps Held others (lease_step l now (Op.acquire token ttl fttl)).0
          (ap (λ x. x.0.owner) e)
          (All-map _ _ others
            (λ c h m p.
              ap (λ x. x.0.owner) (lease_step-foreign m c.now c.op token (now + ttl) p h.0 h.1) ∙ p)
            foreign) in
      reply_of_lease now (Op.acquire token ttl fttl) others u op le ord last room
      ∙ ap (λ x. x.1)
          (lease_step-foreign (lease_run (lease_step l now (Op.acquire token ttl fttl)).0 others).0
            u op token (now + ttl) held before n)

  -- The fence of a later grant, to any token, is larger than that of an earlier one, as long as each
  -- call comes within the lifetime that the last successful acquisition or extension before it gave
  -- the counter, and the counter stays below 2 ^ 63.
  pub acquire-fences_increase :
      (now : ℕ) (token : String) (ttl fence_ttl : ℕ) (calls : List Call) (u : ℕ) (next : String)
      (ttl₂ fence_ttl₂ : ℕ)
      → t ≤ now
      → issued l.counter + length calls + 2 < 2 ^ 63
      → (perform r key fence_key ne s now (Op.acquire token ttl fence_ttl)).1.status ≢ 0
      → Ordered now calls
      → end now calls ≤ u
      → InTime (now + fence_ttl) calls (replies_after now (Op.acquire token ttl fence_ttl) calls) u
      → (reply_after now
          (Op.acquire token ttl fence_ttl)
          calls
          u
          (Op.acquire next ttl₂ fence_ttl₂)).status
        ≢ 0
      → (perform r key fence_key ne s now (Op.acquire token ttl fence_ttl)).1.fence
        < (reply_after now
            (Op.acquire token ttl fence_ttl)
            calls
            u
            (Op.acquire next ttl₂ fence_ttl₂)).fence
  unfolding granted
  acquire-fences_increase now token ttl fttl calls u next ttl₂ fttl₂ le room ok ord last time ok₂ =
      let first = Op.acquire token ttl fttl in
      let (status, e, first_reply) = granted_lease now token ttl fttl le (omega arith) ok in
      let m = (lease_run (lease_step l now first).0 calls).0 in
      let second = reply_of_lease now first calls u (Op.acquire next ttl₂ fttl₂) le ord last room in
      let (status₂, e₂) =
        lease_step-grant m u next ttl₂ fttl₂ (λ z. ok₂ (ap (λ x. x.status) second ∙ z)) in
      let f = suc (count (at now l.counter)) in
      let counted : f ≤ count (at u m.counter) =
        lease_run-Reached f (now + fttl) u calls (lease_step l now first).0
          (rw e (omega arith, omega arith))
          (subst (λ x. InTime (now + fttl) calls x u) (replies_of_lease now first calls le ord room)
            time) in
      rw (first_reply, second, e₂) (omega (arith, counted))

  -- A lease that nobody renews does not block forever: from the time at which the lease found and
  -- all leases asked for since are over, any token is granted the lock.
  pub acquire-after_expiry :
      (now : ℕ) (first : Op) (calls : List Call) (u : ℕ) (token : String) (ttl fence_ttl : ℕ)
      → t ≤ now
      → issued l.counter + length calls + 2 < 2 ^ 63
      → Ordered now calls
      → end now calls ≤ u
      → OverBy u l.owner
      → lasts now first ≤ u
      → All (λ c. lasts c.now c.op ≤ u) calls
      → (reply_after now first calls u (Op.acquire token ttl fence_ttl)).status ≡ 1
  unfolding granted
  acquire-after_expiry now first calls u token ttl fttl le room ord last over early all =
      let m = (lease_run (lease_step l now first).0 calls).0 in
      let done : OverBy u m.owner =
        lease_run_keeps (λ x. OverBy u x.owner) calls (lease_step l now first).0
          (lease_step-OverBy l now first u over early)
          (All-map _ _ calls (λ c h x p. lease_step-OverBy x c.now c.op u p h) all) in
      ap (λ x. x.status)
        (reply_of_lease now first calls u (Op.acquire token ttl fttl) le ord last room
          ∙ ap (λ x. x.1) (lease_step-over m u token ttl fttl done))
