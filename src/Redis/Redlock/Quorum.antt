-- ===== src/Redis/Redlock/Quorum.antt =====
-- Two tokens never hold a quorum of the ring at once.
use mathlib.Core.Bool.{false≢true}
use lock_dis.Prelude.{
  ℕ, suc, ◌+◌, ◌≤◌, ◌<◌, ◌≡◌, ◌≢◌, refl, ◌⊎◌, sym, ap, ◌∙◌, inl, inr, Bool, true, String, List, [],
  ◌∷◌, if◌then◌else◌, ◌==◌, ◌||◌, same_refl, same_ne, arith, Bool-cases, ok, All, length, mul64,
}
use lock_dis.Redis.Server.{Redis, as_text, IsCounter}
use lock_dis.Redis.Mutex.{fence_key_for, Reply, is_token, acquire}
use lock_dis.Redis.Manager.{Link, LockOptions, call}
use lock_dis.Redis.Redlock.{
  Visit, NodeLink, RedlockHandle, quorum_of, marks, stores, outcome_of, attempt, round,
  allocate_fence, allocator_key, try_lock,
}
use lock_dis.Redis.Redlock.Node.{acquire-shows}
use lock_dis.Redis.Redlock.Rounds.{
  weight, weight-le, holders, proceed-ok, try_lock-ok, try_lock-refused,
}

module _ (r : Redis) (key : String) where
  open r use {Store, read, get}

  -- A time for each node, within the lease that the node's visit may start.
  abbrev pub WithinLease : ℕ → List (Visit Store) → List ℕ → Type 0
  WithinLease ttl [] us = Unit
  WithinLease ttl (v ∷ vs) [] = ⊥
  WithinLease ttl (v ∷ vs) (u ∷ us) = (v.now ≤ u) × (u < v.now + ttl) × WithinLease ttl vs us

  -- How many stores show a token, each at its own time.
  abbrev pub shown : String → List Store → List ℕ → ℕ
  shown token [] us = 0
  shown token (s ∷ ss) [] = 0
  shown token (s ∷ ss) (u ∷ us) =
      if is_token (get s u key) token then suc (shown token ss us) else shown token ss us

  abbrev pub Counting : List (Visit Store) → Type 0
  Counting vs = All (λ v. IsCounter (read v.store v.now (fence_key_for key))) vs

  -- The counter of the allocator on node 0, when the fence is allocated.
  abbrev pub Allocating : ℕ → List Store → List ℕ → Type 0
  Allocating now [] us = Unit
  Allocating now (s ∷ ss) [] = Unit
  Allocating now (s ∷ ss) (u ∷ us) = IsCounter (read s now allocator_key) × (now ≤ u)

  attempt_won :
      (link : NodeLink) (s : Store) (done : Store × Reply)
      → (weight (attempt r link s done).1 ≡ 0)
        ⊎ (((attempt r link s done).0 ≡ done.0) × (done.1.status ≢ 0))
  unfolding attempt outcome_of
  attempt_won NodeLink.answers s done =
      elim (Bool-cases ((done.1.status == 1) || (done.1.status == 2))) [
        | inl e ↦ inr (refl, λ z. absurd (ground arith))
        | inr e ↦ inl (rw e)
      ]
  attempt_won (NodeLink.fails ran) s done = inl refl
  attempt_won (NodeLink.elapses ran) s done = inl refl

  attempt_shows :
      (v : Visit Store) (token : String) (ttl u : ℕ)
      → IsCounter (read v.store v.now (fence_key_for key))
      → v.now ≤ u
      → u < v.now + ttl
      → let (s, o) =
          attempt r v.link v.store
            (acquire r v.store v.now key (fence_key_for key) token ttl (mul64 ttl 10)) in
        (weight o ≡ 0) ⊎ (is_token (get s u key) token ≡ true)
  attempt_shows v token ttl u c le lt =
      let done = acquire r v.store v.now key (fence_key_for key) token ttl (mul64 ttl 10) in
      elim (attempt_won v.link v.store done) [
        | inl lost ↦ inl lost
        | inr (ran, granted) ↦ inr (
            rw
              (
                r.get-reply (attempt r v.link v.store done).0 u key,
                ran,
                acquire-shows r v.store v.now key token ttl (mul64 ttl 10) u c granted le lt,
              )
              (same_refl token))
      ]

  marks-shown :
      (vs : List (Visit Store)) (token : String) (ttl : ℕ) (us : List ℕ) (bs : List Bool)
      → Counting vs
      → WithinLease ttl vs us
      → (round r vs key token ttl).1 ≡ ok bs
      → marks bs ≤ shown token (round r vs key token ttl).0 us
  unfolding round
  marks-shown [] token ttl us [] c w h = omega arith
  marks-shown [] token ttl us (b ∷ bs) c w h = cc
  marks-shown (v ∷ vs) token ttl [] bs c w h = absurd w
  marks-shown (v ∷ vs) token ttl (u ∷ us) bs c w h =
      let (s, o) =
        attempt r v.link v.store
          (acquire r v.store v.now key (fence_key_for key) token ttl (mul64 ttl 10)) in
      let (ss, res) = round r vs key token ttl in
      let (rest, e, f, left) = proceed-ok r key s o (stores vs) ss res bs h in
      let ih = marks-shown vs token ttl us rest c.1 w.2 e in
      rw left (elim (Bool-cases (is_token (get s u key) token)) [
        | inl held ↦ rw held (omega (arith, f, ih, weight-le o))
        | inr not_held ↦ rw not_held (elim (attempt_shows v token ttl u c.0 w.0 w.1) [
          | inl lost ↦ omega (arith, f, ih, lost)
          | inr held ↦ absurd (false≢true (sym not_held ∙ held))
        ])
      ])

  get-incr :
      (s : Store) (now u : ℕ)
      → allocator_key ≢ key
      → IsCounter (read s now allocator_key)
      → now ≤ u
      → get (r.incr s now allocator_key).0 u key ≡ get s u key
  get-incr s now u n c le =
      r.get-reply (r.incr s now allocator_key).0 u key
      ∙ ap as_text (r.incr-read s now allocator_key u key c le ∙ rw (same_ne allocator_key key n))
      ∙ sym (r.get-reply s u key)

  get-call_incr :
      (a : Link) (s : Store) (now u : ℕ)
      → allocator_key ≢ key
      → IsCounter (read s now allocator_key)
      → now ≤ u
      → get (call a s (r.incr s now allocator_key)).0 u key ≡ get s u key
  unfolding call
  get-call_incr Link.up s now u n c le = get-incr s now u n c le
  get-call_incr Link.request_lost s now u n c le = refl
  get-call_incr Link.reply_lost s now u n c le = get-incr s now u n c le

  shown-allocate_fence :
      (a : Link) (now : ℕ) (ss : List Store) (token : String) (us : List ℕ)
      → allocator_key ≢ key
      → Allocating now ss us
      → shown token (allocate_fence r a now ss).0 us ≡ shown token ss us
  unfolding allocate_fence
  shown-allocate_fence a now [] token us n c = refl
  shown-allocate_fence a now (s ∷ ss) token [] n c = refl
  shown-allocate_fence a now (s ∷ ss) token (u ∷ us) n c = rw (get-call_incr a s now u n c.0 c.1)

  -- When the ring grants the lock, a quorum of its nodes show the token at any times within the
  -- leases that their visits started, and after the allocation of the fence.
  pub try_lock-holds :
      (vs : List (Visit Store)) (token : String) (options : LockOptions) (elapsed_ms : ℕ)
      (allocator : Link) (allocator_now : ℕ) (h : RedlockHandle) (us : List ℕ)
      → allocator_key ≢ key
      → Counting vs
      → Allocating allocator_now (round r vs key token options.ttl).0 us
      → WithinLease options.ttl vs us
      → (try_lock r vs key token options elapsed_ms allocator allocator_now).1 ≡ ok h
      → quorum_of (length vs)
        ≤ shown token (try_lock r vs key token options elapsed_ms allocator allocator_now).0 us
  try_lock-holds vs token options e a now h us n c alloc w g =
      let (bs, won, enough, left) = try_lock-ok r key vs token options e a now h g in
      rw left (
        omega (
          arith,
          enough,
          marks-shown vs token options.ttl us bs c w won,
          shown-allocate_fence a now (round r vs key token options.ttl).0 token us n alloc,
        ))

  abbrev pub times : List (Visit Store) → List ℕ
  times [] = []
  times (w ∷ ws) = w.now ∷ times ws

  -- At each node the key shows, at the later visit, what the store left there shows at that time.
  abbrev pub Undisturbed : List Store → List (Visit Store) → Type 0
  Undisturbed ss [] = Unit
  Undisturbed [] (w ∷ ws) = ⊥
  Undisturbed (s ∷ ss) (w ∷ ws) = (get w.store w.now key ≡ get s w.now key) × Undisturbed ss ws

  shown-holders :
      (ss : List Store) (ws : List (Visit Store)) (token : String)
      → Undisturbed ss ws
      → shown token ss (times ws) ≤ holders r key token ws
  shown-holders [] [] token u = omega arith
  shown-holders (s ∷ ss) [] token u = omega arith
  shown-holders [] (w ∷ ws) token u = absurd u
  shown-holders (s ∷ ss) (w ∷ ws) token u =
      rw u.0 (elim (Bool-cases (is_token (get s w.now key) token)) [
        | inl e ↦ rw e (omega (arith, shown-holders ss ws token u.1))
        | inr e ↦ rw e (shown-holders ss ws token u.1)
      ])

  -- While a token that the ring has granted the lock to has its lease on every node it won, and the
  -- nodes' keys are left to it, no round of another token is granted the lock, whatever becomes of
  -- the calls of either round.
  pub try_lock-exclusive :
      (vs ws : List (Visit Store)) (token other : String) (options options₂ : LockOptions)
      (elapsed_ms elapsed_ms₂ : ℕ) (allocator allocator₂ : Link) (now now₂ : ℕ)
      (h h₂ : RedlockHandle)
      → token ≢ other
      → allocator_key ≢ key
      → length ws ≡ length vs
      → Counting vs
      → Allocating now (round r vs key token options.ttl).0 (times ws)
      → WithinLease options.ttl vs (times ws)
      → Undisturbed (try_lock r vs key token options elapsed_ms allocator now).0 ws
      → (try_lock r vs key token options elapsed_ms allocator now).1 ≡ ok h
      → (try_lock r ws key other options₂ elapsed_ms₂ allocator₂ now₂).1 ≢ ok h₂
  try_lock-exclusive vs ws token other o o₂ e e₂ a a₂ now now₂ h h₂ n na len c alloc w u g =
      try_lock-refused r key ws other token o₂ e₂ a₂ now₂ h₂ n (
        rw len (
          omega (
            arith,
            try_lock-holds vs token o e a now h (times ws) na c alloc w g,
            shown-holders (try_lock r vs key token o e a now).0 ws token u,
          )))
