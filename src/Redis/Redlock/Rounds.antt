-- ===== src/Redis/Redlock/Rounds.antt =====
-- A round of the ring, taken apart: which nodes it wins, and when it is granted the lock.
use lock_dis.Prelude.{
  ℕ, suc, ◌+◌, ◌*◌, ◌/◌, ◌≤◌, ◌≡◌, ◌≢◌, refl, sym, ap, ◌∙◌, inl, inr, Bool, true, false, ◌&&◌,
  Option, none, some, String, List, [], ◌∷◌, if◌then◌else◌, ltb, leb, same_iff, arith, Bool-cases,
  Result, ok, err, length, mul64,
}
use lock_dis.Redis.Server.{Redis}
use lock_dis.Redis.Mutex.{fence_key_for, Reply, is_token, acquire}
use lock_dis.Redis.Manager.{Error, Link, LockOptions, validate}
use lock_dis.Redis.Redlock.{
  Visit, NodeLink, Outcome, RedlockHandle, quorum_of, marks, marked, stores, outcome_of, attempt,
  proceed, round, settle, with_fence, allocate_fence, try_lock,
}
use lock_dis.Redis.Redlock.Node.{acquire-refused}

abbrev pub weight : Outcome → ℕ
weight Outcome.acquired = 1
weight Outcome.refused = 0
weight Outcome.failed = 0
weight Outcome.elapsed = 0

pub weight-le : (o : Outcome) → weight o ≤ 1
weight-le Outcome.acquired = omega arith
weight-le Outcome.refused = omega arith
weight-le Outcome.failed = omega arith
weight-le Outcome.elapsed = omega arith

not_both : (q n : ℕ) → q ≡ n / 2 + 1 → (a b : ℕ) → q ≤ a → q ≤ b → a + b ≤ n → ⊥
not_both q n e a b x y z = omega arith

module _ (r : Redis) (key : String) where
  open r use {Store, read, get}

  -- How many nodes show a token when they are visited.
  abbrev pub holders : String → List (Visit Store) → ℕ
  holders token [] = 0
  holders token (v ∷ vs) =
      if is_token (get v.store v.now key) token then suc (holders token vs) else holders token vs

  marked-ok :
      (b : Bool) (res : Result Error (List Bool)) (bs : List Bool)
      → marked r b res ≡ ok bs
      → (rest : List Bool) × (res ≡ ok rest) × (bs ≡ b ∷ rest)
  marked-ok b (err e) bs h = cc
  marked-ok b (ok rest) bs h = (rest, refl, cc)

  -- A round that reaches its end, one node less.
  pub proceed-ok :
      (s : Store) (o : Outcome) (unvisited ss : List Store) (res : Result Error (List Bool))
      (bs : List Bool)
      → (proceed r (s, o) unvisited (ss, res)).1 ≡ ok bs
      → (rest : List Bool) × (res ≡ ok rest)
        × (marks bs ≡ weight o + marks rest)
        × ((proceed r (s, o) unvisited (ss, res)).0 ≡ s ∷ ss)
  unfolding proceed
  proceed-ok s Outcome.acquired u ss res bs h =
      let (rest, e, f) = marked-ok true res bs h in (rest, e, omega (arith, ap marks f), refl)
  proceed-ok s Outcome.refused u ss res bs h =
      let (rest, e, f) = marked-ok false res bs h in (rest, e, omega (arith, ap marks f), refl)
  proceed-ok s Outcome.elapsed u ss res bs h =
      let (rest, e, f) = marked-ok false res bs h in (rest, e, omega (arith, ap marks f), refl)
  proceed-ok s Outcome.failed u ss res bs h = cc

  attempt_refused :
      (link : NodeLink) (s : Store) (done : Store × Reply)
      → done.1 ≡ record { status = 0; fence = 0 }
      → weight (attempt r link s done).1 ≡ 0
  unfolding attempt outcome_of
  attempt_refused NodeLink.answers s done e = rw e
  attempt_refused (NodeLink.fails ran) s done e = refl
  attempt_refused (NodeLink.elapses ran) s done e = refl

  -- A node that shows another token is not won, and no node counts twice.
  weight_held :
      (v : Visit Store) (token other : String) (ttl : ℕ)
      → other ≢ token
      → is_token (get v.store v.now key) other ≡ true
      → weight
          (attempt r v.link v.store
            (acquire r v.store v.now key (fence_key_for key) token ttl (mul64 ttl 10))).1
        ≡ 0
  weight_held v token other ttl n h = attempt_refused v.link v.store _ (
      acquire-refused r v.store v.now key (fence_key_for key) token other ttl (mul64 ttl 10)
        (shown (get v.store v.now key) h) n)
    where
      shown : (o : Option String) → is_token o other ≡ true → o ≡ some other
      shown none e = cc
      shown (some x) e = ap some ((same_iff x other).0 e)

  pub marks-round :
      (vs : List (Visit Store)) (token other : String) (ttl : ℕ) (bs : List Bool)
      → other ≢ token
      → (round r vs key token ttl).1 ≡ ok bs
      → marks bs + holders other vs ≤ length vs
  unfolding round
  marks-round [] token other ttl [] n h = omega arith
  marks-round [] token other ttl (b ∷ bs) n h = cc
  marks-round (v ∷ vs) token other ttl bs n h =
      let (s, o) =
        attempt r v.link v.store
          (acquire r v.store v.now key (fence_key_for key) token ttl (mul64 ttl 10)) in
      let (ss, res) = round r vs key token ttl in
      let (rest, e, f, _) = proceed-ok s o (stores vs) ss res bs h in
      let ih = marks-round vs token other ttl rest n e in
      elim (Bool-cases (is_token (get v.store v.now key) other)) [
        | inl held ↦ rw held (omega (arith, f, ih, weight_held v token other ttl n held))
        | inr not_held ↦ rw not_held (omega (arith, f, ih, weight-le o))
      ]

  settle-ok :
      (vs : List (Visit Store)) (token : String) (ttl e : ℕ) (a : Link) (now : ℕ) (ss : List Store)
      (res : Result Error (List Bool)) (h : RedlockHandle)
      → (settle r vs key token ttl e a now (ss, res)).1 ≡ ok h
      → (bs : List Bool) × (res ≡ ok bs)
        × (quorum_of (length vs) ≤ marks bs)
        × ((settle r vs key token ttl e a now (ss, res)).0 ≡ (allocate_fence r a now ss).0)
  unfolding settle
  settle-ok vs token ttl e a now ss (err x) h g = cc
  settle-ok vs token ttl e a now ss (ok bs) h g =
      elim (Bool-cases (leb (quorum_of (length vs)) (marks bs) && ltb (10 * e) (9 * ttl))) [
        | inl q ↦ (bs, refl, ground arith, rw q (with_fence_stores (allocate_fence r a now ss)))
        | inr q ↦ absurd (refused (rw q at g))
      ]
    where
      refused : ◌≡◌ {A = Result Error RedlockHandle} (err (Error.held key)) (ok h) → ⊥
      refused z = cc

      with_fence_stores : (p : List Store × Result Error ℕ) → (with_fence r key token ttl p).0 ≡ p.0
      with_fence_stores (s, err x) = refl
      with_fence_stores (s, ok f) = refl

  pub try_lock-ok :
      (vs : List (Visit Store)) (token : String) (options : LockOptions) (e : ℕ) (a : Link)
      (now : ℕ) (h : RedlockHandle)
      → (try_lock r vs key token options e a now).1 ≡ ok h
      → (bs : List Bool) × ((round r vs key token options.ttl).1 ≡ ok bs)
        × (quorum_of (length vs) ≤ marks bs)
        × ((try_lock r vs key token options e a now).0
            ≡ (allocate_fence r a now (round r vs key token options.ttl).0).0)
  unfolding try_lock validate
  try_lock-ok vs token options e a now h g = elim (Bool-cases (ltb options.ttl 10)) [
    | inl small ↦ absurd (refused (rw (small, try_lock) at g))
    | inr big ↦
        let (ss, res) = round r vs key token options.ttl in
        let same : try_lock r vs key token options e a now
            ≡ settle r vs key token options.ttl e a now (ss, res) =
          rw (big, try_lock) in
        let (bs, won, enough, left) =
          settle-ok vs token options.ttl e a now ss res h (ap (λ x. x.1) (sym same) ∙ g) in
        (bs, won, enough, ap (λ x. x.0) same ∙ left)
  ]
    where
      refused :
          ◌≡◌ {A = Result Error RedlockHandle} (err (Error.invalid_config options.ttl)) (ok h) → ⊥
      refused z = cc

  -- A quorum of nodes that show another token is enough to refuse: whatever becomes of the calls,
  -- the ring does not grant the lock.
  pub try_lock-refused :
      (vs : List (Visit Store)) (token other : String) (options : LockOptions) (elapsed_ms : ℕ)
      (allocator : Link) (allocator_now : ℕ) (h : RedlockHandle)
      → other ≢ token
      → quorum_of (length vs) ≤ holders other vs
      → (try_lock r vs key token options elapsed_ms allocator allocator_now).1 ≢ ok h
  unfolding quorum_of
  try_lock-refused vs token other options e a now h n q g =
      let (bs, res, enough, _) = try_lock-ok vs token options e a now h g in
      not_both (quorum_of (length vs)) (length vs) refl (marks bs) (holders other vs) enough q
        (marks-round vs token other options.ttl bs n res)
