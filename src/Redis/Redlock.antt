-- ===== src/Redis/Redlock.antt =====
-- crates/redis/src/redlock.rs: the quorum lock over a ring of independent servers, which run the
-- scripts of Mutex. The ring is a list of visits, one for each node: the node's store, its clock,
-- and what becomes of the calls. `acquired` is a list of marks beside the ring. The test on
-- `MAX_ROUND_FRACTION` is on whole milliseconds; the source computes it with floating-point numbers.
pub mod Node
pub mod Rounds
pub mod Quorum
pub mod Watch
mod Examples
use lock_dis.Prelude.{
  ℕ, suc, ◌+◌, ◌*◌, ◌/◌, Bool, true, false, ◌&&◌, ◌||◌, not, Option, none, some, String, List, [],
  ◌∷◌, if◌then◌else◌, ltb, leb, ◌==◌, Result, ok, err, mul64, length,
}
use lock_dis.Redis.Server.{Redis}
use lock_dis.Redis.Mutex.{fence_key_for, Reply, acquire, extend, release}
use lock_dis.Redis.Manager.{Error, Link, LockOptions, call, validate, min_ttl}

-- A node's part in an acquisition: it answers, its call fails, or its time slice elapses; in the
-- latter two the script may have run all the same.
pub data NodeLink : Type 0 where
  answers : NodeLink
  fails elapses : (ran : Bool) → NodeLink

pub data Outcome : Type 0 where
  acquired refused failed elapsed : Outcome

pub record Visit (S : Type 0) : Type 0 where
  pub store : S
  pub now : ℕ
  pub link : NodeLink
  -- the release that undoes the visit, and any later call
  pub undo_now : ℕ
  pub undo_link : Link

-- `config.nodes.len() / 2 + 1`
unfoldable pub quorum_of : ℕ → ℕ
quorum_of n = n / 2 + 1

-- `RedlockConfig::validate`, for the lengths of the trimmed urls
abbrev pub some_empty : List ℕ → Bool
some_empty [] = false
some_empty (n ∷ ns) = (n == 0) || some_empty ns

unfoldable pub validate_config : List ℕ → Result Error (Unit {0})
validate_config urls =
    if ltb (length urls) 3
    then err (Error.invalid_config (length urls))
    else if some_empty urls
    then err (Error.invalid_config 0)
    else ok tt

abbrev pub marks : List Bool → ℕ
marks [] = 0
marks (b ∷ bs) = if b then suc (marks bs) else marks bs

-- `RedlockShared`; `lost` is the value of its watch channel.
pub record RedlockHandle : Type 0 where
  pub key : String
  pub token : String
  pub fence : ℕ
  pub ttl : ℕ
  pub gone : Bool
  pub poisoned : Bool
  pub lost : Bool

abbrev pub allocator_key : String
allocator_key = "__palisade__:fence-allocator"

abbrev pub stores : {S : Type 0} → List (Visit S) → List S
stores [] = []
stores (v ∷ vs) = v.store ∷ stores vs

module _ (r : Redis) where
  open r use {Store, incr}

  unfoldable pub outcome_of : Reply → Outcome
  outcome_of reply =
      if (reply.status == 1) || (reply.status == 2) then Outcome.acquired else Outcome.refused

  -- What the loop over the ring makes of one node.
  unfoldable pub attempt : NodeLink → Store → Store × Reply → Store × Outcome
  unfolding outcome_of
  attempt NodeLink.answers s done = (done.0, outcome_of done.1)
  attempt (NodeLink.fails ran) s done = (if ran then done.0 else s, Outcome.failed)
  attempt (NodeLink.elapses ran) s done = (if ran then done.0 else s, Outcome.elapsed)

  abbrev pub marked : Bool → Result Error (List Bool) → Result Error (List Bool)
  marked b (err e) = err e
  marked b (ok bs) = ok (b ∷ bs)

  -- A failed node ends the round at once; the nodes after it are not visited.
  unfoldable pub proceed :
      Store × Outcome
      → List Store
      → List Store × Result Error (List Bool)
      → List Store × Result Error (List Bool)
  proceed (s, Outcome.acquired) unvisited (ss, bs) = (s ∷ ss, marked true bs)
  proceed (s, Outcome.refused) unvisited (ss, bs) = (s ∷ ss, marked false bs)
  proceed (s, Outcome.elapsed) unvisited (ss, bs) = (s ∷ ss, marked false bs)
  proceed (s, Outcome.failed) unvisited (ss, bs) = (s ∷ unvisited, err Error.backend)

  unfoldable pub round :
      List (Visit Store) → String → String → ℕ → List Store × Result Error (List Bool)
  unfolding proceed attempt
  round [] key token ttl = ([], ok [])
  round (v ∷ vs) key token ttl =
      proceed
        (attempt v.link v.store
          (acquire r v.store v.now key (fence_key_for key) token ttl (mul64 ttl 10)))
        (stores vs) (round vs key token ttl)

  -- `release_node` gives `none` when the call fails.
  unfoldable pub release_node : Link → Store → ℕ → String → String → Store × Option ℕ
  unfolding call
  release_node link s now key token =
      let (s', n) = call link s (release r s now key token) in
      (s', elim n [ err e ↦ none | ok k ↦ some k ])

  -- The rollback of the marked nodes.
  unfoldable pub roll_back :
      List (Visit Store) → List Store → List Bool → String → String → List Store
  unfolding release_node
  roll_back (v ∷ vs) (s ∷ ss) (b ∷ bs) key token =
      (if b then (release_node v.undo_link s v.undo_now key token).0 else s)
      ∷ roll_back vs ss bs key token
  roll_back _ ss _ key token = ss

  -- `allocate_fence`, on node 0; a ring has one.
  unfoldable pub allocate_fence : Link → ℕ → List Store → List Store × Result Error ℕ
  unfolding call
  allocate_fence link now [] = ([], err Error.backend)
  allocate_fence link now (s ∷ ss) =
      let (s', fence) = call link s (incr s now allocator_key) in (s' ∷ ss, fence)

  unfoldable pub make_handle : String → String → ℕ → ℕ → RedlockHandle
  make_handle key token ttl fence = record {
    key = key;
    token = token;
    fence = fence;
    ttl = ttl;
    gone = false;
    poisoned = false;
    lost = false;
  }

  abbrev pub with_fence :
      String → String → ℕ → List Store × Result Error ℕ → List Store × Result Error RedlockHandle
  with_fence key token ttl (ss, err e) = (ss, err e)
  with_fence key token ttl (ss, ok fence) = (ss, ok (make_handle key token ttl fence))

  unfoldable pub settle :
      List (Visit Store)
      → String
      → String
      → ℕ
      → (elapsed_ms : ℕ) (allocator : Link) (allocator_now : ℕ)
      → List Store × Result Error (List Bool)
      → List Store × Result Error RedlockHandle
  unfolding quorum_of roll_back allocate_fence make_handle
  settle vs key token ttl elapsed_ms allocator allocator_now (ss, err e) = (ss, err e)
  settle vs key token ttl elapsed_ms allocator allocator_now (ss, ok bs) =
      if leb (quorum_of (length vs)) (marks bs) && ltb (10 * elapsed_ms) (9 * ttl)
      then with_fence key token ttl (allocate_fence allocator allocator_now ss)
      else (roll_back vs ss bs key token, err (Error.held key))

  -- `try_lock`, for the token of the owner that it has generated and the time that the round took.
  unfoldable pub try_lock :
      List (Visit Store)
      → String
      → String
      → LockOptions
      → (elapsed_ms : ℕ) (allocator : Link) (allocator_now : ℕ)
      → List Store × Result Error RedlockHandle
  unfolding validate round settle
  try_lock vs key token options elapsed_ms allocator allocator_now = elim (validate options) [
    | err e ↦ (stores vs, err e)
    | ok _ ↦
        settle vs key token options.ttl elapsed_ms allocator allocator_now
          (round vs key token options.ttl)
  ]

-- A node in a round of extensions or releases.
pub record Contact (S : Type 0) : Type 0 where
  pub store : S
  pub now : ℕ
  pub link : Link

abbrev pub contacted : {S : Type 0} → List (Contact S) → List S
contacted [] = []
contacted (c ∷ cs) = c.store ∷ contacted cs

unfoldable pub mark_lost : RedlockHandle → RedlockHandle
mark_lost h = record h { poisoned = true; lost = true }

-- The answers of such a round: how many replied 1, and whether any replied otherwise.
pub record Tally : Type 0 where
  pub agreed : ℕ
  pub not_owner : Bool

abbrev pub silence : Tally
silence = record { agreed = 0; not_owner = false }

unfoldable pub add_answer : Result Error ℕ → Tally → Tally
add_answer (err e) t = t
add_answer (ok n) t =
    if n == 1 then record t { agreed = suc t.agreed } else record t { not_owner = true }

module _ (r : Redis) where
  open r use {Store}

  -- A script on every node, with its tally.
  unfoldable pub poll_ring : (Contact Store → Store × ℕ) → List (Contact Store) → List Store × Tally
  unfolding call add_answer
  poll_ring script [] = ([], silence)
  poll_ring script (c ∷ cs) =
      let (s, reply) = call c.link c.store (script c) in
      let (ss, t) = poll_ring script cs in (s ∷ ss, add_answer reply t)

  unfoldable pub verdict : ℕ → Tally → Result Error Bool
  verdict quorum t =
      if leb quorum t.agreed then ok true else if t.not_owner then ok false else err Error.backend

  -- `fire_extend`
  unfoldable pub fire_extend :
      List (Contact Store) → String → String → ℕ → List Store × Result Error Bool
  unfolding poll_ring verdict quorum_of
  fire_extend ring key token ttl =
      let (ss, t) =
        poll_ring (λ c. extend r c.store c.now key (fence_key_for key) token ttl (mul64 ttl 10))
          ring in
      (ss, verdict (quorum_of (length ring)) t)

  -- What `run_release` reports.
  unfoldable pub released : RedlockHandle → Tally → Result Error (Unit {0})
  released h t =
      if ltb 0 t.agreed
      then ok tt
      else if t.not_owner
      then err (Error.lost h.key h.fence)
      else err Error.backend

  unfoldable pub run_release :
      List (Contact Store) → RedlockHandle → List Store × Result Error (Unit {0})
  unfolding poll_ring released
  run_release ring h =
      let (ss, t) = poll_ring (λ c. release r c.store c.now h.key h.token) ring in
      (ss, released h t)

  -- The handle's `release`
  unfoldable pub handle_release :
      List (Contact Store) → RedlockHandle → List Store × RedlockHandle × Result Error (Unit {0})
  unfolding run_release
  handle_release ring h =
      if h.gone
      then (contacted ring, h, ok tt)
      else (let (ss, res) = run_release ring h in (ss, record h { gone = true }, res))

  -- `Drop`, which ignores what the release reports
  unfoldable pub drop : List (Contact Store) → RedlockHandle → List Store × RedlockHandle
  unfolding handle_release
  drop ring h = let (ss, h', res) = handle_release ring h in (ss, h')

  unfoldable pub on_extended :
      RedlockHandle
      → List Store × Result Error Bool
      → List Store × RedlockHandle × Result Error (Unit {0})
  unfolding mark_lost
  on_extended h (ss, ok true) = (ss, h, ok tt)
  on_extended h (ss, ok false) = (ss, mark_lost h, err (Error.lost h.key h.fence))
  on_extended h (ss, err e) = (ss, h, err e)

  -- The handle's `extend`
  unfoldable pub handle_extend :
      List (Contact Store)
      → RedlockHandle
      → ℕ
      → List Store × RedlockHandle × Result Error (Unit {0})
  unfolding on_extended fire_extend
  handle_extend ring h ttl =
      if ltb ttl min_ttl
      then (contacted ring, h, err (Error.invalid_config ttl))
      else if h.gone
      then (contacted ring, h, err (Error.lost h.key h.fence))
      else on_extended h (fire_extend ring h.key h.token ttl)
