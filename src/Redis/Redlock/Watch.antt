-- ===== src/Redis/Redlock/Watch.antt =====
-- Renewal on the ring: the rounds of extensions, and the watchdog of redlock.rs, while the handle is
-- alive.
use mathlib.Core.Bool.{false≢true}
use lock_dis.Prelude.{
  ℕ, suc, ◌≤◌, ◌<◌, ◌≡◌, refl, ◌⊎◌, sym, ap, ◌∙◌, inl, inr, Bool, true, false, String, List, [],
  ◌∷◌, if◌then◌else◌, ltb, leb, arith, Bool-cases, Result, ok, err, All, length, mul64,
}
use lock_dis.Redis.Server.{Redis}
use lock_dis.Redis.Mutex.{fence_key_for, is_token, extend}
use lock_dis.Redis.Manager.{Error, Link, call, min_ttl}
use lock_dis.Redis.Redlock.{
  Contact, RedlockHandle, add_answer, poll_ring, verdict, quorum_of, fire_extend, on_extended,
  handle_extend, mark_lost,
}

abbrev pub max_consecutive_renew_failures : ℕ
max_consecutive_renew_failures = 2

-- The local state of the task.
pub record Task : Type 0 where
  pub transient_failures : ℕ
  pub running : Bool

abbrev pub started : Task
started = record { transient_failures = 0; running = true }

-- The `match` on the outcome of a round of extensions.
unfoldable pub on_renewal : Result Error Bool → RedlockHandle → Task → RedlockHandle × Task
unfolding mark_lost
on_renewal (ok true) h task = (h, record task { transient_failures = 0 })
on_renewal (ok false) h task = (mark_lost h, record task { running = false })
on_renewal (err e) h task =
    let failures = suc task.transient_failures in
    if leb max_consecutive_renew_failures failures
    then (mark_lost h, record { transient_failures = failures; running = false })
    else (h, record task { transient_failures = failures })

-- One round of the loop, after the sleep, with the outcome of its extension.
unfoldable pub tick : Result Error Bool → RedlockHandle → Task → RedlockHandle × Task
unfolding on_renewal
tick outcome h task =
    if task.running
    then (if h.gone then (h, record task { running = false }) else on_renewal outcome h task)
    else (h, task)

abbrev pub ticks : List (Result Error Bool) → RedlockHandle → Task → RedlockHandle × Task
ticks [] h task = (h, task)
ticks (o ∷ os) h task = let (h', task') = tick o h task in ticks os h' task'

ticks_stopped :
    (os : List (Result Error Bool)) (h : RedlockHandle) (n : ℕ)
    → (ticks os h (record { transient_failures = n; running = false })).0 ≡ h
unfolding tick
ticks_stopped [] h n = refl
ticks_stopped (o ∷ os) h n = ticks_stopped os h n

tick_running :
    (o : Result Error Bool) (h : RedlockHandle) (n : ℕ)
    → h.gone ≡ false
    → tick o h (record { transient_failures = n; running = true })
      ≡ on_renewal o h (record { transient_failures = n; running = true })
unfolding tick
tick_running o h n live = elim (Bool-cases h.gone) [
  | inl e ↦ absurd (false≢true (sym live ∙ e))
  | inr e ↦ simp e
]

-- Whether the outcomes make the watchdog give up: a refusal, or two failures with no success
-- between them; `failed` says that the round before failed.
abbrev pub doomed : (failed : Bool) → List (Result Error Bool) → Bool
doomed failed [] = false
doomed failed (ok true ∷ os) = doomed false os
doomed failed (ok false ∷ os) = true
doomed true (err e ∷ os) = true
doomed false (err e ∷ os) = doomed true os

abbrev patience : Bool → ℕ
patience true = 1
patience false = 0

ticks_from :
    (failed : Bool) (os : List (Result Error Bool)) (h : RedlockHandle)
    → h.gone ≡ false
    → (ticks os h (record { transient_failures = patience failed; running = true })).0
      ≡ (if doomed failed os then mark_lost h else h)
unfolding on_renewal
ticks_from failed [] h live = refl
ticks_from failed (ok true ∷ os) h live =
    rw (ticks, tick_running (ok true) h (patience failed) live) (ticks_from false os h live)
ticks_from failed (ok false ∷ os) h live =
    rw (ticks, tick_running (ok false) h (patience failed) live)
      (ticks_stopped os (mark_lost h) (patience failed))
ticks_from true (err e ∷ os) h live =
    rw (ticks, tick_running (err e) h (patience true) live) (ticks_stopped os (mark_lost h) 2)
ticks_from false (err e ∷ os) h live =
    rw (ticks, tick_running (err e) h (patience false) live) (ticks_from true os h live)

-- The watchdog gives up a handle in use exactly when a round of extensions is refused or two rounds
-- fail with no success between them, wherever this happens among the rounds; a single failure is
-- forgiven by the next success.
pub ticks-give_up :
    (outcomes : List (Result Error Bool)) (h : RedlockHandle)
    → h.gone ≡ false
    → (ticks outcomes h started).0 ≡ (if doomed false outcomes then mark_lost h else h)
ticks-give_up outcomes h live = ticks_from false outcomes h live

module _ (r : Redis) (key token : String) where
  open r use {Store, get}

  -- The nodes that show the token.
  abbrev pub owners : List (Contact Store) → ℕ
  owners [] = 0
  owners (c ∷ cs) = if is_token (get c.store c.now key) token then suc (owners cs) else owners cs

  abbrev pub AllUp : List (Contact Store) → Type 0
  AllUp cs = All (λ c. c.link ≡ Link.up) cs

  abbrev extend_at : ℕ → Contact Store → Store × ℕ
  extend_at ttl c = extend r c.store c.now key (fence_key_for key) token ttl (mul64 ttl 10)

  extend_at-reply :
      (ttl : ℕ) (c : Contact Store)
      → (extend_at ttl c).1 ≡ (if is_token (get c.store c.now key) token then 1 else 0)
  unfolding extend
  extend_at-reply ttl c = elim (Bool-cases (is_token (get c.store c.now key) token)) [
    | inl e ↦ rw e
    | inr e ↦ rw e
  ]

  call_up :
      {A : Type 0} (link : Link) (s : Store) (done : Store × A)
      → link ≡ Link.up
      → (call link s done).1 ≡ ok done.1
  unfolding call
  call_up link s done e = rw e

  -- The tally of a round of extensions that every node answers.
  poll_ring-extend :
      (ttl : ℕ) (cs : List (Contact Store))
      → AllUp cs
      → ((poll_ring r (extend_at ttl) cs).1.agreed ≡ owners cs)
        × (((poll_ring r (extend_at ttl) cs).1.not_owner ≡ true) ⊎ (owners cs ≡ length cs))
  unfolding poll_ring add_answer
  poll_ring-extend ttl [] up = (refl, inr refl)
  poll_ring-extend ttl (c ∷ cs) up =
      let (n, rest) = poll_ring-extend ttl cs up.1 in
      let heard = call_up c.link c.store (extend_at ttl c) up.0 in
      elim (Bool-cases (is_token (get c.store c.now key) token)) [
        | inl e ↦
            rw (heard, extend_at-reply ttl c, e)
              (ap suc n, elim rest [ inl denied ↦ inl denied | inr all ↦ inr (ap suc all) ])
        | inr e ↦ rw (heard, extend_at-reply ttl c, e) (n, inl refl)
      ]

  pub fire_extend-refused :
      (cs : List (Contact Store)) (ttl : ℕ)
      → AllUp cs
      → owners cs < quorum_of (length cs)
      → 0 < length cs
      → (fire_extend r cs key token ttl).1 ≡ ok false
  unfolding fire_extend verdict quorum_of
  fire_extend-refused cs ttl up few nonempty =
      let (n, rest) = poll_ring-extend ttl cs up in
      elim rest [ inl denied ↦ rw (n, denied) (ground arith) | inr all ↦ absurd (omega arith) ]

-- An extension that fewer than a quorum of the nodes grant, all of them answering, is reported as a
-- lost lock, and the handle, which was in use, is poisoned.
pub handle_extend-lost :
    (r : Redis) (cs : List (Contact r.Store)) (h : RedlockHandle) (ttl : ℕ)
    → h.gone ≡ false
    → min_ttl ≤ ttl
    → AllUp r h.key h.token cs
    → owners r h.key h.token cs < quorum_of (length cs)
    → 0 < length cs
    → let (ss, h', res) = handle_extend r cs h ttl in
      (h' ≡ mark_lost h) × (res ≡ err (Error.lost h.key h.fence))
unfolding handle_extend on_extended
handle_extend-lost r cs h ttl live long up few nonempty =
    let early : ltb ttl min_ttl ≡ false = ground arith in
    rw early (elim (Bool-cases h.gone) [
      | inl e ↦ absurd (false≢true (sym live ∙ e))
      | inr e ↦ simp (e, fire_extend-refused r h.key h.token cs ttl up few nonempty) (refl, refl)
    ])
