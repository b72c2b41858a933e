-- ===== src/Redis/Manager/Watch.antt =====
-- The watchdog of crates/redis/src/single.rs, a third of the lease after a third of the lease, while
-- the handle is alive: the weak reference of the task can be upgraded.
use mathlib.Core.Bool.{false≢true}
use lock_dis.Prelude.{
  ℕ, suc, ◌+◌, ◌/◌, ◌%◌, ◌≤◌, ◌<◌, ◌^◌, ◌≡◌, refl, subst, sym, ap, ◌∙◌, inl, inr, Bool, true, false,
  List, [], ◌∷◌, if◌then◌else◌, ltb, not, arith, Bool-cases, Result, ok, err, length, All,
}
use lock_dis.Redis.Server.{Redis}
use lock_dis.Redis.Manager.{
  Error, Handle, Link, max_transient_failures, call, fire_extend, mark_lost, renewal_divisor,
}

-- The local state of the task: the failures in a row, and whether it still runs.
pub record Task : Type 0 where
  pub transient_failures : ℕ
  pub running : Bool

abbrev pub started : Task
started = record { transient_failures = 0; running = true }

if_false {ℓ} : {A : Type ℓ} (b : Bool) (x y : A) → b ≡ false → (if b then x else y) ≡ y
if_false true x y e = absurd (false≢true (sym e))
if_false false x y e = refl

module _ (r : Redis) where
  open r use {Store}

  -- The `match` on the outcome of the renewal. A counter of 32 bits that overflows wraps around.
  unfoldable pub on_renewal : Store × Result Error Bool → Handle → Task → Store × Handle × Task
  unfolding mark_lost max_transient_failures
  on_renewal (s, ok true) h task = (s, h, record task { transient_failures = 0 })
  on_renewal (s, ok false) h task = (s, mark_lost h, record task { running = false })
  on_renewal (s, err e) h task =
      let failures = suc task.transient_failures % 2 ^ 32 in
      if ltb (max_transient_failures h.policy) failures
      then (s, mark_lost h, record { transient_failures = failures; running = false })
      else (s, h, record task { transient_failures = failures })

  -- One round of the loop, at the time at which the sleep ends.
  unfoldable pub tick : Link → Store → ℕ → Handle → Task → Store × Handle × Task
  unfolding on_renewal fire_extend
  tick link s now h task =
      if task.running
      then (if h.released
          then (s, h, record task { running = false })
          else on_renewal (fire_extend r link s now h.key h.fence_key h.token h.ttl) h task)
      else (s, h, task)

  -- The rounds that follow one another from `now` on.
  abbrev pub rounds : List Link → Store → ℕ → Handle → Task → Store × Handle × Task
  rounds [] s now h task = (s, h, task)
  rounds (link ∷ links) s now h task =
      let at = now + h.ttl / renewal_divisor in
      let (s', h', task') = tick link s at h task in rounds links s' at h' task'

  -- Every renewal of these rounds fails, because its request or its reply is lost.
  abbrev pub Down : Link → Type 0
  Down Link.up = ⊥
  Down Link.request_lost = Unit
  Down Link.reply_lost = Unit

  failed_renewal :
      (link : Link) (s : Store) (now : ℕ) (h : Handle)
      → Down link
      → (fire_extend r link s now h.key h.fence_key h.token h.ttl).1 ≡ err Error.backend
  unfolding fire_extend call
  failed_renewal Link.up s now h d = absurd d
  failed_renewal Link.request_lost s now h d = refl
  failed_renewal Link.reply_lost s now h d = refl

  on_failed :
      (res : Store × Result Error Bool) (h : Handle) (n : ℕ)
      → res.1 ≡ err Error.backend
      → suc n < 2 ^ 32
      → let (s', h', task') =
          on_renewal res h (record { transient_failures = n; running = true }) in
        let over = ltb (max_transient_failures h.policy) (suc n) in
        (h' ≡ (if over then mark_lost h else h))
        × (task' ≡ record { transient_failures = suc n; running = not over })
  unfolding on_renewal
  on_failed (s, ok b) h n e small = ground arith
  on_failed (s, err x) h n e small =
      let m : suc n % 2 ^ 32 ≡ suc n = omega arith in
      elim (Bool-cases (ltb (max_transient_failures h.policy) (suc n))) [
        | inl q ↦ rw (m, q) (refl, refl)
        | inr q ↦ rw (m, q) (refl, refl)
      ]

  tick_stopped :
      (link : Link) (s : Store) (now : ℕ) (h : Handle) (n : ℕ)
      → tick link s now h (record { transient_failures = n; running = false })
        ≡ (s, h, record { transient_failures = n; running = false })
  unfolding tick
  tick_stopped link s now h n = refl

  rounds_stopped :
      (links : List Link) (s : Store) (now : ℕ) (h : Handle) (n : ℕ)
      → (rounds links s now h (record { transient_failures = n; running = false })).1 ≡ h
  unfolding tick
  rounds_stopped [] s now h n = refl
  rounds_stopped (link ∷ links) s now h n =
      rounds_stopped links s (now + h.ttl / renewal_divisor) h n

  tick_failed :
      (link : Link) (s : Store) (now : ℕ) (h : Handle) (n : ℕ)
      → Down link
      → h.released ≡ false
      → suc n < 2 ^ 32
      → let (s', h', task') =
          tick link s now h (record { transient_failures = n; running = true }) in
        let over = ltb (max_transient_failures h.policy) (suc n) in
        (h' ≡ (if over then mark_lost h else h))
        × (task' ≡ record { transient_failures = suc n; running = not over })
  unfolding tick
  tick_failed link s now h n d live small =
      let renewed =
        on_renewal (fire_extend r link s now h.key h.fence_key h.token h.ttl) h
          (record { transient_failures = n; running = true }) in
      let e : tick link s now h (record { transient_failures = n; running = true }) ≡ renewed =
        if_false h.released _ _ live in
      let (eh, et) =
        on_failed (fire_extend r link s now h.key h.fence_key h.token h.ttl) h n
          (failed_renewal link s now h d) small in
      (ap (λ t. t.1) e ∙ eh, ap (λ t. t.2) e ∙ et)

  rounds_same :
      (links : List Link) (s : Store) (now : ℕ) (h h' : Handle) (task task' : Task)
      → h ≡ h'
      → task ≡ task'
      → (rounds links s now h task).1 ≡ (rounds links s now h' task').1
  rounds_same links s now h h' task task' e f =
      ap (λ x. (rounds links s now x task).1) e ∙ ap (λ x. (rounds links s now h' x).1) f

  rounds_failing :
      (links : List Link) (s : Store) (now : ℕ) (h : Handle) (n : ℕ)
      → All Down links
      → h.released ≡ false
      → n ≤ max_transient_failures h.policy
      → n + length links < 2 ^ 32
      → (rounds links s now h (record { transient_failures = n; running = true })).1
        ≡ (if ltb (max_transient_failures h.policy) (n + length links) then mark_lost h else h)
  rounds_failing [] s now h n d live le small =
      let e : ltb (max_transient_failures h.policy) (n + 0) ≡ false = ground arith in rw e
  rounds_failing (link ∷ links) s now h n d live le small =
      let at = now + h.ttl / renewal_divisor in
      let before : Task = record { transient_failures = n; running = true } in
      let (eh, et) = tick_failed link s at h n d.0 live (omega arith) in
      let (s', h', task') = tick link s at h before in
      let more : n + suc (length links) ≡ suc n + length links = omega arith in
      elim (Bool-cases (ltb (max_transient_failures h.policy) (suc n))) [
        | inl q ↦
            let e : ltb (max_transient_failures h.policy) (n + suc (length links)) ≡ true =
              ground arith in
            rounds_same links s' at h' (mark_lost h) task'
              (record { transient_failures = suc n; running = false }) (eh ∙ rw q) (et ∙ rw q)
            ∙ rounds_stopped links s' at (mark_lost h) (suc n)
            ∙ rw e
        | inr q ↦
            rounds_same links s' at h' h task'
              (record { transient_failures = suc n; running = true }) (eh ∙ rw q) (et ∙ rw q)
            ∙ rounds_failing links s' at h (suc n) d.1 live (ground arith) (omega arith)
            ∙ rw more
      ]

  -- When the renewals fail one after the other, because requests or replies are lost, the watchdog
  -- gives the handle up as lost exactly when there are more failures than its policy tolerates.
  pub rounds-give_up :
      (links : List Link) (s : Store) (now : ℕ) (h : Handle)
      → All Down links
      → h.released ≡ false
      → length links < 2 ^ 32
      → (rounds links s now h started).1
        ≡ (if ltb (max_transient_failures h.policy) (length links) then mark_lost h else h)
  rounds-give_up links s now h d live small =
      let e : 0 + length links ≡ length links = omega arith in
      subst
        (λ n.
          (rounds links s now h started).1
          ≡ (if ltb (max_transient_failures h.policy) n then mark_lost h else h))
        e (rounds_failing links s now h 0 d live (omega arith) (omega arith))
