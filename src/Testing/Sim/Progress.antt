-- ===== src/Testing/Sim/Progress.antt =====
-- The scheduler loop ends: each turn uses up some of its worker's remaining work.
use lock_dis.Prelude.{
  update_both, ℕ, zero, suc, ◌+◌, ◌*◌, ◌≤◌, ◌<◌, ◌≡◌, refl, inl, inr, true, false, Option, none,
  some, arith, Bool-cases, Option-cases, ltb, leb, total, total-update, max,
}
use lock_dis.Testing.Sim.Rng.{Rng, below, pct}
use lock_dis.Testing.Sim.Store.{SimStore, cas_grant}
use lock_dis.Testing.Sim.Worker.{Scenario, State, Turn, turn, after_grant}
use lock_dis.Testing.Sim.Run.{
  Sim, is_done, next_worker, step, loop, start, rounds, Outcome, simulate, sort_by_time,
}
use lock_dis.Testing.Sim.Picks.{Picked, next_worker-Picked, next_worker-none}

-- The turns that a worker can still take.
abbrev pub work : State → ℕ
work (State.idle left) = 3 * left + 1
work (State.holding _ _ _ budget) = 3 * budget + 3
work (State.paused _ budget) = 3 * budget + 2
work State.done = 0

-- A worker that will not pause wakes when it is to release.
abbrev pub Timed : State → ℕ → Type 0
Timed (State.holding _ release_at false _) wake = wake ≡ release_at
Timed _ wake = Unit

after_grant-work :
    (sc : Scenario) (w wake left : ℕ) (g : Option ℕ × SimStore) (rng : Rng)
    → (work (after_grant sc w wake left g rng).state < 3 * suc left + 1)
      × Timed (after_grant sc w wake left g rng).state (after_grant sc w wake left g rng).wake
unfolding after_grant
after_grant-work sc w wake left (none, s) rng = (omega arith, tt)
after_grant-work sc w wake left (some f, s) rng =
    elim (Bool-cases (pct rng sc.pause_probability_pct).0) [
      | inl e ↦ rw e (omega arith, tt)
      | inr e ↦ rw e (omega arith, refl)
    ]

pub turn-work :
    (sc : Scenario) (w wake : ℕ) (st : State) (s : SimStore) (rng : Rng)
    → is_done st ≡ false
    → wake ≤ s.now_ms
    → Timed st wake
    → (work (turn sc w st wake s rng).state < work st)
      × Timed (turn sc w st wake s rng).state (turn sc w st wake s rng).wake
unfolding turn
turn-work sc w wake (State.idle zero) s rng live le t = (omega arith, tt)
turn-work sc w wake (State.idle (suc left)) s rng live le t =
    elim (Bool-cases (ltb (below rng 100).0 70)) [
      | inl e ↦ rw e (after_grant-work sc w wake left (cas_grant s w sc.ttl_ms) _)
      | inr e ↦ rw e (omega arith, tt)
    ]
turn-work sc w wake (State.holding f at true b) s rng live le t =
    elim (Bool-cases (ltb s.now_ms at)) [
      | inl e ↦ rw e (omega arith, tt)
      | inr e ↦ let late : leb at s.now_ms ≡ true = ground arith in rw (e, late) (omega arith, tt)
    ]
turn-work sc w wake (State.holding f at false b) s rng live le t =
    let late : leb at s.now_ms ≡ true = ground arith in rw late (omega arith, tt)
turn-work sc w wake (State.paused f b) s rng live le t = (omega arith, tt)
turn-work sc w wake State.done s rng live le t = cc

abbrev AllTimed : Sim → Type 0
AllTimed s = (v : ℕ) → Timed (s.states v) (s.wake_at v)

abbrev remaining : Scenario → Sim → ℕ
remaining sc s = total work sc.workers s.states

step-work :
    (sc : Scenario) (s : Sim) (w : ℕ)
    → AllTimed s
    → Picked s.states s.wake_at sc.workers w
    → (remaining sc (step sc s w) < remaining sc s) × AllTimed (step sc s w)
unfolding step
step-work sc s w timed p = (
  omega (arith, spent.0, total-update work sc.workers s.states w t.state p.within),
  update_both (λ v. Timed) s.states s.wake_at w t.state t.wake spent.1 (λ v n. timed v),
)
  where
    now : SimStore
    now = record s.store { now_ms = max s.store.now_ms (s.wake_at w) }

    t : Turn
    t = turn sc w (s.states w) (s.wake_at w) now s.rng

    spent : (work t.state < work (s.states w)) × Timed t.state t.wake
    spent = turn-work sc w (s.wake_at w) (s.states w) now s.rng p.live (omega arith) (timed w)

start-total : (n b : ℕ) → total work n (λ _. State.idle b) ≡ n * (3 * b + 1)
unfolding total
start-total zero b = omega arith
start-total (suc n) b = omega (arith, start-total n b)

-- With more fuel than there is work the loop ends, and every worker is done.
pub loop_ends :
    (fuel : ℕ) (sc : Scenario) (s : Sim)
    → AllTimed s
    → remaining sc s < fuel
    → (s' : Sim) × (loop fuel sc s ≡ some s')
      × ((v : ℕ) → v < sc.workers → is_done (s'.states v) ≡ true)
unfolding loop
loop_ends zero sc s timed lt = absurd (omega arith)
loop_ends (suc fuel) sc s timed lt =
    elim (Option-cases (next_worker s.states s.wake_at sc.workers)) [
      | inl e ↦ (s, rw (e, loop), next_worker-none s.states s.wake_at sc.workers e)
      | inr (w, e) ↦
          let next =
            step-work sc s w timed (next_worker-Picked s.states s.wake_at sc.workers w e) in
          rw (e, loop) (loop_ends fuel sc (step sc s w) next.1 (omega (arith, next.0)))
    ]

nobody_left :
    (states : ℕ → State) (wake_at : ℕ → ℕ) (n : ℕ)
    → ((v : ℕ) → v < n → is_done (states v) ≡ true)
    → next_worker states wake_at n ≡ none
unfolding next_worker
nobody_left states wake_at zero d = refl
nobody_left states wake_at (suc n) d =
    rw (d n (omega arith)) (nobody_left states wake_at n (λ v lt. d v (omega arith)))

pub start-ends :
    (sc : Scenario)
    → (s' : Sim) × (loop (suc (rounds sc)) sc (start sc) ≡ some s')
      × ((v : ℕ) → v < sc.workers → is_done (s'.states v) ≡ true)
unfolding start rounds
start-ends sc =
    loop_ends (suc (rounds sc)) sc (start sc) (λ v. tt)
      (omega (arith, start-total sc.workers sc.steps_per_worker))

-- Every scenario with at least two workers, whatever its seed, its faults and its injected bugs,
-- runs to completion: the loop stops within the rounds counted, at a state that has every worker
-- done and no worker left to pick, and the history recorded in that state is returned.
pub simulate_finishes :
    (sc : Scenario)
    → 2 ≤ sc.workers
    → (s : Sim) × (loop (suc (rounds sc)) sc (start sc) ≡ some s)
      × (simulate sc ≡ Outcome.finished (sort_by_time s.events))
      × ((v : ℕ) → v < sc.workers → is_done (s.states v) ≡ true)
      × (next_worker s.states s.wake_at sc.workers ≡ none)
unfolding simulate
simulate_finishes sc two =
    let (s, e, d) = start-ends sc in
    let enough : ltb sc.workers 2 ≡ false = ground arith in
    (s, e, rw (enough, e), d, nobody_left s.states s.wake_at sc.workers d)
