-- ===== src/Testing/Passes/Invariant.antt =====
-- The invariant of a clean run, and that every step of the scheduler keeps it.
use lock_dis.Prelude.{
  ℕ, suc, ◌+◌, ◌*◌, ◌≤◌, ◌<◌, ◌^◌, ◌≡◌, refl, false, Option, List, [], ◌∷◌, ◌++◌, arith, All,
  All-append, update_both, max, ok,
}
use lock_dis.Testing.Event.{Event}
use lock_dis.Testing.Sim.Store.{SimStore, Entry}
use lock_dis.Testing.Sim.Worker.{Scenario, State, Turn, turn}
use lock_dis.Testing.Sim.Run.{Sim, is_done, step, start}
use lock_dis.Testing.Sim.Picks.{Picked}
use lock_dis.Testing.Checker.{Tracking, check_from, untouched, retain}
use lock_dis.Testing.Checker.Loop.{check_from_join}
use lock_dis.Testing.Passes.Mirror.{Mirrors, Mirrors-later}
use lock_dis.Testing.Passes.Turn.{stride, Leased, Fits, Sound}
use lock_dis.Testing.Passes.Cases.{turn-Sound}

-- The events are in order of time.
abbrev pub IsOrdered : List Event → Type 0
IsOrdered [] = Unit
IsOrdered (e ∷ es) = All (λ d. e.t_ms ≤ d.t_ms) es × IsOrdered es

-- Events at one time, not earlier than what is there, go to the end.
IsOrdered-append :
    (t : ℕ) (xs ys : List Event)
    → IsOrdered xs
    → All (λ e. e.t_ms ≤ t) xs
    → All (λ e. e.t_ms ≡ t) ys
    → IsOrdered (xs ++ ys)
IsOrdered-append t [] [] o b s = tt
IsOrdered-append t [] (y ∷ ys) o b s =
    (same y.t_ms ys (omega (arith, s.0)) s.1, IsOrdered-append t [] ys tt tt s.1)
  where
    same : (u : ℕ) (zs : List Event) → u ≤ t → All (λ e. e.t_ms ≡ t) zs → All (λ d. u ≤ d.t_ms) zs
    same u [] le h = tt
    same u (z ∷ zs) le h = (omega (arith, h.0), same u zs le h.1)
IsOrdered-append t (x ∷ xs) ys o b s =
    (All-append (λ d. x.t_ms ≤ d.t_ms) xs ys o.0 (later ys s), IsOrdered-append t xs ys o.1 b.1 s)
  where
    later : (zs : List Event) → All (λ e. e.t_ms ≡ t) zs → All (λ d. x.t_ms ≤ d.t_ms) zs
    later [] h = tt
    later (z ∷ zs) h = (omega (arith, h.0, b.0), later zs h.1)

All-weaken :
    (t u : ℕ) (xs : List Event) → t ≤ u → All (λ e. e.t_ms ≤ t) xs → All (λ e. e.t_ms ≤ u) xs
All-weaken t u [] le h = tt
All-weaken t u (x ∷ xs) le h = (omega (arith, h.0), All-weaken t u xs le h.1)

All-stamped : (t : ℕ) (xs : List Event) → All (λ e. e.t_ms ≡ t) xs → All (λ e. e.t_ms ≤ t) xs
All-stamped t [] h = tt
All-stamped t (x ∷ xs) h = (omega (arith, h.0), All-stamped t xs h.1)

-- After `k` rounds: clocks and fences are bounded by the rounds, no worker is overdue, every lease
-- fits its worker, and the checker has passed the events so far and mirrors the store.
pub record Inv (sc : Scenario) (k : ℕ) (s : Sim) : Type 0 where
  pub cas : s.store.broken_cas ≡ false
  pub fencing : s.store.broken_fencing ≡ false
  pub counter : s.store.fence_counter ≤ k
  pub clocks :
      (v : ℕ)
      → v < sc.workers
      → is_done (s.states v) ≡ false
      → (s.store.now_ms ≤ s.wake_at v) × (s.wake_at v ≤ k * stride sc.ttl_ms)
  pub fits : (v : ℕ) → Fits sc.ttl_ms s.store.entry v (s.states v) (s.wake_at v)
  pub ordered : IsOrdered s.events
  pub latest : All (λ e. e.t_ms ≤ s.store.now_ms) s.events
  pub checked :
      (tr : Tracking) × (check_from sc.ttl_ms untouched s.events ≡ ok tr) × Mirrors tr s.store

pub start-Inv :
    (sc : Scenario) → sc.broken_cas ≡ false → sc.broken_fencing ≡ false → Inv sc 0 (start sc)
unfolding start check_from retain
start-Inv sc cas fencing = record {
  cas = cas;
  fencing = fencing;
  counter = omega arith;
  clocks = λ v lt live. (omega arith, omega arith);
  fits = λ v. tt;
  ordered = tt;
  latest = tt;
  checked = (untouched, refl, record { slot = refl; last = refl });
}

Fits-others :
    (ttl : ℕ) (entry entry' : Option Entry) (v : ℕ)
    → ((fence limit : ℕ) → Leased entry v fence limit → Leased entry' v fence limit)
    → (st : State) (wake : ℕ) → Fits ttl entry v st wake
    → Fits ttl entry' v st wake
Fits-others ttl entry entry' v keep (State.holding f at p b) wake h = (keep f _ h.0, h.1)
Fits-others ttl entry entry' v keep (State.paused f b) wake h = keep f wake h
Fits-others ttl entry entry' v keep _ wake h = tt

module _ (sc : Scenario) (k : ℕ) (s : Sim) (inv : Inv sc k s) (w : ℕ)
    (p : Picked s.states s.wake_at sc.workers w) (room : suc k * stride sc.ttl_ms < 2 ^ 64)
    (few : k + 1 < 2 ^ 64) where
  abbrev now : SimStore
  now = record s.store { now_ms = max s.store.now_ms (s.wake_at w) }

  abbrev t : Turn
  t = turn sc w (s.states w) (s.wake_at w) now s.rng

  -- The chosen worker's clock is not behind, so the time becomes its own.
  due : now.now_ms ≡ s.wake_at w
  due = omega (arith, inv.clocks w p.within p.live)

  sound : Sound sc.ttl_ms w (s.wake_at w) now inv.checked.0 t
  sound = turn-Sound sc w (s.wake_at w) (s.states w) now s.rng p.live (record {
    due = due;
    cas = inv.cas;
    fencing = inv.fencing;
    in_range = omega (arith, inv.clocks w p.within p.live);
    few = omega (arith, inv.counter);
    fits = inv.fits w;
    mirrors = Mirrors-later now.now_ms (omega arith) inv.checked.2;
  })

  pub step-Inv : Inv sc (suc k) (step sc s w)
  unfolding step
  step-Inv = record {
    cas = sound.cas;
    fencing = sound.fencing;
    counter = omega (arith, sound.counter, inv.counter);
    clocks =
        update_both
          (λ v st wake.
            v < sc.workers
            → is_done st ≡ false
            → (t.store.now_ms ≤ wake) × (wake ≤ suc k * stride sc.ttl_ms))
          s.states s.wake_at w t.state t.wake
          (λ lt live. (
            omega (arith, sound.clock, sound.woken live),
            omega (arith, inv.clocks w p.within p.live, sound.woken live),
          ))
          (λ v n lt live. (
            omega (arith, sound.clock, due, p.least v lt live),
            omega (arith, inv.clocks v lt live),
          ));
    fits =
        update_both (λ v st wake. Fits sc.ttl_ms t.store.entry v st wake) s.states s.wake_at w
          t.state t.wake sound.fits
          (λ v n.
            Fits-others sc.ttl_ms s.store.entry t.store.entry v
              (λ f limit. sound.others v f limit n) (s.states v) (s.wake_at v) (inv.fits v));
    ordered =
        IsOrdered-append now.now_ms s.events t.events inv.ordered
          (All-weaken s.store.now_ms now.now_ms s.events (omega arith) inv.latest) sound.stamped;
    latest = rw sound.clock (
        All-append _ s.events t.events
          (All-weaken s.store.now_ms now.now_ms s.events (omega arith) inv.latest)
          (All-stamped now.now_ms t.events sound.stamped));
    checked =
        let (tr, q, m) = sound.checked in
        (tr, check_from_join sc.ttl_ms untouched s.events t.events inv.checked.1 q, m);
  }
