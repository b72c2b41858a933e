-- ===== src/Testing/Passes/Cases.antt =====
-- Every turn of a worker in a clean run is sound, state by state.
use lock_dis.Prelude.{
  ℕ, zero, suc, ◌+◌, ◌/◌, ◌≤◌, ◌<◌, ◌^◌, ◌≡◌, refl, sym, ap, subst, inl, inr, Bool, true, false,
  ◌&&◌, Option, none, some, arith, Bool-cases, ltb, leb, if◌then◌else◌, add64, add64-eq-add, leb→gt,
}
use lock_dis.Testing.Event.{EventKind}
use lock_dis.Testing.Sim.Rng.{Rng, below, pct, below-le}
use lock_dis.Testing.Sim.Store.{SimStore, Entry, cas_grant, release, fenced_write, valid}
use lock_dis.Testing.Sim.Worker.{Scenario, State, turn, after_grant, ev}
use lock_dis.Testing.Sim.Run.{is_done}
use lock_dis.Testing.Checker.{Tracking}
use lock_dis.Testing.Passes.Mirror.{Follows, grant-Follows, deny-Follows}
use lock_dis.Testing.Passes.Turn.{
  stride, Leased, Ready, Sound, quiet, ending, check_one, granted, cas_grant_cases,
}

Leased-later :
    (entry : Option Entry) (w fence limit limit' : ℕ)
    → limit ≤ limit'
    → Leased entry w fence limit
    → Leased entry w fence limit'
Leased-later none w fence limit limit' le l = tt
Leased-later (some e) w fence limit limit' le l = λ h. ((l h).0, omega (arith, (l h).1))

-- A worker whose lease has run out holds nothing.
lapsed :
    (entry : Option Entry) (w fence now : ℕ)
    → Leased entry w fence now
    → valid entry w fence now ≡ false
unfolding valid
lapsed none w fence now l = refl
lapsed (some e) w fence now l = ground arith

-- The release of a worker whose lease has run out reports the loss.
pub release_lapsed :
    (s : SimStore) (w fence now : ℕ)
    → s.now_ms ≡ now
    → Leased s.entry w fence now
    → (release (fenced_write s w fence).1 w fence).0 ≡ false
unfolding release fenced_write
release_lapsed s w fence now t l = ground (arith, lapsed s.entry w fence now)

module _ (sc : Scenario) (w wake : ℕ) (s : SimStore) (rng : Rng) {tr : Tracking} where
  turn_finish :
      Ready sc.ttl_ms w (State.idle 0) wake s tr
      → Sound sc.ttl_ms w wake s tr (turn sc w (State.idle 0) wake s rng)
  unfolding turn
  turn_finish r = quiet r State.done _ rng (λ e. cc) tt

  turn_pause :
      (fence release_at : ℕ) (will_pause : Bool) (budget : ℕ)
      → Ready sc.ttl_ms w (State.holding fence release_at will_pause budget) wake s tr
      → (will_pause && ltb s.now_ms release_at) ≡ true
      → Sound sc.ttl_ms w wake s tr
          (turn sc w (State.holding fence release_at will_pause budget) wake s rng)
  unfolding turn
  turn_pause fence release_at will_pause budget r e = rw e (
      quiet r (State.paused fence budget) _ rng
        (λ _. (
          omega (
            arith,
            fit.1,
            big,
            add64-eq-add release_at sc.ttl_ms,
            add64-eq-add (add64 release_at sc.ttl_ms) 10,
          ),
          omega (
            arith,
            fit.1,
            add64-eq-add release_at sc.ttl_ms,
            add64-eq-add (add64 release_at sc.ttl_ms) 10,
          ),
        ))
        (Leased-later s.entry w fence _ _
          (omega (
            arith,
            fit.1,
            add64-eq-add release_at sc.ttl_ms,
            add64-eq-add (add64 release_at sc.ttl_ms) 10,
          ))
          fit.0))
    where
      fit : Leased s.entry w fence (release_at + sc.ttl_ms) × (release_at ≤ wake + sc.ttl_ms + 5)
      fit = r.fits

      big : s.now_ms ≤ release_at
      big = ground arith

  turn_release :
      (fence release_at : ℕ) (will_pause : Bool) (budget : ℕ)
      → Ready sc.ttl_ms w (State.holding fence release_at will_pause budget) wake s tr
      → (will_pause && ltb s.now_ms release_at) ≡ false
      → leb release_at s.now_ms ≡ true
      → Sound sc.ttl_ms w wake s tr
          (turn sc w (State.holding fence release_at will_pause budget) wake s rng)
  unfolding turn
  turn_release fence release_at will_pause budget r e l =
      rw (e, l)
        (ending r fence _ _ budget _ _ r.fits.0
          (omega (arith, below-le rng 4, add64-eq-add s.now_ms (below rng 4).0))
          (omega (arith, below-le rng 4, add64-eq-add s.now_ms (below rng 4).0)) refl)

  turn_wait :
      (fence release_at : ℕ) (will_pause : Bool) (budget : ℕ)
      → Ready sc.ttl_ms w (State.holding fence release_at will_pause budget) wake s tr
      → (will_pause && ltb s.now_ms release_at) ≡ false
      → leb release_at s.now_ms ≡ false
      → Sound sc.ttl_ms w wake s tr
          (turn sc w (State.holding fence release_at will_pause budget) wake s rng)
  unfolding turn
  turn_wait fence release_at will_pause budget r e l =
      rw (e, l)
        (quiet r (State.holding fence release_at will_pause budget) release_at rng
          (λ _. (omega (arith, r.fits.1, leb→gt _ _ l), omega (arith, r.fits.1)))
          (r.fits.0, omega arith))

  turn_resume :
      (fence budget : ℕ)
      → Ready sc.ttl_ms w (State.paused fence budget) wake s tr
      → Sound sc.ttl_ms w wake s tr (turn sc w (State.paused fence budget) wake s rng)
  unfolding turn
  turn_resume fence budget r =
      ending r fence wake _ budget rng EventKind.release_lost r.fits
        (omega (arith, add64-eq-add s.now_ms 1)) (omega (arith, add64-eq-add s.now_ms 1))
        (rw (release_lapsed s w fence wake r.due r.fits))

-- The clocks of a hold that begins at `now`.
hold_clocks :
    (now ttl extra wake : ℕ) (will_pause : Bool)
    → now ≡ wake
    → wake + stride ttl < 2 ^ 64
    → extra ≤ ttl / 2
    → let release_at = add64 now (add64 5 extra) in
      let woken = if will_pause then add64 now (add64 5 extra / 2) else release_at in
      (now ≤ woken)
      × (woken ≤ wake + stride ttl)
      × (release_at ≤ woken + ttl + 5)
      × (add64 now ttl ≤ release_at + ttl)
hold_clocks now ttl extra wake true e lt le = omega (
  arith,
  add64-eq-add 5 extra,
  add64-eq-add now (add64 5 extra),
  add64-eq-add now (add64 5 extra / 2),
  add64-eq-add now ttl,
)
hold_clocks now ttl extra wake false e lt le =
    omega (arith, add64-eq-add 5 extra, add64-eq-add now (add64 5 extra), add64-eq-add now ttl)

-- The turn of an idle worker that tries to take the lock.
module _ (sc : Scenario) (w wake left : ℕ) (s : SimStore) (rng : Rng) {tr : Tracking}
    (r : Ready sc.ttl_ms w (State.idle (suc left)) wake s tr) where
  acquire_refused : Sound sc.ttl_ms w wake s tr (after_grant sc w wake left (none, s) rng)
  unfolding after_grant ev
  acquire_refused = record {
    clock = refl;
    cas = r.cas;
    fencing = r.fencing;
    counter = omega arith;
    woken = λ _. (
      omega (
        arith,
        below-le rng 3,
        add64-eq-add 1 (below rng 3).0,
        add64-eq-add wake (add64 1 (below rng 3).0),
      ),
      omega (
        arith,
        below-le rng 3,
        add64-eq-add 1 (below rng 3).0,
        add64-eq-add wake (add64 1 (below rng 3).0),
      ),
    );
    fits = tt;
    others = λ v fence limit n l. l;
    stamped = (refl, tt);
    checked = check_one sc.ttl_ms tr _ (deny-Follows sc.ttl_ms w r.mirrors);
  }

  acquire_given :
      cas_grant s w sc.ttl_ms ≡ (some (add64 s.fence_counter 1), granted sc.ttl_ms w s)
      → Sound sc.ttl_ms w wake s tr
          (after_grant sc w wake left (some (add64 s.fence_counter 1), granted sc.ttl_ms w s) rng)
  unfolding after_grant
  acquire_given q = record {
    clock = refl;
    cas = r.cas;
    fencing = r.fencing;
    counter = omega (arith, add64-eq-add s.fence_counter 1);
    woken = λ _. (clocks.0, clocks.1);
    fits = ((λ _. (refl, clocks.3)), clocks.2);
    others = λ v fence limit n l. λ h. absurd (n (sym h));
    stamped = (refl, tt);
    checked = check_one sc.ttl_ms tr _ (
        subst (λ x. Follows sc.ttl_ms tr (ev s w EventKind.grant (add64 s.fence_counter 1)) x)
          (ap (λ (x : Option ℕ × SimStore). x.1) q)
          (grant-Follows sc.ttl_ms w r.mirrors (add64 s.fence_counter 1) r.cas r.few
            (ap (λ (x : Option ℕ × SimStore). x.0) q)));
  }
    where
      paused : Bool × Rng
      paused = pct rng sc.pause_probability_pct

      extra : ℕ
      extra = (below paused.1 (sc.ttl_ms / 2)).0

      release_at : ℕ
      release_at = add64 s.now_ms (add64 5 extra)

      woken : ℕ
      woken = if paused.0 then add64 s.now_ms (add64 5 extra / 2) else release_at

      clocks :
          (s.now_ms ≤ woken)
          × (woken ≤ wake + stride sc.ttl_ms)
          × (release_at ≤ woken + sc.ttl_ms + 5)
          × (add64 s.now_ms sc.ttl_ms ≤ release_at + sc.ttl_ms)
      clocks =
          hold_clocks s.now_ms sc.ttl_ms extra wake paused.0 r.due r.in_range
            (below-le paused.1 (sc.ttl_ms / 2))

  acquire_turn :
      Sound sc.ttl_ms w wake s tr (after_grant sc w wake left (cas_grant s w sc.ttl_ms) rng)
  acquire_turn = elim (cas_grant_cases sc.ttl_ms w s) [
    | inl e ↦ rw e acquire_refused
    | inr e ↦ rw e (acquire_given e)
  ]

-- Every turn of a clean run is sound.
pub turn-Sound :
    (sc : Scenario) (w wake : ℕ) (st : State) (s : SimStore) (rng : Rng) {tr : Tracking}
    → is_done st ≡ false
    → Ready sc.ttl_ms w st wake s tr
    → Sound sc.ttl_ms w wake s tr (turn sc w st wake s rng)
unfolding turn
turn-Sound sc w wake (State.idle zero) s rng live r = turn_finish sc w wake s rng r
turn-Sound sc w wake (State.idle (suc left)) s rng live r =
    elim (Bool-cases (ltb (below rng 100).0 70)) [
      | inl e ↦ rw e (acquire_turn sc w wake left s (below rng 100).1 r)
      | inr e ↦ rw e (
          quiet r (State.idle left) (add64 wake 1) (below rng 100).1
            (λ _. (omega (arith, add64-eq-add wake 1), omega (arith, add64-eq-add wake 1))) tt)
    ]
turn-Sound sc w wake (State.holding f at p b) s rng live r =
    elim (Bool-cases (p && ltb s.now_ms at)) [
      | inl e ↦ turn_pause sc w wake s rng f at p b r e
      | inr e ↦ elim (Bool-cases (leb at s.now_ms)) [
        | inl l ↦ turn_release sc w wake s rng f at p b r e l
        | inr l ↦ turn_wait sc w wake s rng f at p b r e l
      ]
    ]
turn-Sound sc w wake (State.paused f b) s rng live r = turn_resume sc w wake s rng f b r
turn-Sound sc w wake State.done s rng live r = cc
