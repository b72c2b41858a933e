-- ===== src/Testing/Sim/Worker.antt =====
-- The worker states of crates/testing/src/sim.rs, and what one turn of a worker does.
use lock_dis.Prelude.{
  ℕ, zero, suc, ◌/◌, Bool, true, false, ◌&&◌, Option, none, some, List, [], ◌∷◌, if◌then◌else◌, ltb,
  leb, add64, u64_max,
}
use lock_dis.Testing.Event.{Event, EventKind}
use lock_dis.Testing.Sim.Rng.{Rng, below, pct}
use lock_dis.Testing.Sim.Store.{SimStore, cas_grant, release, fenced_write}

pub record Scenario : Type 0 where
  pub seed : ℕ
  pub workers : ℕ
  pub steps_per_worker : ℕ
  pub ttl_ms : ℕ
  pub pause_probability_pct : ℕ
  pub broken_cas : Bool
  pub broken_fencing : Bool

-- `Scenario::clean`
unfoldable pub clean : ℕ → Scenario
clean seed = record {
  seed = seed;
  workers = 6;
  steps_per_worker = 40;
  ttl_ms = 100;
  pause_probability_pct = 35;
  broken_cas = false;
  broken_fencing = false;
}

pub data State : Type 0 where
  idle : (steps_left : ℕ) → State
  holding : (fence release_at : ℕ) (will_pause : Bool) (budget : ℕ) → State
  paused : (fence budget : ℕ) → State
  done : State

-- What a turn yields: the worker's new state and wake-up time, the shared store and generator, and
-- the events that it emits.
pub record Turn : Type 0 where
  pub state : State
  pub wake : ℕ
  pub store : SimStore
  pub rng : Rng
  pub events : List Event

unfoldable pub ev : SimStore → ℕ → EventKind → ℕ → Event
ev s w kind fence = record { t_ms = s.now_ms; worker = w; kind = kind; fence = fence }

-- The arms of the `match` on the result of `cas_grant`.
unfoldable pub after_grant : Scenario → ℕ → ℕ → ℕ → Option ℕ × SimStore → Rng → Turn
unfolding ev
after_grant sc w wake budget (some fence, store) rng =
    let (will_pause, rng₁) = pct rng sc.pause_probability_pct in
    let (extra, rng₂) = below rng₁ (sc.ttl_ms / 2) in
    let hold = add64 5 extra in
    let release_at = add64 store.now_ms hold in
    record {
      state = State.holding fence release_at will_pause budget;
      wake = if will_pause then add64 store.now_ms (hold / 2) else release_at;
      store = store;
      rng = rng₂;
      events = ev store w EventKind.grant fence ∷ [];
    }
after_grant sc w wake budget (none, store) rng =
    let (extra, rng₁) = below rng 3 in
    record {
      state = State.idle budget;
      wake = add64 wake (add64 1 extra);
      store = store;
      rng = rng₁;
      events = ev store w EventKind.deny 0 ∷ [];
    }

abbrev pub write_kind : Bool → EventKind
write_kind true = EventKind.write_accepted
write_kind false = EventKind.write_rejected

abbrev pub release_kind : Bool → EventKind
release_kind true = EventKind.release_ok
release_kind false = EventKind.release_lost

unfoldable pub turn : Scenario → ℕ → State → ℕ → SimStore → Rng → Turn
unfolding ev after_grant
turn sc w (State.idle zero) wake store rng = record {
  state = State.done;
  wake = u64_max;
  store = store;
  rng = rng;
  events = [];
}
turn sc w (State.idle (suc left)) wake store rng =
    let (x, rng₁) = below rng 100 in
    if ltb x 70 then after_grant sc w wake left (cas_grant store w sc.ttl_ms) rng₁ else record {
      state = State.idle left;
      wake = add64 wake 1;
      store = store;
      rng = rng₁;
      events = [];
    }
turn sc w (State.holding fence release_at will_pause budget) wake store rng =
    let (write_ok, written) = fenced_write store w fence in
    let (released, freed) = release written w fence in
    let (extra, rng₁) = below rng 4 in
    if will_pause && ltb store.now_ms release_at
    then record {
      state = State.paused fence budget;
      wake = add64 (add64 release_at sc.ttl_ms) 10;
      store = store;
      rng = rng;
      events = [];
    }
    else if leb release_at store.now_ms
    then record {
      state = State.idle budget;
      wake = add64 store.now_ms extra;
      store = freed;
      rng = rng₁;
      events =
          ev store w (write_kind write_ok) fence ∷ ev written w (release_kind released) fence ∷ [];
    }
    else record {
      state = State.holding fence release_at will_pause budget;
      wake = release_at;
      store = store;
      rng = rng;
      events = [];
    }
turn sc w (State.paused fence budget) wake store rng =
    let (write_ok, written) = fenced_write store w fence in
    let (released, freed) = release written w fence in
    record {
      state = State.idle budget;
      wake = add64 store.now_ms 1;
      store = freed;
      rng = rng;
      events =
          ev store w (write_kind write_ok) fence ∷ ev written w EventKind.release_lost fence ∷ [];
    }
turn sc w State.done wake store rng = record {
  state = State.done;
  wake = wake;
  store = store;
  rng = rng;
  events = [];
}
