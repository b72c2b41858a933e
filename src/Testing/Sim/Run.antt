-- ===== src/Testing/Sim/Run.antt =====
-- The scheduler loop `run` of crates/testing/src/sim.rs. The two vectors over the workers are
-- families indexed below `workers`; the loop takes fuel.
use lock_dis.Prelude.{
  ℕ, zero, suc, ◌+◌, ◌*◌, Bool, true, false, Option, none, some, List, [], ◌∷◌, ◌++◌, if◌then◌else◌,
  ltb, leb, update, max,
}
use lock_dis.Testing.Event.{Event}
use lock_dis.Testing.Sim.Rng.{Rng, new}
use lock_dis.Testing.Sim.Store.{SimStore}
use lock_dis.Testing.Sim.Worker.{Scenario, State, turn}

-- Everything that the loop changes.
pub record Sim : Type 0 where
  pub rng : Rng
  pub store : SimStore
  pub states : ℕ → State
  pub wake_at : ℕ → ℕ
  pub events : List Event

abbrev pub is_done : State → Bool
is_done State.done = true
is_done (State.idle _) = false
is_done _ = false

-- `(0..n).filter(not done).min_by_key((wake_at[w], w))`: of equal wake-up times the first.
unfoldable pub next_worker : (ℕ → State) → (ℕ → ℕ) → ℕ → Option ℕ
next_worker states wake_at zero = none
next_worker states wake_at (suc n) =
    let before = next_worker states wake_at n in
    if is_done (states n) then before else elim before [
      | none ↦ some n
      | some w ↦ if ltb (wake_at n) (wake_at w) then some n else some w
    ]

-- The body of the loop, for the worker chosen.
unfoldable pub step : Scenario → Sim → ℕ → Sim
step sc s w =
    let store = record s.store { now_ms = max s.store.now_ms (s.wake_at w) } in
    let t = turn sc w (s.states w) (s.wake_at w) store s.rng in
    record {
      rng = t.rng;
      store = t.store;
      states = update s.states w t.state;
      wake_at = update s.wake_at w t.wake;
      events = s.events ++ t.events;
    }

-- `none` if the fuel runs out before every worker is done.
unfoldable pub loop : ℕ → Scenario → Sim → Option Sim
loop zero sc s = none
loop (suc fuel) sc s = elim (next_worker s.states s.wake_at sc.workers) [
  | none ↦ some s
  | some w ↦ loop fuel sc (step sc s w)
]

unfoldable pub start : Scenario → Sim
start sc = record {
  rng = new sc.seed;
  store = record {
    now_ms = 0;
    entry = none;
    fence_counter = 0;
    last_accepted_fence = 0;
    broken_cas = sc.broken_cas;
    broken_fencing = sc.broken_fencing;
  };
  states = λ _. State.idle sc.steps_per_worker;
  wake_at = λ _. 0;
  events = [];
}

-- Insertion of one element behind all that are not later.
unfoldable pub insert_by_time : Event → List Event → List Event
insert_by_time e [] = e ∷ []
insert_by_time e (x ∷ xs) =
    let rest = insert_by_time e xs in if leb e.t_ms x.t_ms then e ∷ x ∷ xs else x ∷ rest

-- `sort_by_key(|e| e.t_ms)`, which is stable.
unfoldable pub sort_by_time : List Event → List Event
unfolding insert_by_time
sort_by_time [] = []
sort_by_time (e ∷ es) = insert_by_time e (sort_by_time es)

-- Enough rounds for every worker to finish: three for each step of a worker, and one to stop.
unfoldable pub rounds : Scenario → ℕ
rounds sc = sc.workers * (3 * sc.steps_per_worker + 1)

pub data Outcome : Type 0 where
  panic : Outcome
  out_of_fuel : Outcome
  finished : List Event → Outcome

abbrev pub outcome : Option Sim → Outcome
outcome none = Outcome.out_of_fuel
outcome (some s) = Outcome.finished (sort_by_time s.events)

-- `simulate`; the assertion on the number of workers is the panic.
unfoldable pub simulate : Scenario → Outcome
unfolding loop start rounds sort_by_time step next_worker
simulate sc =
    if ltb sc.workers 2 then Outcome.panic else outcome (loop (suc (rounds sc)) sc (start sc))
