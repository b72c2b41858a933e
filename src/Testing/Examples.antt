-- ===== src/Testing/Examples.antt =====
-- The theorems on the simulator and the checker at concrete inputs, and runs of both.
use lock_dis.Prelude.{
  ℕ, ◌≤◌, ◌<◌, ◌≡◌, refl, ◌⊎◌, true, List, [], ◌∷◌, arith, some, none, suc, add64, ok, err,
}
use lock_dis.Testing.Event.{Event, EventKind}
use lock_dis.Testing.Sim.Worker.{Scenario, clean}
use lock_dis.Testing.Sim.Run.{
  Sim, simulate, Outcome, rounds, sort_by_time, is_done, loop, start, next_worker,
}
use lock_dis.Testing.Sim.Progress.{simulate_finishes}
use lock_dis.Testing.Checker.{check, Reason}
use lock_dis.Testing.Checker.Soundness.{ReleasedBy, check-exclusion, check-fences_increase}
use lock_dis.Testing.Checker.Holders.{HeldUntil, check-write_held}
use lock_dis.Testing.Passes.Clean.{clean_run_passes}

abbrev event : ℕ → ℕ → EventKind → ℕ → Event
event t w k f = record { t_ms = t; worker = w; kind = k; fence = f }

-- Worker 1 holds, writes and releases; then worker 2 does.
abbrev granted_first : Event
granted_first = event 0 1 EventKind.grant 1

abbrev wrote_first : Event
wrote_first = event 40 1 EventKind.write_accepted 1

abbrev released_first : Event
released_first = event 40 1 EventKind.release_ok 1

abbrev granted_second : Event
granted_second = event 50 2 EventKind.grant 2

abbrev wrote_second : Event
wrote_second = event 60 2 EventKind.write_accepted 2

abbrev two_holds : List Event
two_holds = granted_first ∷ wrote_first ∷ released_first ∷ granted_second ∷ wrote_second ∷ []

two_holds_pass : check two_holds 100 ≡ ok tt
unfolding check add64
two_holds_pass = refl

check-exclusion_example : (add64 0 100 ≤ 50) ⊎ ReleasedBy 1 (wrote_first ∷ released_first ∷ [])
check-exclusion_example =
    check-exclusion 100 [] (wrote_first ∷ released_first ∷ []) (wrote_second ∷ []) granted_first
      granted_second two_holds_pass refl refl (omega arith)

check-fences_increase_example : ◌<◌ 1 2
check-fences_increase_example =
    check-fences_increase 100 (granted_first ∷ []) (released_first ∷ granted_second ∷ []) []
      wrote_first wrote_second two_holds_pass refl refl

check-write_held_example :
    (expiry : ℕ) × HeldUntil 100 2 expiry
      (granted_first ∷ wrote_first ∷ released_first ∷ granted_second ∷ [])
    × (60 < expiry)
check-write_held_example =
    check-write_held 100 (granted_first ∷ wrote_first ∷ released_first ∷ granted_second ∷ []) []
      wrote_second two_holds_pass refl

simulate_finishes_example :
    (s : Sim) × (loop (suc (rounds (clean 7))) (clean 7) (start (clean 7)) ≡ some s)
    × (simulate (clean 7) ≡ Outcome.finished (sort_by_time s.events))
    × ((v : ℕ) → v < (clean 7).workers → is_done (s.states v) ≡ true)
    × (next_worker s.states s.wake_at (clean 7).workers ≡ none)
unfolding clean
simulate_finishes_example = simulate_finishes (clean 7) (omega arith)

clean_run_passes_example :
    (h : List Event) × (simulate (clean 7) ≡ Outcome.finished h)
    × (check h (clean 7).ttl_ms ≡ ok tt)
unfolding clean rounds
clean_run_passes_example = clean_run_passes (clean 7) (omega arith) refl refl (omega arith)

-- A grant while another worker holds is reported.
double_grant_refused :
    check (granted_first ∷ event 10 2 EventKind.grant 2 ∷ []) 100
    ≡ err (record { at_ms = 10; reason = Reason.granted_while_held 2 1 })
unfolding check add64
double_grant_refused = refl

-- One worker alone is refused by the assertion.
lonely_panics : simulate (record (clean 3) { workers = 1 }) ≡ Outcome.panic
unfolding simulate clean
lonely_panics = refl

-- A short run of two workers, evaluated: its history passes.
short_run : Scenario
unfolding clean
short_run = record (clean 42) { workers = 2; steps_per_worker = 3 }

short_run_result : Outcome
unfolding simulate short_run clean
short_run_result = simulate short_run
