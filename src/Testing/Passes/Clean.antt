-- ===== src/Testing/Passes/Clean.antt =====
-- A clean run passes the check: the algorithm of the simulated store against the checker's rules.
use lock_dis.Prelude.{
  ℕ, zero, suc, ◌+◌, ◌*◌, ◌≤◌, ◌<◌, ◌^◌, ◌≡◌, refl, subst, inl, inr, false, some, List, [], ◌∷◌,
  arith, Option-cases, ltb, All, ok,
}
use lock_dis.Testing.Event.{Event}
use lock_dis.Testing.Sim.Worker.{Scenario}
use lock_dis.Testing.Sim.Run.{
  Sim, next_worker, step, start, loop, rounds, insert_by_time, sort_by_time, Outcome, simulate,
}
use lock_dis.Testing.Sim.Picks.{next_worker-Picked}
use lock_dis.Testing.Sim.Progress.{start-ends}
use lock_dis.Testing.Checker.{check}
use lock_dis.Testing.Passes.Turn.{stride}
use lock_dis.Testing.Passes.Invariant.{Inv, IsOrdered, start-Inv, step-Inv}

insert_ordered :
    (e : Event) (es : List Event) → All (λ d. e.t_ms ≤ d.t_ms) es → insert_by_time e es ≡ e ∷ es
unfolding insert_by_time
insert_ordered e [] h = refl
insert_ordered e (x ∷ xs) h = ground (arith, h.0)

-- A stable sort leaves a list in order as it is.
pub sort_ordered : (es : List Event) → IsOrdered es → sort_by_time es ≡ es
unfolding sort_by_time
sort_ordered [] o = refl
sort_ordered (e ∷ es) o = rw (sort_ordered es o.1) (insert_ordered e es o.0)

times_mono : (a b c : ℕ) → a ≤ b → a * c ≤ b * c
times_mono a b c le = grind arith

rounds_lt : (n ttl : ℕ) → n * stride ttl < 2 ^ 64 → n < 2 ^ 64
rounds_lt n ttl h = omega (arith, times_mono 1 (stride ttl) n, times_mono 20 (stride ttl) n)

-- The invariant holds where the loop ends, whatever fuel it was given.
loop-Inv :
    (fuel k bound : ℕ) (sc : Scenario) (s s' : Sim)
    → bound * stride sc.ttl_ms < 2 ^ 64
    → k + fuel ≤ bound
    → Inv sc k s
    → loop fuel sc s ≡ some s'
    → (n : ℕ) × Inv sc n s'
unfolding loop
loop-Inv zero k bound sc s s' room le inv e = cc
loop-Inv (suc fuel) k bound sc s s' room le inv e =
    elim (Option-cases (next_worker s.states s.wake_at sc.workers)) [
      | inl q ↦
          let ended : some s ≡ some s' = rw (q, loop) at e in
          let same : s ≡ s' = cc in (k, subst (Inv sc k) same inv)
      | inr (w, q) ↦
          let next : Inv sc (suc k) (step sc s w) =
            step-Inv sc k s inv w (next_worker-Picked s.states s.wake_at sc.workers w q)
              (omega (arith, times_mono (suc k) bound (stride sc.ttl_ms) (omega arith)))
              (omega (arith, rounds_lt bound sc.ttl_ms room)) in
          loop-Inv fuel (suc k) bound sc (step sc s w) s' room (omega arith) next
            (rw (q, loop) at e)
    ]

-- A run with no injected bug whose clocks stay within u64 is never refused by the checker: it ends,
-- and the history that it returns passes the check for its lease time.
pub clean_run_passes :
    (sc : Scenario)
    → 2 ≤ sc.workers
    → sc.broken_cas ≡ false
    → sc.broken_fencing ≡ false
    → (rounds sc + 1) * stride sc.ttl_ms < 2 ^ 64
    → (h : List Event) × (simulate sc ≡ Outcome.finished h) × (check h sc.ttl_ms ≡ ok tt)
unfolding simulate check
clean_run_passes sc two cas fencing room =
    let (s, e, _) = start-ends sc in
    let (n, inv) =
      loop-Inv (suc (rounds sc)) 0 (rounds sc + 1) sc (start sc) s room (omega arith)
        (start-Inv sc cas fencing) e in
    let enough : ltb sc.workers 2 ≡ false = ground arith in
    (s.events, rw (enough, e, sort_ordered s.events inv.ordered), rw inv.checked.1)
