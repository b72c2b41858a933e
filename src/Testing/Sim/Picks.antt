-- ===== src/Testing/Sim/Picks.antt =====
-- The choice of the next worker: not done, and of the least wake-up time.
use lock_dis.Prelude.{
  ℕ, zero, suc, ◌≤◌, ◌<◌, ◌≡◌, inl, inr, true, false, none, some, arith, ℕ_discrete, Option-cases,
}
use lock_dis.Testing.Sim.Worker.{State}
use lock_dis.Testing.Sim.Run.{is_done, next_worker}

-- What the choice of `w` says of the workers below `n`.
pub record Picked (states : ℕ → State) (wake_at : ℕ → ℕ) (n w : ℕ) : Type 0 where
  pub within : w < n
  pub live : is_done (states w) ≡ false
  pub least : (v : ℕ) → v < n → is_done (states v) ≡ false → wake_at w ≤ wake_at v

-- No choice means that every worker is done.
pub next_worker-none :
    (states : ℕ → State) (wake_at : ℕ → ℕ) (n : ℕ)
    → next_worker states wake_at n ≡ none
    → (v : ℕ) → v < n
    → is_done (states v) ≡ true
unfolding next_worker
next_worker-none states wake_at zero e v lt = absurd (omega arith)
next_worker-none states wake_at (suc n) e v lt = elim (ℕ_discrete v n) [
  | yes p ↦ rw p (ground arith)
  | no p ↦ next_worker-none states wake_at n (ground arith) v (omega arith)
]

pub next_worker-Picked :
    (states : ℕ → State) (wake_at : ℕ → ℕ) (n w : ℕ)
    → next_worker states wake_at n ≡ some w
    → Picked states wake_at n w
unfolding next_worker
next_worker-Picked states wake_at zero w e = cc
next_worker-Picked states wake_at (suc n) w e = elim (Option-cases (next_worker states wake_at n)) [
  | inl q ↦ record {
    within = ground arith;
    live = ground arith;
    least = λ v lt alive. ground (arith, next_worker-none states wake_at n q v);
  }
  | inr (u, q) ↦
      let ih = next_worker-Picked states wake_at n u q in
      record {
        within = ground (arith, ih.within);
        live = ground (arith, ih.live);
        least = λ v lt alive. ground (arith, ih.least v);
      }
]
