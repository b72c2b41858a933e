-- ===== src/Server/Auth/WatchQuota.antt =====
-- The quota of watchers under concurrent requests.
use lock_dis.Prelude.{ℕ, ◌+◌, ◌≤◌, ◌<◌, ◌≡◌, List, [], ◌∷◌, arith}
use lock_dis.Server.Auth.{Watchers, WatchStep, nobody, watch_step}

abbrev pub interleave : ℕ → Watchers → List WatchStep → Watchers
interleave max_watchers w [] = w
interleave max_watchers w (x ∷ xs) = interleave max_watchers (watch_step max_watchers w x) xs

abbrev Within : ℕ → Watchers → Type 0
Within max_watchers w =
    (w.counter ≡ w.guards + w.refused) × (0 < max_watchers → w.guards ≤ max_watchers)

watch_step-Within :
    (max_watchers : ℕ) (w : Watchers) (x : WatchStep)
    → Within max_watchers w
    → Within max_watchers (watch_step max_watchers w x)
unfolding watch_step
watch_step-Within max_watchers w WatchStep.enter h = ground arith
watch_step-Within max_watchers w WatchStep.undo h = ground arith
watch_step-Within max_watchers w WatchStep.leave h = ground arith

interleave-Within :
    (max_watchers : ℕ) (w : Watchers) (xs : List WatchStep)
    → Within max_watchers w
    → Within max_watchers (interleave max_watchers w xs)
interleave-Within max_watchers w [] h = h
interleave-Within max_watchers w (x ∷ xs) h =
    interleave-Within max_watchers (watch_step max_watchers w x) xs
      (watch_step-Within max_watchers w x h)

-- However the atomic steps of a principal's watch requests interleave, the counter is the number of
-- guards and of refusals not yet taken off, and no more guards are out than the ceiling allows,
-- where there is one.
pub interleave-quota :
    (max_watchers : ℕ) (xs : List WatchStep)
    → let w = interleave max_watchers nobody xs in
      (w.counter ≡ w.guards + w.refused) × (0 < max_watchers → w.guards ≤ max_watchers)
interleave-quota max_watchers xs =
    interleave-Within max_watchers nobody xs (omega arith, λ h. omega arith)
