-- ===== src/Server/WatchHub/Examples.antt =====
-- A subscriber that sleeps through a grant.
use lock_dis.Prelude.{◌≡◌, refl, true, false, none, List, [], ◌∷◌, ok, err}
use lock_dis.Redis.Manager.{Error}
use lock_dis.Server.WatchHub.{LockEvent, HubStep, hub_step, subscribed}
use lock_dis.Server.WatchHub.Latest.{hub_run, latest, newest, event_of, subscribed-told_latest}

abbrev steps : List HubStep
steps =
    HubStep.probed (ok (false, 1))
    ∷ HubStep.woken
    ∷ HubStep.probed (ok (true, 2))
    ∷ HubStep.probed (err Error.backend)
    ∷ HubStep.probed (ok (false, 2))
    ∷ []

subscribed-told_latest_example :
    newest (hub_step (hub_run (subscribed none 0) steps) HubStep.woken).told
    ≡ event_of (latest none steps)
subscribed-told_latest_example = subscribed-told_latest none 0 steps

-- The grant is not told; its end is.
unseen :
    (hub_step (hub_run (subscribed none 0) steps) HubStep.woken).told
    ≡ LockEvent.freed 2 ∷ LockEvent.freed 1 ∷ []
unfolding hub_step subscribed
unseen = refl
