-- ===== src/Testing/Checker.antt =====
-- crates/testing/src/checker.rs: the check of one history of one key. The vector `released_seen`,
-- which is written and never read, and the texts of the violations are left out.
pub mod Loop
pub mod Soundness
pub mod Holders
use lock_dis.Prelude.{
  ℕ, ◌+◌, ◌≡◌, Bool, true, false, Option, none, some, List, [], ◌∷◌, if◌then◌else◌, ltb, leb, ◌==◌,
  arith, add64, Result, err, ok, ◌>>=◌,
}
use lock_dis.Testing.Event.{Event, EventKind}

-- A worker with its `ActiveHold`.
pub record Active : Type 0 where
  pub worker : ℕ
  pub expires_ms : ℕ

-- Why a history is refused, with the parameters of the description.
pub data Reason : Type 0 where
  granted_while_held : (worker other : ℕ) → Reason
  grant_without_fence : Reason
  released_unheld : (worker : ℕ) → Reason
  lost_while_valid : (worker : ℕ) → Reason
  stale_write_accepted : (worker : ℕ) → Reason
  fence_not_newer : (fence last : ℕ) → Reason

pub record Violation : Type 0 where
  pub at_ms : ℕ
  pub reason : Reason

-- The local variables of `check` that its loop carries.
pub record Tracking : Type 0 where
  pub active : List Active
  pub last_accepted_fence : ℕ

abbrev pub Checked {ℓ} : Type ℓ → Type ℓ
Checked A = Result Violation A

-- `active.retain(..)` at the event's time
unfoldable pub retain : ℕ → List Active → List Active
retain now [] = []
retain now (h ∷ hs) = let rest = retain now hs in if leb h.expires_ms now then rest else h ∷ rest

-- `active.iter().position(..)` and `active.remove(i)` in one: `none` if the worker is not there.
unfoldable pub remove_hold : ℕ → List Active → Option (List Active)
remove_hold w [] = none
remove_hold w (h ∷ hs) =
    let rest = remove_hold w hs in
    if h.worker == w then some hs else elim rest [ none ↦ none | some r ↦ some (h ∷ r) ]

-- `active.iter().find(..)`
unfoldable pub find_hold : ℕ → List Active → Option Active
find_hold w [] = none
find_hold w (h ∷ hs) = let rest = find_hold w hs in if h.worker == w then some h else rest

unfoldable pub violation {ℓ} : {A : Type ℓ} → Event → Reason → Checked A
violation e r = err (record { at_ms = e.t_ms; reason = r })

unfoldable pub on_grant : ℕ → Event → List Active → ℕ → Checked Tracking
unfolding violation
on_grant ttl_ms e [] last =
    if e.fence == 0
    then violation e Reason.grant_without_fence
    else ok (record {
      active = record { worker = e.worker; expires_ms = add64 e.t_ms ttl_ms } ∷ [];
      last_accepted_fence = last;
    })
on_grant ttl_ms e (h ∷ hs) last = violation e (Reason.granted_while_held e.worker h.worker)

unfoldable pub on_release_ok : Event → Option (List Active) → ℕ → Checked Tracking
unfolding violation
on_release_ok e none last = violation e (Reason.released_unheld e.worker)
on_release_ok e (some rest) last = ok (record { active = rest; last_accepted_fence = last })

unfoldable pub on_release_lost : Event → Option Active → Tracking → Checked Tracking
unfolding violation
on_release_lost e none tr = ok tr
on_release_lost e (some h) tr =
    if ltb e.t_ms h.expires_ms then violation e (Reason.lost_while_valid e.worker) else ok tr

unfoldable pub on_write_accepted : Event → Option Active → Tracking → Checked Tracking
unfolding violation
on_write_accepted e none tr = violation e (Reason.stale_write_accepted e.worker)
on_write_accepted e (some h) tr =
    if leb e.fence tr.last_accepted_fence
    then violation e (Reason.fence_not_newer e.fence tr.last_accepted_fence)
    else ok (record tr { last_accepted_fence = e.fence })

-- The `match` on the event's kind, after the expired holds are dropped.
unfoldable pub dispatch : ℕ → Event → EventKind → Tracking → Checked Tracking
unfolding on_grant on_release_ok on_release_lost on_write_accepted remove_hold find_hold
dispatch ttl_ms e EventKind.grant tr = on_grant ttl_ms e tr.active tr.last_accepted_fence
dispatch ttl_ms e EventKind.release_ok tr =
    on_release_ok e (remove_hold e.worker tr.active) tr.last_accepted_fence
dispatch ttl_ms e EventKind.release_lost tr = on_release_lost e (find_hold e.worker tr.active) tr
dispatch ttl_ms e EventKind.write_accepted tr =
    on_write_accepted e (find_hold e.worker tr.active) tr
dispatch ttl_ms e EventKind.write_rejected tr = ok tr
dispatch ttl_ms e EventKind.deny tr = ok tr

-- One round of the loop.
unfoldable pub observe : ℕ → Tracking → Event → Checked Tracking
unfolding dispatch retain
observe ttl_ms tr e = dispatch ttl_ms e e.kind (record tr { active = retain e.t_ms tr.active })

unfoldable pub check_from : ℕ → Tracking → List Event → Checked Tracking
unfolding observe
check_from ttl_ms tr [] = ok tr
check_from ttl_ms tr (e ∷ es) = do tr' ← observe ttl_ms tr e; check_from ttl_ms tr' es

abbrev pub untouched : Tracking
untouched = record { active = []; last_accepted_fence = 0 }

-- `check`
unfoldable pub check : List Event → ℕ → Checked (Unit {0})
unfolding check_from
check history ttl_ms = do _ ← check_from ttl_ms untouched history; ok tt
