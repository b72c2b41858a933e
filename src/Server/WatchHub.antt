-- ===== src/Server/WatchHub.antt =====
-- crates/server/src/watch_hub.rs: one key's broadcast and a subscriber to it. The poller probes the
-- key and publishes a state that is new; the subscriber's task reads the state that is current when
-- it wakes. The broadcast's version, which the channel counts, tells whether there is something new.
-- The table of keys, in which a poller without subscribers retires, is left out.
pub mod Latest
mod Examples
use lock_dis.Prelude.{
  ℕ, suc, Bool, true, false, ◌&&◌, not, Option, none, some, List, [], ◌∷◌, if◌then◌else◌, ◌==◌,
  Result, ok, err,
}
use lock_dis.Redis.Manager.{Error}

pub data LockEvent : Type 0 where
  acquired freed : (version : ℕ) → LockEvent

unfoldable pub transition_event : Bool → ℕ → LockEvent
transition_event held version = if held then LockEvent.acquired version else LockEvent.freed version

abbrev pub KeyState : Type 0
KeyState = Option (Bool × ℕ)

abbrev pub same_bool : Bool → Bool → Bool
same_bool true b = b
same_bool false b = not b

-- `*cur != Some(state)`, negated
unfoldable pub same_state : KeyState → Bool → ℕ → Bool
same_state none held version = false
same_state (some (h, v)) held version = same_bool h held && (v == version)

-- The broadcast and the subscriber: what it has read last, if anything, and the events that it was
-- sent, the newest first.
pub record Watched : Type 0 where
  pub current : KeyState
  pub version : ℕ
  pub seen : Option ℕ
  pub told : List LockEvent

pub data HubStep : Type 0 where
  probed : Result Error (Bool × ℕ) → HubStep
  woken : HubStep

-- The poller's turn
unfoldable pub publish : Watched → Result Error (Bool × ℕ) → Watched
unfolding same_state
publish w (err e) = w
publish w (ok (held, version)) =
    if same_state w.current held version
    then w
    else record w { current = some (held, version); version = suc w.version }

abbrev pub tell : KeyState → List LockEvent → List LockEvent
tell none told = told
tell (some (held, version)) told = transition_event held version ∷ told

abbrev pub is_current : Option ℕ → ℕ → Bool
is_current none version = false
is_current (some v) version = v == version

-- The subscriber's turn: its first one reads what there is, each later one waits for a change.
unfoldable pub read_on : Watched → Watched
unfolding transition_event
read_on w =
    if is_current w.seen w.version
    then w
    else record w { seen = some w.version; told = tell w.current w.told }

unfoldable pub hub_step : Watched → HubStep → Watched
unfolding publish read_on
hub_step w (HubStep.probed result) = publish w result
hub_step w HubStep.woken = read_on w

-- A new subscriber to a broadcast.
unfoldable pub subscribed : KeyState → ℕ → Watched
subscribed current version = record { current = current; version = version; seen = none; told = [] }
