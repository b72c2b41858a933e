-- ===== src/Server/WatchHub/Latest.antt =====
-- A subscriber may miss states that come and go, but never the latest.
use lock_dis.Prelude.{
  ℕ, suc, ◌<◌, ◌≡◌, refl, ap, ◌∙◌, ◌⊎◌, inl, inr, Bool, true, false, Option, none, some, List, [],
  ◌∷◌, ==_iff, Result, ok, err, Bool-cases, arith,
}
use lock_dis.Redis.Manager.{Error}
use lock_dis.Server.WatchHub.{
  LockEvent, transition_event, KeyState, same_state, Watched, HubStep, publish, tell, is_current,
  read_on, hub_step, subscribed,
}

abbrev pub hub_run : Watched → List HubStep → Watched
hub_run w [] = w
hub_run w (x ∷ xs) = hub_run (hub_step w x) xs

-- The state that the last successful probe showed.
abbrev pub latest : KeyState → List HubStep → KeyState
latest k [] = k
latest k (HubStep.probed (ok st) ∷ xs) = latest (some st) xs
latest k (HubStep.probed (err e) ∷ xs) = latest k xs
latest k (HubStep.woken ∷ xs) = latest k xs

abbrev pub newest : List LockEvent → Option LockEvent
newest [] = none
newest (e ∷ es) = some e

abbrev pub event_of : KeyState → Option LockEvent
event_of none = none
event_of (some (held, version)) = some (transition_event held version)

same_state_eq :
    (k : KeyState) (held : Bool) (version : ℕ)
    → same_state k held version ≡ true
    → k ≡ some (held, version)
unfolding same_state
same_state_eq none held version e = cc
same_state_eq (some (true, v)) true version e = ground (arith, ==_iff v version)
same_state_eq (some (true, v)) false version e = cc
same_state_eq (some (false, v)) true version e = cc
same_state_eq (some (false, v)) false version e = ground (arith, ==_iff v version)

-- Nothing is told before a probe succeeded.
abbrev Quiet : KeyState → List LockEvent → Type 0
Quiet none told = told ≡ []
Quiet (some st) told = Unit

-- What was read is older than the broadcast, or is current and was told.
abbrev Tells : KeyState → ℕ → Option ℕ → List LockEvent → Type 0
Tells k version none told = Unit
Tells k version (some v) told = (v < version) ⊎ ((v ≡ version) × (newest told ≡ event_of k))

abbrev Fit : Watched → Type 0
Fit w = Quiet w.current w.told × Tells w.current w.version w.seen w.told

publish-Tells :
    (k next : KeyState) (version : ℕ) (seen : Option ℕ) (told : List LockEvent)
    → Tells k version seen told
    → Tells next (suc version) seen told
publish-Tells k next version none told h = tt
publish-Tells k next version (some v) told (inl lt) = inl (omega arith)
publish-Tells k next version (some v) told (inr (e, _)) = inl (omega arith)

publish-Fit : (w : Watched) (result : Result Error (Bool × ℕ)) → Fit w → Fit (publish w result)
unfolding publish
publish-Fit w (err e) f = f
publish-Fit w (ok (held, version)) f = elim (Bool-cases (same_state w.current held version)) [
  | inl q ↦ simp q f
  | inr q ↦ simp q (tt, publish-Tells w.current (some (held, version)) w.version w.seen w.told f.1)
]

publish_current :
    (w : Watched) (held : Bool) (version : ℕ)
    → (publish w (ok (held, version))).current ≡ some (held, version)
unfolding publish
publish_current w held version = elim (Bool-cases (same_state w.current held version)) [
  | inl q ↦ simp q (same_state_eq w.current held version q)
  | inr q ↦ simp q refl
]

tell-newest :
    (k : KeyState) (told : List LockEvent) → Quiet k told → newest (tell k told) ≡ event_of k
tell-newest none told q = ap newest q
tell-newest (some st) told q = refl

tell-Quiet : (k : KeyState) (told : List LockEvent) → Quiet k told → Quiet k (tell k told)
tell-Quiet none told q = q
tell-Quiet (some st) told q = tt

current_told :
    (k : KeyState) (version : ℕ) (seen : Option ℕ) (told : List LockEvent)
    → Tells k version seen told
    → is_current seen version ≡ true
    → newest told ≡ event_of k
current_told k version none told h e = cc
current_told k version (some v) told (inl lt) e =
    let same : v ≡ version = (==_iff v version).0 e in absurd (omega arith)
current_told k version (some v) told (inr (_, t)) e = t

-- The subscriber's turn leaves it told of what is current.
read_on-Fit :
    (w : Watched)
    → Fit w
    → Fit (read_on w)
      × (newest (read_on w).told ≡ event_of w.current)
      × ((read_on w).current ≡ w.current)
unfolding read_on
read_on-Fit w f = elim (Bool-cases (is_current w.seen w.version)) [
  | inl q ↦ simp q (f, current_told w.current w.version w.seen w.told f.1 q, refl)
  | inr q ↦
      let told = tell-newest w.current w.told f.0 in
      simp q ((tell-Quiet w.current w.told f.0, inr (refl, told)), told, refl)
]

hub_run-latest :
    (w : Watched) (xs : List HubStep)
    → Fit w
    → Fit (hub_run w xs) × ((hub_run w xs).current ≡ latest w.current xs)
unfolding hub_step
hub_run-latest w [] f = (f, refl)
hub_run-latest w (HubStep.woken ∷ xs) f =
    let (fit, _, same) = read_on-Fit w f in
    let (last, e) = hub_run-latest (read_on w) xs fit in (last, e ∙ ap (λ k. latest k xs) same)
hub_run-latest w (HubStep.probed (err e) ∷ xs) f = hub_run-latest w xs f
hub_run-latest w (HubStep.probed (ok (held, version)) ∷ xs) f =
    let next = publish w (ok (held, version)) in
    let (last, e) = hub_run-latest next xs (publish-Fit w (ok (held, version)) f) in
    (last, e ∙ ap (λ k. latest k xs) (publish_current w held version))

-- However probes and wake-ups follow each other, a subscriber that wakes has been told, as its newest
-- event, what the last successful probe showed, or what was known when it subscribed if there was
-- none, and nothing if nothing is known; states between two wake-ups may pass unseen.
pub subscribed-told_latest :
    (known : KeyState) (version : ℕ) (steps : List HubStep)
    → newest (hub_step (hub_run (subscribed known version) steps) HubStep.woken).told
      ≡ event_of (latest known steps)
unfolding hub_step subscribed
subscribed-told_latest known version steps =
    let (fit, e) = hub_run-latest (subscribed known version) steps (nothing known, tt) in
    (read_on-Fit (hub_run (subscribed known version) steps) fit).1 ∙ ap event_of e
  where
    nothing : (k : KeyState) → Quiet k []
    nothing none = refl
    nothing (some st) = tt
