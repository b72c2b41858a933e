-- ===== src/Testing/Checker/Loop.antt =====
-- The loop of `check`, taken apart: a history checked in two parts, and the state that it carries.
use lock_dis.Prelude.{
  ℕ, ◌≤◌, ◌<◌, ◌≡◌, refl, inl, inr, List, [], ◌∷◌, ◌++◌, leb, ◌==◌, arith, ◌≢◌, Bool-cases, leb→le,
  leb→gt, ok, chain-passes,
}
use lock_dis.Testing.Event.{Event, EventKind}
use lock_dis.Testing.Checker.{
  Active, Tracking, retain, dispatch, observe, check_from, check, untouched,
}

-- The state after the first part of a history that passes, and the check of the rest.
pub check_from-append :
    (ttl : ℕ) (tr : Tracking) (xs ys : List Event) {r : Tracking}
    → check_from ttl tr (xs ++ ys) ≡ ok r
    → (mid : Tracking) × (check_from ttl tr xs ≡ ok mid) × (check_from ttl mid ys ≡ ok r)
unfolding check_from
check_from-append ttl tr [] ys h = (tr, refl, h)
check_from-append ttl tr (x ∷ xs) ys h =
    let (tr', first, rest) = chain-passes (observe ttl tr x) _ h in
    let (mid, before, after) = check_from-append ttl tr' xs ys rest in (mid, rw first before, after)

-- One round of a check that passes.
pub check_from-cons :
    (ttl : ℕ) (tr : Tracking) (e : Event) (es : List Event) {r : Tracking}
    → check_from ttl tr (e ∷ es) ≡ ok r
    → (mid : Tracking) × (observe ttl tr e ≡ ok mid) × (check_from ttl mid es ≡ ok r)
unfolding check_from
check_from-cons ttl tr e es h = chain-passes (observe ttl tr e) _ h

-- A history passes when its loop does.
pub check-eq-ok :
    (ttl : ℕ) (xs : List Event)
    → check xs ttl ≡ ok tt
    → (r : Tracking) × (check_from ttl untouched xs ≡ ok r)
unfolding check
check-eq-ok ttl xs h = let (r, e, _) = chain-passes (check_from ttl untouched xs) _ h in (r, e)

-- What a round that passes does to the only hold `h` that can be active: it has expired, its worker
-- releases it, or it stays and the event is no grant.
pub data HoldStep (h : Active) (e : Event) (tr' : Tracking) : Type 0 where
  expired : h.expires_ms ≤ e.t_ms → HoldStep h e tr'
  released : e.kind ≡ EventKind.release_ok → e.worker ≡ h.worker → HoldStep h e tr'
  kept :
      e.t_ms < h.expires_ms
      → e.kind ≢ EventKind.grant
      → (l : ℕ) → tr' ≡ record { active = h ∷ []; last_accepted_fence = l }
      → HoldStep h e tr'

dispatch-HoldStep :
    (ttl : ℕ) (h : Active) (last : ℕ) (e : Event) (k : EventKind) {tr' : Tracking}
    → e.kind ≡ k
    → e.t_ms < h.expires_ms
    → dispatch ttl e k (record { active = h ∷ []; last_accepted_fence = last }) ≡ ok tr'
    → HoldStep h e tr'
unfolding dispatch
dispatch-HoldStep ttl h last e EventKind.grant q lt eq = cc
dispatch-HoldStep ttl h last e EventKind.deny q lt eq =
    kept lt (λ g. ground arith) last (ground arith)
dispatch-HoldStep ttl h last e EventKind.release_ok q lt eq =
    elim (Bool-cases (h.worker == e.worker)) [
      | inl same ↦ released q (ground arith)
      | inr other ↦ ground arith
    ]
dispatch-HoldStep ttl h last e EventKind.release_lost q lt eq =
    kept lt (λ g. ground arith) last (ground arith)
dispatch-HoldStep ttl h last e EventKind.write_accepted q lt eq =
    kept lt (λ g. ground arith) e.fence (ground arith)
dispatch-HoldStep ttl h last e EventKind.write_rejected q lt eq =
    kept lt (λ g. ground arith) last (ground arith)

pub observe-HoldStep :
    (ttl : ℕ) (h : Active) (last : ℕ) (e : Event) {tr' : Tracking}
    → observe ttl (record { active = h ∷ []; last_accepted_fence = last }) e ≡ ok tr'
    → HoldStep h e tr'
unfolding observe retain
observe-HoldStep ttl h last e eq = elim (Bool-cases (leb h.expires_ms e.t_ms)) [
  | inl gone ↦ expired (leb→le _ _ gone)
  | inr here ↦ dispatch-HoldStep ttl h last e e.kind refl (leb→gt _ _ here) (ground arith)
]

-- Accepted fences never fall.
pub observe-last-le :
    (ttl : ℕ) (tr : Tracking) (e : Event) {tr' : Tracking}
    → observe ttl tr e ≡ ok tr'
    → tr.last_accepted_fence ≤ tr'.last_accepted_fence
unfolding observe
observe-last-le ttl tr e eq = ground arith

-- Two parts that pass one after the other pass together.
pub check_from_join :
    (ttl : ℕ) (tr : Tracking) (xs ys : List Event) {mid r : Tracking}
    → check_from ttl tr xs ≡ ok mid
    → check_from ttl mid ys ≡ ok r
    → check_from ttl tr (xs ++ ys) ≡ ok r
unfolding check_from
check_from_join ttl tr [] ys p q = ground (arith)
check_from_join ttl tr (x ∷ xs) ys p q =
    let (tr', first, rest) = chain-passes (observe ttl tr x) _ p in
    rw first (check_from_join ttl tr' xs ys rest q)
