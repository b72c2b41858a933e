-- ===== src/Testing/Checker/Holders.antt =====
-- Where the holds of a history that `check` passes come from: each one from a grant.
use lock_dis.Prelude.{
  ℕ, ◌≤◌, ◌<◌, ◌≡◌, refl, ◌⊎◌, inl, inr, List, [], ◌∷◌, ◌++◌, leb, arith, add64, length, ap,
  Bool-cases, ok,
}
use lock_dis.Testing.Event.{Event, EventKind}
use lock_dis.Testing.Checker.{
  Active, Tracking, retain, dispatch, observe, check_from, check, untouched,
}
use lock_dis.Testing.Checker.Loop.{check_from-append, check_from-cons, check-eq-ok}
use lock_dis.Testing.Checker.Soundness.{ReleasedBy}

-- Worker `w` was granted the lock until `expiry` and has not released it since.
abbrev pub HeldUntil : ℕ → ℕ → ℕ → List Event → Type 0
HeldUntil ttl w expiry [] = ⊥
HeldUntil ttl w expiry (e ∷ es) =
    ((e.kind ≡ EventKind.grant)
      × (e.worker ≡ w)
      × (add64 e.t_ms ttl ≡ expiry)
      × (¬ ReleasedBy w es))
    ⊎ HeldUntil ttl w expiry es

-- What a round that passes does to the slot: a grant fills it, it is emptied, or a hold stays.
data SlotStep (ttl : ℕ) (e : Event) (before after : List Active) : Type 0 where
  acquired :
      e.kind ≡ EventKind.grant
      → after ≡ record { worker = e.worker; expires_ms = add64 e.t_ms ttl } ∷ []
      → SlotStep ttl e before after
  emptied : after ≡ [] → SlotStep ttl e before after
  stays :
      (h : Active)
      → ¬ ((e.kind ≡ EventKind.release_ok) × (e.worker ≡ h.worker))
      → before ≡ h ∷ []
      → after ≡ h ∷ []
      → SlotStep ttl e before after

dispatch_empty :
    (ttl last : ℕ) (e : Event) (k : EventKind) (before : List Active) {tr' : Tracking}
    → e.kind ≡ k
    → dispatch ttl e k (record { active = []; last_accepted_fence = last }) ≡ ok tr'
    → SlotStep ttl e before tr'.active
unfolding dispatch
dispatch_empty ttl last e EventKind.grant before q eq = acquired q (ground arith)
dispatch_empty ttl last e EventKind.release_ok before q eq = cc
dispatch_empty ttl last e EventKind.write_accepted before q eq = cc
dispatch_empty ttl last e _ before q eq = emptied (ground arith)

dispatch_held :
    (ttl last : ℕ) (h : Active) (e : Event) (k : EventKind) {tr' : Tracking}
    → e.kind ≡ k
    → dispatch ttl e k (record { active = h ∷ []; last_accepted_fence = last }) ≡ ok tr'
    → SlotStep ttl e (h ∷ []) tr'.active
unfolding dispatch
dispatch_held ttl last h e EventKind.grant q eq = cc
dispatch_held ttl last h e EventKind.release_ok q eq = emptied (ground arith)
dispatch_held ttl last h e EventKind.deny q eq = stays h (λ r. ground arith) refl (ground arith)
dispatch_held ttl last h e _ q eq = stays h (λ r. ground arith) refl (ground arith)

observe_empty :
    (ttl last : ℕ) (e : Event) {tr' : Tracking}
    → observe ttl (record { active = []; last_accepted_fence = last }) e ≡ ok tr'
    → SlotStep ttl e [] tr'.active
unfolding observe retain
observe_empty ttl last e eq = dispatch_empty ttl last e e.kind [] refl eq

observe_held :
    (ttl last : ℕ) (h : Active) (e : Event) {tr' : Tracking}
    → observe ttl (record { active = h ∷ []; last_accepted_fence = last }) e ≡ ok tr'
    → SlotStep ttl e (h ∷ []) tr'.active
unfolding observe retain
observe_held ttl last h e eq = elim (Bool-cases (leb h.expires_ms e.t_ms)) [
  | inl gone ↦ dispatch_empty ttl last e e.kind (h ∷ []) refl (rw gone at eq)
  | inr here ↦ dispatch_held ttl last h e e.kind refl (rw here at eq)
]

-- The slot after a history: empty, or a hold granted in it, or the hold that it began with.
data SlotAfter (ttl : ℕ) (xs : List Event) (before after : List Active) : Type 0 where
  vacant : after ≡ [] → SlotAfter ttl xs before after
  granted :
      (h : Active)
      → after ≡ h ∷ []
      → HeldUntil ttl h.worker h.expires_ms xs
      → SlotAfter ttl xs before after
  same :
      (h : Active)
      → after ≡ h ∷ []
      → before ≡ h ∷ []
      → ¬ ReleasedBy h.worker xs
      → SlotAfter ttl xs before after

SlotAfter-step :
    {ttl : ℕ} {e : Event} {xs : List Event} {before mid after : List Active}
    → SlotStep ttl e before mid
    → SlotAfter ttl xs mid after
    → SlotAfter ttl (e ∷ xs) before after
SlotAfter-step st (vacant a) = vacant a
SlotAfter-step st (granted h a held) = granted h a (inr held)
SlotAfter-step (acquired k m) (same h a b free) =
    granted h a (inl (k, ground arith, ground arith, free))
SlotAfter-step (emptied m) (same h a b free) = absurd (ground arith)
SlotAfter-step (stays h' n b m) (same h a b' free) =
    same h a (ground arith)
      λ r. elim r [ inl here ↦ n (here.0, ground arith) | inr later ↦ free later ]

observe-SlotStep :
    (ttl last : ℕ) (before : List Active) (e : Event) {tr' : Tracking}
    → length before ≤ 1
    → observe ttl (record { active = before; last_accepted_fence = last }) e ≡ ok tr'
    → SlotStep ttl e before tr'.active
observe-SlotStep ttl last [] e le eq = observe_empty ttl last e eq
observe-SlotStep ttl last (h ∷ []) e le eq = observe_held ttl last h e eq
observe-SlotStep ttl last (h ∷ k ∷ hs) e le eq = absurd (omega arith)

SlotStep-length :
    {ttl : ℕ} {e : Event} {before after : List Active}
    → SlotStep ttl e before after
    → length after ≤ 1
SlotStep-length (acquired k a) = omega (arith, ap length a)
SlotStep-length (emptied a) = omega (arith, ap length a)
SlotStep-length (stays h n b a) = omega (arith, ap length a)

check_from-SlotAfter :
    (ttl last : ℕ) (xs : List Event) (before : List Active) {r : Tracking}
    → length before ≤ 1
    → check_from ttl (record { active = before; last_accepted_fence = last }) xs ≡ ok r
    → SlotAfter ttl xs before r.active
unfolding check_from
check_from-SlotAfter ttl last [] [] le eq = vacant (ground arith)
check_from-SlotAfter ttl last [] (h ∷ []) le eq = same h (ground arith) refl (λ x. x)
check_from-SlotAfter ttl last [] (h ∷ k ∷ hs) le eq = absurd (omega arith)
check_from-SlotAfter ttl last (x ∷ xs) before le eq =
    let (mid, first, rest) = check_from-cons ttl _ x xs eq in
    let st = observe-SlotStep ttl last before x le first in
    SlotAfter-step st
      (check_from-SlotAfter ttl mid.last_accepted_fence xs mid.active (SlotStep-length st) rest)

-- An accepted write finds a hold of its worker that has not expired.
observe-write-held :
    (ttl : ℕ) (tr : Tracking) (h : Active) (e : Event) {tr' : Tracking}
    → e.kind ≡ EventKind.write_accepted
    → tr.active ≡ h ∷ []
    → observe ttl tr e ≡ ok tr'
    → (h.worker ≡ e.worker) × (e.t_ms < h.expires_ms)
unfolding observe
observe-write-held ttl tr h e kind a eq = ground arith

observe-write-vacant :
    (ttl : ℕ) (tr : Tracking) (e : Event) {tr' : Tracking}
    → e.kind ≡ EventKind.write_accepted
    → tr.active ≡ []
    → observe ttl tr e ≡ ok tr'
    → ⊥
unfolding observe
observe-write-vacant ttl tr e kind a eq = ground arith

-- In a history that passes the check, a write is accepted only from a worker that was granted the
-- lock, has not released it since, and whose lease has not run out at the time of the write.
pub check-write_held :
    (ttl : ℕ) (xs zs : List Event) (e : Event)
    → check (xs ++ (e ∷ zs)) ttl ≡ ok tt
    → e.kind ≡ EventKind.write_accepted
    → (expiry : ℕ) × HeldUntil ttl e.worker expiry xs × (e.t_ms < expiry)
check-write_held ttl xs zs e eq kind =
    let (r, passed) = check-eq-ok ttl (xs ++ (e ∷ zs)) eq in
    let (mid, before, rest) = check_from-append ttl untouched xs (e ∷ zs) passed in
    let (tr, now, _) = check_from-cons ttl mid e zs rest in
    go mid tr (check_from-SlotAfter ttl 0 xs [] (omega arith) before) now
  where
    go :
        (mid tr : Tracking)
        → SlotAfter ttl xs [] mid.active
        → observe ttl mid e ≡ ok tr
        → (expiry : ℕ) × HeldUntil ttl e.worker expiry xs × (e.t_ms < expiry)
    go mid tr (vacant a) now = absurd (observe-write-vacant ttl mid e kind a now)
    go mid tr (granted h a held) now =
        let (w, lt) = observe-write-held ttl mid h e kind a now in (h.expires_ms, rw (← w) held, lt)
    go mid tr (same h a b free) now = cc
