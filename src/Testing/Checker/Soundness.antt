-- ===== src/Testing/Checker/Soundness.antt =====
-- What a history that `check` passes is known to satisfy, said of the events alone.
use lock_dis.Prelude.{
  ℕ, ◌≤◌, ◌<◌, ◌≡◌, ◌≢◌, ◌⊎◌, inl, inr, List, [], ◌∷◌, ◌++◌, arith, add64, All, ok,
}
use lock_dis.Testing.Event.{Event, EventKind}
use lock_dis.Testing.Checker.{Active, Tracking, observe, check_from, check, untouched}
use lock_dis.Testing.Checker.Loop.{
  HoldStep, expired, released, kept, observe-HoldStep, observe-last-le, check_from-append,
  check_from-cons, check-eq-ok,
}

-- Worker `w` releases the lock, in time, at some event.
abbrev pub ReleasedBy : ℕ → List Event → Type 0
ReleasedBy w [] = ⊥
ReleasedBy w (e ∷ es) = ((e.kind ≡ EventKind.release_ok) × (e.worker ≡ w)) ⊎ ReleasedBy w es

-- No event is later than `t`.
abbrev pub NotAfter : ℕ → List Event → Type 0
NotAfter t = All (λ e. e.t_ms ≤ t)

-- With `h` the only hold, the next grant comes after its expiry or its release.
next_grant :
    (ttl : ℕ) (h : Active) (last : ℕ) (ys zs : List Event) (g : Event) {r : Tracking}
    → check_from ttl (record { active = h ∷ []; last_accepted_fence = last }) (ys ++ g ∷ zs) ≡ ok r
    → g.kind ≡ EventKind.grant
    → NotAfter g.t_ms ys
    → (h.expires_ms ≤ g.t_ms) ⊎ ReleasedBy h.worker ys
next_grant ttl h last [] zs g eq kind before =
    let (tr, first, _) = check_from-cons ttl _ g zs eq in go (observe-HoldStep ttl h last g first)
  where
    go : {tr : Tracking} → HoldStep h g tr → (h.expires_ms ≤ g.t_ms) ⊎ ReleasedBy h.worker []
    go (expired le) = inl le
    go (released k _) = ground arith
    go (kept _ n _ _) = absurd (n kind)
next_grant ttl h last (y ∷ ys) zs g {r} eq kind before =
    let (tr, first, rest) = check_from-cons ttl _ y (ys ++ g ∷ zs) eq in
    go (observe-HoldStep ttl h last y first) (λ l q. next_grant ttl h l ys zs g q kind before.1)
      rest
  where
    go :
        {tr : Tracking}
        → HoldStep h y tr
        → ((l : ℕ)
            → check_from ttl (record { active = h ∷ []; last_accepted_fence = l }) (ys ++ g ∷ zs)
              ≡ ok r
            → (h.expires_ms ≤ g.t_ms) ⊎ ReleasedBy h.worker ys)
        → check_from ttl tr (ys ++ g ∷ zs) ≡ ok r
        → (h.expires_ms ≤ g.t_ms) ⊎ ReleasedBy h.worker (y ∷ ys)
    go (expired le) ih rest = inl (omega (arith, before.0))
    go (released k w) ih rest = inr (inl (k, w))
    go (kept _ _ l a) ih rest = elim (ih l (rw a at rest)) [
      | inl le ↦ inl le
      | inr re ↦ inr (inr re)
    ]

observe-grant :
    (ttl : ℕ) (tr : Tracking) (g : Event) {tr' : Tracking}
    → g.kind ≡ EventKind.grant
    → observe ttl tr g ≡ ok tr'
    → (tr' ≡ record {
      active = record { worker = g.worker; expires_ms = add64 g.t_ms ttl } ∷ [];
      last_accepted_fence = tr.last_accepted_fence;
    })
      × (g.fence ≢ 0)
unfolding observe
observe-grant ttl tr g kind eq = ground arith

-- In a history that passes the check, of two grants in order of time the second comes when the
-- first one's lease has run out, or after its worker has released the lock.
pub check-exclusion :
    (ttl : ℕ) (xs ys zs : List Event) (g h : Event)
    → check (xs ++ (g ∷ (ys ++ h ∷ zs))) ttl ≡ ok tt
    → g.kind ≡ EventKind.grant
    → h.kind ≡ EventKind.grant
    → NotAfter h.t_ms ys
    → (add64 g.t_ms ttl ≤ h.t_ms) ⊎ ReleasedBy g.worker ys
check-exclusion ttl xs ys zs g h eq kg kh before =
    let (r, passed) = check-eq-ok ttl (xs ++ (g ∷ (ys ++ h ∷ zs))) eq in
    let (mid, _, rest) = check_from-append ttl untouched xs (g ∷ (ys ++ h ∷ zs)) passed in
    let (tr, granted, after) = check_from-cons ttl mid g (ys ++ h ∷ zs) rest in
    next_grant ttl (record { worker = g.worker; expires_ms = add64 g.t_ms ttl })
      mid.last_accepted_fence ys zs h (rw (observe-grant ttl mid g kg granted).0 at after) kh before

check_from-last-le :
    (ttl : ℕ) (tr : Tracking) (es : List Event) {r : Tracking}
    → check_from ttl tr es ≡ ok r
    → tr.last_accepted_fence ≤ r.last_accepted_fence
unfolding check_from
check_from-last-le ttl tr [] eq = ground arith
check_from-last-le ttl tr (e ∷ es) eq =
    let (mid, first, rest) = check_from-cons ttl tr e es eq in
    omega (arith, observe-last-le ttl tr e first, check_from-last-le ttl mid es rest)

observe-write :
    (ttl : ℕ) (tr : Tracking) (e : Event) {tr' : Tracking}
    → e.kind ≡ EventKind.write_accepted
    → observe ttl tr e ≡ ok tr'
    → (tr.last_accepted_fence < e.fence) × (tr'.last_accepted_fence ≡ e.fence)
unfolding observe
observe-write ttl tr e kind eq = ground arith

-- In a history that passes the check, a write accepted later has the larger fence.
pub check-fences_increase :
    (ttl : ℕ) (xs ys zs : List Event) (a b : Event)
    → check (xs ++ (a ∷ (ys ++ b ∷ zs))) ttl ≡ ok tt
    → a.kind ≡ EventKind.write_accepted
    → b.kind ≡ EventKind.write_accepted
    → a.fence < b.fence
check-fences_increase ttl xs ys zs a b eq ka kb =
    let (r, passed) = check-eq-ok ttl (xs ++ (a ∷ (ys ++ b ∷ zs))) eq in
    let (mid, _, rest) = check_from-append ttl untouched xs (a ∷ (ys ++ b ∷ zs)) passed in
    let (tr, first, after) = check_from-cons ttl mid a (ys ++ b ∷ zs) rest in
    let (tr₂, between, last) = check_from-append ttl tr ys (b ∷ zs) after in
    let (tr₃, second, _) = check_from-cons ttl tr₂ b zs last in
    omega (
      arith,
      observe-write ttl mid a ka first,
      check_from-last-le ttl tr ys between,
      observe-write ttl tr₂ b kb second,
    )
