-- ===== src/Testing/Passes/Turn.antt =====
-- One turn of a worker: what the checker makes of its events, and what it does to the clocks.
use lock_dis.Prelude.{
  ℕ, ◌+◌, ◌*◌, ◌≤◌, ◌<◌, ◌^◌, ◌≡◌, ◌≢◌, ◌⊎◌, refl, ◌∙◌, inl, inr, false, Option, none, some, [],
  ◌∷◌, arith, Bool-cases, add64, All, ok,
}
use lock_dis.Testing.Event.{Event, EventKind}
use lock_dis.Testing.Sim.Rng.{Rng}
use lock_dis.Testing.Sim.Store.{blocked, SimStore, Entry, cas_grant, release, fenced_write, valid}
use lock_dis.Testing.Sim.Worker.{State, Turn, ev, write_kind, release_kind}
use lock_dis.Testing.Sim.Run.{is_done}
use lock_dis.Testing.Checker.{Tracking, check_from}
use lock_dis.Testing.Passes.Mirror.{Mirrors, Follows, Fenced, write-Follows, release-Follows}

-- The most that one turn adds to a clock.
abbrev pub stride : ℕ → ℕ
stride ttl = 2 * ttl + 20

-- The entry, if it is worker `w`'s, has this fence and expires by `limit`.
abbrev pub Leased : Option Entry → ℕ → ℕ → ℕ → Type 0
Leased none w fence limit = Unit
Leased (some e) w fence limit = e.holder ≡ w → (e.fence ≡ fence) × (e.expires_ms ≤ limit)

-- What a worker's state and its wake-up time have to do with the store's entry.
abbrev pub Fits : ℕ → Option Entry → ℕ → State → ℕ → Type 0
Fits ttl entry w (State.holding fence release_at will_pause budget) wake =
    Leased entry w fence (release_at + ttl) × (release_at ≤ wake + ttl + 5)
Fits ttl entry w (State.paused fence budget) wake = Leased entry w fence wake
Fits ttl entry w _ wake = Unit

-- What holds when worker `w` takes its turn.
pub record Ready (ttl w : ℕ) (st : State) (wake : ℕ) (s : SimStore) (tr : Tracking) : Type 0 where
  pub due : s.now_ms ≡ wake
  pub cas : s.broken_cas ≡ false
  pub fencing : s.broken_fencing ≡ false
  pub in_range : wake + stride ttl < 2 ^ 64
  pub few : s.fence_counter + 1 < 2 ^ 64
  pub fits : Fits ttl s.entry w st wake
  pub mirrors : Mirrors tr s

-- What a turn leaves behind.
pub record Sound (ttl w wake : ℕ) (s : SimStore) (tr : Tracking) (t : Turn) : Type 0 where
  pub clock : t.store.now_ms ≡ s.now_ms
  pub cas : t.store.broken_cas ≡ false
  pub fencing : t.store.broken_fencing ≡ false
  pub counter : t.store.fence_counter ≤ s.fence_counter + 1
  pub woken : is_done t.state ≡ false → (s.now_ms ≤ t.wake) × (t.wake ≤ wake + stride ttl)
  pub fits : Fits ttl t.store.entry w t.state t.wake
  pub others :
      (v fence limit : ℕ)
      → v ≢ w
      → Leased s.entry v fence limit
      → Leased t.store.entry v fence limit
  pub stamped : All (λ e. e.t_ms ≡ s.now_ms) t.events
  pub checked : (tr' : Tracking) × (check_from ttl tr t.events ≡ ok tr') × Mirrors tr' t.store

pub check_one :
    (ttl : ℕ) (tr : Tracking) (e : Event) {s : SimStore}
    → Follows ttl tr e s
    → (tr' : Tracking) × (check_from ttl tr (e ∷ []) ≡ ok tr') × Mirrors tr' s
unfolding check_from
check_one ttl tr e (tr', q, m) = (tr', rw q, m)

check_two :
    (ttl : ℕ) (tr : Tracking) (d e : Event) {s u : SimStore}
    → Follows ttl tr d s
    → ((tr' : Tracking) → Mirrors tr' s → Follows ttl tr' e u)
    → (tr' : Tracking) × (check_from ttl tr (d ∷ e ∷ []) ≡ ok tr') × Mirrors tr' u
unfolding check_from
check_two ttl tr d e (tr₁, q₁, m₁) next = let (tr₂, q₂, m₂) = next tr₁ m₁ in (tr₂, rw (q₁, q₂), m₂)

-- A turn that emits nothing and leaves the store alone.
module _ {ttl w wake : ℕ} {st : State} {s : SimStore} {tr : Tracking}
    (r : Ready ttl w st wake s tr) where
  pub quiet :
      (st' : State) (wake' : ℕ) (rng : Rng)
      → (is_done st' ≡ false → (s.now_ms ≤ wake') × (wake' ≤ wake + stride ttl))
      → Fits ttl s.entry w st' wake'
      → Sound ttl w wake s tr
          (record { state = st'; wake = wake'; store = s; rng = rng; events = [] })
  unfolding check_from
  quiet st' wake' rng woken fits = record {
    clock = refl;
    cas = r.cas;
    fencing = r.fencing;
    counter = omega arith;
    woken = woken;
    fits = fits;
    others = λ v fence limit n l. l;
    stamped = tt;
    checked = (tr, refl, r.mirrors);
  }

-- `fenced_write` touches the last accepted fence alone.
fenced_write_keeps :
    (s : SimStore) (w fence : ℕ)
    → ((fenced_write s w fence).1.now_ms ≡ s.now_ms)
      × ((fenced_write s w fence).1.entry ≡ s.entry)
      × ((fenced_write s w fence).1.broken_cas ≡ s.broken_cas)
      × ((fenced_write s w fence).1.broken_fencing ≡ s.broken_fencing)
      × ((fenced_write s w fence).1.fence_counter ≡ s.fence_counter)
unfolding fenced_write
fenced_write_keeps s w fence = ground arith

-- `release` touches the entry alone, and at most clears it.
release_keeps :
    (s : SimStore) (w fence : ℕ)
    → ((release s w fence).1.now_ms ≡ s.now_ms)
      × ((release s w fence).1.broken_cas ≡ s.broken_cas)
      × ((release s w fence).1.broken_fencing ≡ s.broken_fencing)
      × ((release s w fence).1.fence_counter ≡ s.fence_counter)
unfolding release
release_keeps s w fence = ground arith

release-Leased :
    (s : SimStore) (w fence v f limit : ℕ)
    → Leased s.entry v f limit
    → Leased (release s w fence).1.entry v f limit
unfolding release
release-Leased s w fence v f limit l = elim (Bool-cases (valid s.entry w fence s.now_ms)) [
  | inl e ↦ rw e tt
  | inr e ↦ rw e l
]

Leased-Fenced :
    (entry : Option Entry) (w fence limit : ℕ) → Leased entry w fence limit → Fenced entry w fence
Leased-Fenced none w fence limit l = tt
Leased-Fenced (some e) w fence limit l = λ h. (l h).0

-- The write and the release with which a hold ends.
module _ {ttl w wake : ℕ} {st : State} {s : SimStore} {tr : Tracking}
    (r : Ready ttl w st wake s tr) where
  pub ending :
      (fence limit wake' budget : ℕ) (rng : Rng) (kind : EventKind)
      → Leased s.entry w fence limit
      → s.now_ms ≤ wake'
      → wake' ≤ wake + stride ttl
      → kind ≡ release_kind (release (fenced_write s w fence).1 w fence).0
      → Sound ttl w wake s tr (record {
        state = State.idle budget;
        wake = wake';
        store = (release (fenced_write s w fence).1 w fence).1;
        rng = rng;
        events =
            ev s w (write_kind (fenced_write s w fence).0) fence
            ∷ ev (fenced_write s w fence).1 w kind fence
            ∷ [];
      })
  unfolding ev
  ending fence limit wake' budget rng kind l lo hi q = record {
    clock = freed.0 ∙ kept.0;
    cas = freed.1 ∙ (kept.2 ∙ r.cas);
    fencing = freed.2 ∙ (kept.3 ∙ r.fencing);
    counter = omega (arith, freed.3, kept.4);
    woken = λ _. (lo, hi);
    fits = tt;
    others = λ v f lim n l'. release-Leased written w fence v f lim (rw kept.1 l');
    stamped = (refl, (kept.0, tt));
    checked = check_two ttl tr _ _ (write-Follows ttl w r.mirrors fence r.fencing) λ tr' m'.
        rw q (release-Follows ttl w m' fence (rw kept.1 (Leased-Fenced s.entry w fence limit l)));
  }
    where
      written : SimStore
      written = (fenced_write s w fence).1

      kept :
          (written.now_ms ≡ s.now_ms)
          × (written.entry ≡ s.entry)
          × (written.broken_cas ≡ s.broken_cas)
          × (written.broken_fencing ≡ s.broken_fencing)
          × (written.fence_counter ≡ s.fence_counter)
      kept = fenced_write_keeps s w fence

      freed :
          ((release written w fence).1.now_ms ≡ written.now_ms)
          × ((release written w fence).1.broken_cas ≡ written.broken_cas)
          × ((release written w fence).1.broken_fencing ≡ written.broken_fencing)
          × ((release written w fence).1.fence_counter ≡ written.fence_counter)
      freed = release_keeps written w fence

-- The store after a grant.
abbrev pub granted : ℕ → ℕ → SimStore → SimStore
granted ttl w s = record s {
  fence_counter = add64 s.fence_counter 1;
  entry =
      some
        (record { holder = w; expires_ms = add64 s.now_ms ttl; fence = add64 s.fence_counter 1 });
}

-- The two results of `cas_grant`: a refusal that changes nothing, or a grant.
pub cas_grant_cases :
    (ttl w : ℕ) (s : SimStore)
    → (cas_grant s w ttl ≡ (none, s))
      ⊎ (cas_grant s w ttl ≡ (some (add64 s.fence_counter 1), granted ttl w s))
unfolding cas_grant
cas_grant_cases ttl w s = elim (Bool-cases (blocked s s.entry)) [
  | inl e ↦ inl (rw e)
  | inr e ↦ inr (rw e)
]
