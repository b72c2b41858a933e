-- ===== src/Testing/Passes/Mirror.antt =====
-- What the checker tracks mirrors the simulated store, and each store operation keeps it so.
use lock_dis.Prelude.{
  ℕ, ◌+◌, ◌≤◌, ◌<◌, ◌^◌, ◌≡◌, refl, sym, ap, ◌∙◌, Bool, false, Option, none, some, List, [], ◌∷◌,
  arith, leb, if◌then◌else◌, add64, add64-eq-add, ok,
}
use lock_dis.Testing.Event.{Event, EventKind}
use lock_dis.Testing.Sim.Store.{SimStore, Entry, cas_grant, release, fenced_write}
use lock_dis.Testing.Sim.Worker.{ev, write_kind, release_kind}
use lock_dis.Testing.Checker.{Active, Tracking, retain, observe, dispatch}

-- The hold that the store's entry stands for at a time.
abbrev pub live : ℕ → Option Entry → List Active
live now none = []
live now (some e) =
    if leb e.expires_ms now
    then []
    else record { worker = e.holder; expires_ms = e.expires_ms } ∷ []

-- The checker's slot holds the store's entry, and both know the same last accepted fence.
pub record Mirrors (tr : Tracking) (s : SimStore) : Type 0 where
  pub slot : retain s.now_ms tr.active ≡ live s.now_ms s.entry
  pub last : tr.last_accepted_fence ≡ s.last_accepted_fence

retain-retain : (t u : ℕ) (hs : List Active) → t ≤ u → retain u (retain t hs) ≡ retain u hs
unfolding retain
retain-retain t u [] le = refl
retain-retain t u (h ∷ hs) le = ground (arith, retain-retain t u hs le)

retain-live : (t u : ℕ) (e : Option Entry) → t ≤ u → retain u (live t e) ≡ live u e
unfolding retain
retain-live t u none le = refl
retain-live t u (some e) le = ground arith

-- Time may pass.
pub Mirrors-later :
    {tr : Tracking} {s : SimStore} (now : ℕ)
    → s.now_ms ≤ now
    → Mirrors tr s
    → Mirrors tr (record s { now_ms = now })
Mirrors-later {tr} {s} now le m = record {
  slot =
      sym (retain-retain s.now_ms now tr.active le)
      ∙ (ap (retain now) m.slot ∙ retain-live s.now_ms now s.entry le);
  last = m.last;
}

-- The checker passes an event and mirrors the store after it.
abbrev pub Follows : ℕ → Tracking → Event → SimStore → Type 0
Follows ttl tr e s = (tr' : Tracking) × (observe ttl tr e ≡ ok tr') × Mirrors tr' s

retain-live_self : (t : ℕ) (e : Option Entry) → retain t (live t e) ≡ live t e
retain-live_self t e = retain-live t t e (omega arith)

-- The tracking that mirrors a store exactly.
abbrev exactly : SimStore → Tracking
exactly s = record { active = live s.now_ms s.entry; last_accepted_fence = s.last_accepted_fence }

exactly-Mirrors : (s : SimStore) → Mirrors (exactly s) s
exactly-Mirrors s = record { slot = retain-live_self s.now_ms s.entry; last = refl }

-- An event at the store's time is judged with exactly the store's hold in the slot.
observe-exactly :
    (ttl : ℕ) {tr : Tracking} {s : SimStore} (e : Event)
    → Mirrors tr s
    → e.t_ms ≡ s.now_ms
    → observe ttl tr e ≡ dispatch ttl e e.kind (exactly s)
unfolding observe
observe-exactly ttl e m t = ground (arith, m.slot, m.last)

dispatch_write :
    (ttl w fence now last : ℕ) (entry : Option Entry) (c : ℕ) (a b : Bool)
    → b ≡ false
    → let s : SimStore = record {
      now_ms = now;
      entry = entry;
      fence_counter = c;
      last_accepted_fence = last;
      broken_cas = a;
      broken_fencing = b;
    } in
      dispatch ttl
        (ev s w (write_kind (fenced_write s w fence).0) fence)
        (write_kind (fenced_write s w fence).0)
        (exactly s)
      ≡ ok (exactly (fenced_write s w fence).1)
unfolding dispatch fenced_write ev
dispatch_write ttl w fence now last none c a b q = ground arith
dispatch_write ttl w fence now last (some e) c a b q = ground arith

module _ (ttl w : ℕ) {tr : Tracking} {s : SimStore} (m : Mirrors tr s) where
  -- A write that the resource of a correct run takes or refuses.
  pub write-Follows :
      (fence : ℕ)
      → s.broken_fencing ≡ false
      → Follows ttl tr
          (ev s w (write_kind (fenced_write s w fence).0) fence)
          (fenced_write s w fence).1
  unfolding ev
  write-Follows fence clean = (
    exactly (fenced_write s w fence).1,
    observe-exactly ttl _ m refl
        ∙ dispatch_write ttl w fence s.now_ms s.last_accepted_fence s.entry s.fence_counter
            s.broken_cas s.broken_fencing clean,
    exactly-Mirrors (fenced_write s w fence).1,
  )

-- The entry, if it is worker `w`'s, carries this fence.
abbrev pub Fenced : Option Entry → ℕ → ℕ → Type 0
Fenced none w fence = Unit
Fenced (some e) w fence = e.holder ≡ w → e.fence ≡ fence

dispatch-on_release :
    (ttl w fence now last : ℕ) (entry : Option Entry) (c : ℕ) (a b : Bool)
    → Fenced entry w fence
    → let s : SimStore = record {
      now_ms = now;
      entry = entry;
      fence_counter = c;
      last_accepted_fence = last;
      broken_cas = a;
      broken_fencing = b;
    } in
      dispatch ttl
        (ev s w (release_kind (release s w fence).0) fence)
        (release_kind (release s w fence).0)
        (exactly s)
      ≡ ok (exactly (release s w fence).1)
unfolding dispatch release ev
dispatch-on_release ttl w fence now last none c a b q = refl
dispatch-on_release ttl w fence now last (some e) c a b q = ground arith

dispatch-grant :
    (ttl w now last : ℕ) (entry : Option Entry) (c : ℕ) (a b : Bool) {fence : ℕ}
    → a ≡ false
    → c + 1 < 2 ^ 64
    → let s : SimStore = record {
      now_ms = now;
      entry = entry;
      fence_counter = c;
      last_accepted_fence = last;
      broken_cas = a;
      broken_fencing = b;
    } in
      (cas_grant s w ttl).0 ≡ some fence
      → dispatch ttl (ev s w EventKind.grant fence) EventKind.grant (exactly s)
        ≡ ok (record {
          active = record { worker = w; expires_ms = add64 now ttl } ∷ [];
          last_accepted_fence = last;
        })
unfolding dispatch cas_grant ev
dispatch-grant ttl w now last none c a b clean lt q = ground (arith, add64-eq-add c 1)
dispatch-grant ttl w now last (some e) c a b clean lt q = ground (arith, add64-eq-add c 1)

granted-Mirrors :
    (ttl w : ℕ) (s : SimStore) {fence : ℕ}
    → (cas_grant s w ttl).0 ≡ some fence
    → Mirrors
        (record {
          active = record { worker = w; expires_ms = add64 s.now_ms ttl } ∷ [];
          last_accepted_fence = s.last_accepted_fence;
        })
        (cas_grant s w ttl).1
unfolding cas_grant retain
granted-Mirrors ttl w s q = ground arith

module _ (ttl w : ℕ) {tr : Tracking} {s : SimStore} (m : Mirrors tr s) where
  -- A release whose fence is that of the worker's own entry, if the entry is its.
  pub release-Follows :
      (fence : ℕ)
      → Fenced s.entry w fence
      → Follows ttl tr (ev s w (release_kind (release s w fence).0) fence) (release s w fence).1
  unfolding ev
  release-Follows fence own = (
    exactly (release s w fence).1,
    observe-exactly ttl _ m refl
        ∙ dispatch-on_release ttl w fence s.now_ms s.last_accepted_fence s.entry s.fence_counter
            s.broken_cas s.broken_fencing own,
    exactly-Mirrors (release s w fence).1,
  )

  -- A grant by a store with a working compare-and-set.
  pub grant-Follows :
      (fence : ℕ)
      → s.broken_cas ≡ false
      → s.fence_counter + 1 < 2 ^ 64
      → (cas_grant s w ttl).0 ≡ some fence
      → Follows ttl tr (ev s w EventKind.grant fence) (cas_grant s w ttl).1
  unfolding ev
  grant-Follows fence clean few q = (
    record {
      active = record { worker = w; expires_ms = add64 s.now_ms ttl } ∷ [];
      last_accepted_fence = s.last_accepted_fence;
    },
    observe-exactly ttl _ m refl
        ∙ dispatch-grant ttl w s.now_ms s.last_accepted_fence s.entry s.fence_counter s.broken_cas
            s.broken_fencing clean few q,
    granted-Mirrors ttl w s q,
  )

  -- A refused grant says nothing about the holder.
  pub deny-Follows : Follows ttl tr (ev s w EventKind.deny 0) s
  unfolding ev dispatch
  deny-Follows = (exactly s, observe-exactly ttl _ m refl, exactly-Mirrors s)
