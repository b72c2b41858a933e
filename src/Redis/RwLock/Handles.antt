-- ===== src/Redis/RwLock/Handles.antt =====
-- A read guard that is dropped, not released, while others read.
use lock_dis.Prelude.{
  ℕ, suc, ◌+◌, ◌<◌, ◌^◌, ◌≡◌, refl, ap, ◌∙◌, true, false, none, some, String, List, [], ◌∷◌, arith,
}
use lock_dis.Redis.Server.{Redis, is_some}
use lock_dis.Redis.Mutex.{fence_key_for}
use lock_dis.Redis.Mutex.Effects.{fence_key_for-ne}
use lock_dis.Redis.Mutex.Lease.{at}
use lock_dis.Redis.Manager.{Link, call}
use lock_dis.Redis.RwLock.{RwHandle, mark_gone, reader_field, rw_read_release, read_release, drop}
use lock_dis.Redis.RwLock.Spec.{Mode, Op, RwState, member, without, remaining, promise, step}
use lock_dis.Redis.RwLock.Fields.{encode, is_some-encode}
use lock_dis.Redis.RwLock.Refines.{SoundNow, Shows, perform-Agrees}
use lock_dis.Redis.Slot.{field_of, hget-at, exists-at}

at-now :
    {A : Type 0} (now : ℕ) (a : A) → at now (some (record { value = a; deadline = now + 0 })) ≡ none
at-now now a = ground arith

remaining-none :
    (l : RwState) (now : ℕ) (ts : List String) → at now (remaining l (now + 0) ts).0.mode ≡ none
remaining-none l now [] = refl
remaining-none l now (t ∷ ts) = at-now now (Mode.reading (t ∷ ts))

remaining-some :
    (l : RwState) (now ttl : ℕ) (other : String) (ts : List String)
    → member other ts ≡ true
    → 0 < ttl
    → at now (remaining l (now + ttl) ts).0.mode ≡ some (Mode.reading ts)
remaining-some l now ttl other [] m pos = cc
remaining-some l now ttl other (t ∷ ts) m pos = ground arith

module _ (r : Redis) (s : r.Store) (now : ℕ) (l : RwState) (h : RwHandle) where
  -- The handle's token reads.
  abbrev pub ReadsNow : List String → Type 0
  ReadsNow ts =
      Shows r h.key (fence_key_for h.key) (fence_key_for-ne h.key) s now l
      × (at now l.mode ≡ some (Mode.reading ts))
      × SoundNow (at now l.mode) l.grants
      × (member h.token ts ≡ true)

  released-Shows :
      (ts : List String) (ttl : ℕ)
      → ReadsNow ts
      → suc l.grants < 2 ^ 63
      → Shows r h.key
          (fence_key_for h.key)
          (fence_key_for-ne h.key)
          (rw_read_release r s now h.key h.token ttl).0
          now
          (remaining l (now + ttl) (without h.token ts)).0
  unfolding step promise
  released-Shows ts ttl (sh, held, sound, m) room =
      rw (held, m) at
        (perform-Agrees r h.key (fence_key_for h.key) (fence_key_for-ne h.key) s now l
          (Op.read_release h.token ttl) sh sound room).0

  drop-store :
      h.gone ≡ false
      → h.write_mode ≡ false
      → (drop r Link.up s now h).0 ≡ (rw_read_release r s now h.key h.token 0).0
  unfolding drop mark_gone call
  drop-store live reader = simp (live, reader) refl

  read_release-store :
      h.gone ≡ false
      → (read_release r Link.up s now h).0 ≡ (rw_read_release r s now h.key h.token h.ttl).0
  unfolding read_release mark_gone call
  read_release-store live = simp live refl

  -- A read guard that is dropped while it is in use takes the lock from all the other readers, at
  -- once; one that is released leaves the others registered, if its lease time is positive.
  pub drop-ends_all :
      (ts : List String) (other : String)
      → ReadsNow ts
      → h.gone ≡ false
      → h.write_mode ≡ false
      → member other (without h.token ts) ≡ true
      → 0 < h.ttl
      → suc l.grants < 2 ^ 63
      → (r.exists (drop r Link.up s now h).0 now h.key ≡ false)
        × (is_some (r.hget (read_release r Link.up s now h).0 now h.key (reader_field other))
            ≡ true)
  drop-ends_all ts other reads live reader m pos room =
      let fk = fence_key_for h.key in
      let ne = fence_key_for-ne h.key in
      let others = without h.token ts in
      let l₀ = (remaining l (now + 0) others).0 in
      let l₁ = (remaining l (now + h.ttl) others).0 in
      let sh₀ = released-Shows ts 0 reads room in
      let sh₁ = released-Shows ts h.ttl reads room in
      (
        rw (drop-store live reader) (
            exists-at encode r h.key fk ne (rw_read_release r s now h.key h.token 0).0 now l₀.grants
              l₀.mode sh₀
            ∙ ap is_some (remaining-none l now others)),
        rw (read_release-store live) (
            ap is_some (
              hget-at encode r h.key fk ne (rw_read_release r s now h.key h.token h.ttl).0 now
                l₁.grants l₁.mode (reader_field other) sh₁
              ∙ ap (λ o. field_of encode o (reader_field other))
                  (remaining-some l now h.ttl other others m pos))
            ∙ (is_some-encode other others ∙ m)),
      )
