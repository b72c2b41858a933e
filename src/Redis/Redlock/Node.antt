-- ===== src/Redis/Redlock/Node.antt =====
-- One node of the ring: whom it grants, and what its key shows afterwards.
use lock_dis.Prelude.{
  ℕ, ◌+◌, ◌≤◌, ◌<◌, ◌≡◌, ◌≢◌, sym, ap, ◌∙◌, inl, inr, true, false, Option, none, some, String, ltb,
  same_refl, same_ne, arith, Bool-cases, Option-cases,
}
use lock_dis.Redis.Server.{Redis, Value, is_some, as_text, IsCounter}
use lock_dis.Redis.Mutex.{fence_key_for, is_token, issue_fence, acquire}
use lock_dis.Redis.Manager.Freed.{is_token-same}
use lock_dis.Redis.Mutex.Effects.{fence_key_for-ne, issue_fence-read}

module _ (r : Redis) (s : r.Store) (now : ℕ) (key : String) where
  open r use {Store, read, get, set_nx_px, pexpire, incr}

  taken : (v : String) → get s now key ≡ some v → is_some (read s now key) ≡ true
  taken v e = elim (Option-cases (read s now key)) [
    | inl z ↦ absurd (never (sym e ∙ r.get-reply s now key ∙ ap as_text z))
    | inr (x, z) ↦ rw z
  ]
    where
      never : ◌≡◌ {A = Option String} (some v) none → ⊥
      never h = cc

  set_kept :
      (token : String) (ttl : ℕ)
      → is_some (read s now key) ≡ true
      → ((set_nx_px s now key token ttl).1 ≡ false)
        × (get (set_nx_px s now key token ttl).0 now key ≡ get s now key)
  set_kept token ttl held = (
    r.set_nx_px-reply s now key token ttl ∙ rw held,
    r.get-reply (set_nx_px s now key token ttl).0 now key
        ∙ ap as_text (r.set_nx_px-read s now key token ttl now key (omega arith) ∙ rw held)
        ∙ sym (r.get-reply s now key),
  )

  -- A node that shows another token refuses.
  pub acquire-refused :
      (fence_key token v : String) (ttl fence_ttl : ℕ)
      → get s now key ≡ some v
      → v ≢ token
      → (acquire r s now key fence_key token ttl fence_ttl).1 ≡ record { status = 0; fence = 0 }
  unfolding acquire
  acquire-refused fk token v ttl fttl e n =
      let (set, got) = set_kept token ttl (taken v e) in rw (set, got, e, same_ne v token n)

  -- What the key shows after the fence of a grant is issued.
  issue_fence-keeps :
      (s' : Store) (fence_ttl status t : ℕ)
      → IsCounter (read s' now (fence_key_for key))
      → now ≤ t
      → read (issue_fence r s' now (fence_key_for key) fence_ttl status).0 t key ≡ read s' t key
  issue_fence-keeps s' fttl status t c le =
      issue_fence-read r s' now (fence_key_for key) fttl status t key c le
      ∙ rw (same_ne (fence_key_for key) key (λ e. fence_key_for-ne key (sym e)))

  counter_kept :
      (token : String) (ttl : ℕ)
      → read (set_nx_px s now key token ttl).0 now (fence_key_for key)
        ≡ read s now (fence_key_for key)
  counter_kept token ttl =
      r.set_nx_px-read s now key token ttl now (fence_key_for key) (omega arith)
      ∙ elim (Bool-cases (is_some (read s now key))) [
        | inl e ↦ rw e
        | inr e ↦ rw (e, same_ne key (fence_key_for key) (fence_key_for-ne key))
      ]

  -- A node that grants shows the token for the whole lease time.
  pub acquire-shows :
      (token : String) (ttl fence_ttl t : ℕ)
      → IsCounter (read s now (fence_key_for key))
      → (acquire r s now key (fence_key_for key) token ttl fence_ttl).1.status ≢ 0
      → now ≤ t
      → t < now + ttl
      → read (acquire r s now key (fence_key_for key) token ttl fence_ttl).0 t key
        ≡ some (Value.text token)
  unfolding acquire
  acquire-shows token ttl fttl t c granted le lt =
      let s₁ = (set_nx_px s now key token ttl).0 in
      let early : ltb t (now + ttl) ≡ true = ground arith in
      let c₁ : IsCounter (read s₁ now (fence_key_for key)) = rw (counter_kept token ttl) c in
      elim (Bool-cases (is_some (read s now key))) [
        | inl held ↦ elim (Bool-cases (is_token (get s₁ now key) token)) [
          | inl own ↦
              let shown : read s now key ≡ some (Value.text token) =
                is_token-same (read s now key) token
                  (rw (sym (r.get-reply s now key) ∙ sym (set_kept token ttl held).1) own) in
              let s₂ = pexpire s₁ now key ttl in
              let c₂ : IsCounter (read s₂ now (fence_key_for key)) =
                rw (r.pexpire-read s₁ now key ttl now (fence_key_for key) (omega arith))
                  (rw (same_ne key (fence_key_for key) (fence_key_for-ne key)) c₁) in
              rw ((set_kept token ttl held).0, own)
                (issue_fence-keeps s₂ fttl 2 t c₂ le
                  ∙ r.pexpire-read s₁ now key ttl t key le
                  ∙ rw (same_refl key, early)
                      (r.set_nx_px-read s now key token ttl now key (omega arith) ∙ rw held shown))
          | inr other ↦ absurd (granted (rw ((set_kept token ttl held).0, other)))
        ]
        | inr free ↦
            let set : (set_nx_px s now key token ttl).1 ≡ true =
              r.set_nx_px-reply s now key token ttl ∙ rw free in
            rw set (
              issue_fence-keeps s₁ fttl 1 t c₁ le
              ∙ r.set_nx_px-read s now key token ttl t key le
              ∙ rw (free, same_refl key, early))
      ]
