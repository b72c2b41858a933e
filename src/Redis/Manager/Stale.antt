-- ===== src/Redis/Manager/Stale.antt =====
-- A handle whose lease is over, or is another token's, does no harm, whatever becomes of its calls.
use lock_dis.Prelude.{
  ℕ, ◌≤◌, ◌≡◌, ◌≢◌, refl, ap, ◌∙◌, inl, inr, Bool, true, false, Option, none, some, String, ltb,
  same, same_iff, arith, Bool-cases, ok, err, mul64, Result, ◌==◌,
}
use lock_dis.Redis.Server.{Redis}
use lock_dis.Redis.Mutex.{fence_key_for, is_token, extend, release}
use lock_dis.Redis.Mutex.Effects.{fence_key_for-ne}
use lock_dis.Redis.Mutex.Lease.{Lease, at}
use lock_dis.Redis.Mutex.Refines.{Shows}
use lock_dis.Redis.Mutex.Steps.{get_lock}
use lock_dis.Redis.Manager.{
  Error, Handle, Link, call, fire_extend, handle_extend, handle_release, drop, on_extended,
  on_released, is_one, min_ttl, mark_lost, fence_ttl_multiplier,
}

not_token : (o : Option String) (token : String) → o ≢ some token → is_token o token ≡ false
not_token none token n = refl
not_token (some v) token n = elim (Bool-cases (same v token)) [
  | inl e ↦ absurd (n (ap some ((same_iff v token).0 e)))
  | inr e ↦ e
]

call_idle {ℓ} :
    {S : Type ℓ} {A : Type 0} (link : Link) (s : S) (done : S × A)
    → done.0 ≡ s
    → (call link s done).0 ≡ s
unfolding call
call_idle Link.up s done e = e
call_idle Link.request_lost s done e = refl
call_idle Link.reply_lost s done e = e

module _ (r : Redis) (s : r.Store) (now : ℕ) (key : String) (l : Lease)
    (shows : Shows r key (fence_key_for key) (fence_key_for-ne key) s now l) where
  release_idle : (token : String) → at now l.owner ≢ some token → (release r s now key token).0 ≡ s
  unfolding release
  release_idle token n =
      rw (get_lock r key (fence_key_for key) (fence_key_for-ne key) s now l shows)
        (rw (not_token (at now l.owner) token n))

  extend_idle :
      (token : String) (ttl fence_ttl : ℕ)
      → at now l.owner ≢ some token
      → (extend r s now key (fence_key_for key) token ttl fence_ttl).0 ≡ s
  unfolding extend
  extend_idle token ttl fttl n =
      rw (get_lock r key (fence_key_for key) (fence_key_for-ne key) s now l shows)
        (rw (not_token (at now l.owner) token n))

  is_one_store : (res : r.Store × Result Error ℕ) → (is_one r res).0 ≡ res.0
  is_one_store (s', err e) = refl
  is_one_store (s', ok n) = refl

  on_extended_store :
      (res : r.Store × Result Error Bool) (h : Handle) → (on_extended r res h).0 ≡ res.0
  unfolding on_extended
  on_extended_store (s', err e) h = refl
  on_extended_store (s', ok true) h = refl
  on_extended_store (s', ok false) h = refl

  on_released_store :
      (res : r.Store × Result Error ℕ) (h : Handle) → (on_released r res h).0 ≡ res.0
  unfolding on_released
  on_released_store (s', err e) h = refl
  on_released_store (s', ok n) h = elim (Bool-cases (n == 1)) [ inl e ↦ rw e | inr e ↦ rw e ]

  -- A handle that does not own its key changes nothing on the server: not by extending, not by
  -- releasing, and not when it is dropped, whether its requests and replies arrive or not.
  pub stale_handle-harmless :
      (link : Link) (h : Handle) (ttl : ℕ)
      → h.key ≡ key
      → h.fence_key ≡ fence_key_for key
      → at now l.owner ≢ some h.token
      → ((handle_extend r link s now h ttl).0 ≡ s)
        × ((handle_release r link s now h).0 ≡ s)
        × ((drop r link s now h).0 ≡ s)
  unfolding handle_extend handle_release drop fire_extend
  stale_handle-harmless link h ttl ek ef n =
      let asked : (call link s (release r s now h.key h.token)).0 ≡ s =
        call_idle link s (release r s now h.key h.token) (rw ek (release_idle h.token n)) in
      let renewal : (extend r s now h.key h.fence_key h.token ttl
            (mul64 ttl fence_ttl_multiplier)).0
          ≡ s =
        rw (ek, ef) (extend_idle h.token ttl (mul64 ttl fence_ttl_multiplier) n) in
      (
        elim (Bool-cases (ltb ttl min_ttl)) [
          | inl e ↦ rw e
          | inr e ↦ rw e (elim (Bool-cases h.released) [
            | inl f ↦ simp f
            | inr f ↦ simp f (
                on_extended_store
                  (is_one r (
                    call link s (
                      extend r s now h.key h.fence_key h.token ttl
                        (mul64 ttl fence_ttl_multiplier))))
                  h
                ∙ is_one_store (
                    call link s (
                      extend r s now h.key h.fence_key h.token ttl
                        (mul64 ttl fence_ttl_multiplier)))
                ∙ call_idle link s
                    (extend r s now h.key h.fence_key h.token ttl (mul64 ttl fence_ttl_multiplier))
                    renewal)
          ])
        ],
        elim (Bool-cases h.released) [
          | inl f ↦ simp f
          | inr f ↦ simp f (
              on_released_store (call link s (release r s now h.key h.token))
                (record h { released = true })
              ∙ asked)
        ],
        elim (Bool-cases h.released) [ inl f ↦ simp f | inr f ↦ simp f asked ],
      )

  -- A live handle that does not own its key is told so as soon as the server answers: an extension
  -- fails as lost and poisons the handle, and a release fails as lost.
  pub stale_handle-told :
      (h : Handle) (ttl : ℕ)
      → h.key ≡ key
      → h.fence_key ≡ fence_key_for key
      → at now l.owner ≢ some h.token
      → h.released ≡ false
      → min_ttl ≤ ttl
      → let (s₁, h₁, res₁) = handle_extend r Link.up s now h ttl in
        let (s₂, h₂, res₂) = handle_release r Link.up s now h in
        (res₁ ≡ err (Error.lost h.key h.fence))
        × (h₁.poisoned ≡ true)
        × (h₁.lost ≡ true)
        × (res₂ ≡ err (Error.lost h.key h.fence))
  unfolding handle_extend handle_release fire_extend call extend release on_extended on_released
      mark_lost
  stale_handle-told h ttl ek ef n live enough =
      let big : ltb ttl min_ttl ≡ false = ground arith in
      let other : is_token (r.get s now h.key) h.token ≡ false =
        rw (ek, get_lock r key (fence_key_for key) (fence_key_for-ne key) s now l shows)
          (not_token (at now l.owner) h.token n) in
      (rw (big, live, other), rw (big, live, other), rw (big, live, other), rw (live, other))
