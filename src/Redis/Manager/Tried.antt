-- ===== src/Redis/Manager/Tried.antt =====
-- What an attempt at a lock leaves behind: a handle, or a key that does not show the token.
use lock_dis.Prelude.{
  ℕ, ◌≡◌, ◌≢◌, ◌⊎◌, refl, inl, inr, Bool, false, String, Bool-cases, ok, err, Result, mul64, ltb,
}
use lock_dis.Redis.Server.{Redis}
use lock_dis.Redis.Mutex.{Reply, acquire, fence_key_for, is_token}
use lock_dis.Redis.Manager.{
  Error, Handle, Link, LockOptions, try_lock_with, call, on_acquired, validate,
  fence_ttl_multiplier, min_ttl,
}
use lock_dis.Redis.Manager.Freed.{Freed, get-Freed}

-- A refused acquisition leaves the key to another token.
module _ (r : Redis) (s : r.Store) (now : ℕ) (key token : String) where
  acquire_refused :
      (fence_key : String) (ttl fence_ttl : ℕ)
      → let (s', reply) = acquire r s now key fence_key token ttl fence_ttl in
        (reply.status ≡ 1) ⊎ (reply.status ≡ 2) ⊎ ((reply.status ≡ 0) × Freed r key token s' now)
  unfolding acquire
  acquire_refused fence_key ttl fttl =
      let set = r.set_nx_px s now key token ttl in
      elim (Bool-cases set.1) [
        | inl e ↦ rw e (inl refl)
        | inr e ↦ rw e (elim (Bool-cases (is_token (r.get set.0 now key) token)) [
          | inl q ↦ rw q (inr (inl refl))
          | inr q ↦ rw q (inr (inr (refl, get-Freed r key token set.0 now q)))
        ])
      ]

  -- What `try_lock_with` answers: a fresh handle of the key and the token, or a refusal.
  abbrev pub Tried : r.Store × Result Error Handle → Type 0
  Tried (s', ok h) = (h.key ≡ key) × (h.token ≡ token) × (h.released ≡ false)
  Tried (s', err e) = Freed r key token s' now

  on_acquired-Tried :
      (s' : r.Store) (reply : Reply) (options : LockOptions) (watchdog_default : Bool)
      → (reply.status ≡ 1) ⊎ (reply.status ≡ 2) ⊎ ((reply.status ≡ 0) × Freed r key token s' now)
      → Tried (on_acquired r (s', ok reply) key token options watchdog_default)
  unfolding on_acquired
  on_acquired-Tried s' reply options wd (inl e) = simp e (refl, refl, refl)
  on_acquired-Tried s' reply options wd (inr (inl e)) = simp e (refl, refl, refl)
  on_acquired-Tried s' reply options wd (inr (inr (e, free))) = simp e free

  pub try_lock_with-Tried :
      (link : Link) (options : LockOptions) (watchdog_default : Bool)
      → Freed r key token s now
      → link ≢ Link.reply_lost
      → Tried (try_lock_with r link s now key token options watchdog_default)
  unfolding try_lock_with validate call on_acquired
  try_lock_with-Tried link options wd free n = elim (Bool-cases (ltb options.ttl min_ttl)) [
    | inl e ↦ rw (try_lock_with, validate, e) free
    | inr e ↦ rw (try_lock_with, validate, e) (through link n)
  ]
    where
      through :
          (link : Link)
          → link ≢ Link.reply_lost
          → Tried (
              on_acquired r
                (call link s (
                  acquire r s now key
                    (fence_key_for key)
                    token
                    options.ttl
                    (mul64 options.ttl fence_ttl_multiplier)))
                key
                token
                options
                wd)
      through Link.up n =
          on_acquired-Tried
            (acquire r s now key (fence_key_for key) token options.ttl
              (mul64 options.ttl fence_ttl_multiplier)).0
            (acquire r s now key (fence_key_for key) token options.ttl
              (mul64 options.ttl fence_ttl_multiplier)).1
            options wd
            (acquire_refused (fence_key_for key) options.ttl
              (mul64 options.ttl fence_ttl_multiplier))
      through Link.request_lost n = free
      through Link.reply_lost n = absurd (n refl)
