-- ===== src/Redis/Multi/Rounds.antt =====
-- A round over several keys ends with all of them or gives back what it won.
use lock_dis.Prelude.{
  ℕ, suc, ◌≤◌, ◌≡◌, ◌⊎◌, refl, sym, ap, ◌∙◌, inl, inr, Bool, true, false, String, List, [], ◌∷◌,
  ◌++◌, All, arith, ok, err, Result, Bool-cases, outcome-cases, map, ltb, ◌==◌, ◌||◌, mul64,
}
use mathlib.Core.List.{reverse, append-nil, append_assoc, reverse-append, map-append}
use lock_dis.Redis.Server.{Redis}
use lock_dis.Redis.Mutex.{Reply, acquire, fence_key_for}
use lock_dis.Redis.Manager.{
  Error, Handle, Link, LockOptions, Trip, try_lock_with, on_acquired, handle_release, call,
  validate, min_ttl, fence_ttl_multiplier,
}
use lock_dis.Redis.Manager.Freed.{
  Quiet, Freed, Freed-later, Orderly, handle_release-Freed, handle_release_other-Freed,
}
use lock_dis.Redis.Multi.{Round, take_each, roll_back_all, rolls_back}

-- The handles that a round wins until it is refused.
module _ (r : Redis) (round : Round r.Store) (options : LockOptions) (watchdog_default : Bool) where
  abbrev tried_at : ℕ → r.Store → String → r.Store × Result Error Handle
  tried_at i s key =
      let trip = round.there i in
      try_lock_with r trip.link (trip.meanwhile s) trip.now key (round.tokens i) options
        watchdog_default

  unfoldable pub won_before : ℕ → r.Store → List String → List Handle
  won_before i s [] = []
  won_before i s (key ∷ keys) =
      let onward = won_before (suc i) (tried_at i s key).0 keys in
      elim (tried_at i s key).1 [ ok h ↦ h ∷ onward | err e ↦ [] ]

-- A grant is a live handle of the key, and any refusal of a valid request rolls the round back.
abbrev Fresh : String → Result Error Handle → Type 0
Fresh key (ok h) = (h.key ≡ key) × (h.released ≡ false)
Fresh key (err e) = rolls_back e ≡ true

on_acquired-Fresh :
    (r : Redis) (s : r.Store) (reply : Reply) (key token : String) (options : LockOptions)
    (watchdog_default : Bool)
    → Fresh key (on_acquired r (s, ok reply) key token options watchdog_default).1
unfolding on_acquired rolls_back
on_acquired-Fresh r s reply key token options wd =
    elim (Bool-cases ((reply.status == 1) || (reply.status == 2))) [
      | inl e ↦ simp e (refl, refl)
      | inr e ↦ simp e refl
    ]

try_lock_with-Fresh :
    (r : Redis) (link : Link) (s : r.Store) (now : ℕ) (key token : String) (options : LockOptions)
    (watchdog_default : Bool)
    → min_ttl ≤ options.ttl
    → Fresh key (try_lock_with r link s now key token options watchdog_default).1
unfolding try_lock_with validate call on_acquired rolls_back
try_lock_with-Fresh r link s now key token options wd enough =
    let valid : ltb options.ttl min_ttl ≡ false = ground arith in
    rw (try_lock_with, validate, valid) (through link)
  where
    through :
        (link : Link)
        → Fresh key
            (on_acquired r
              (call link s (
                acquire r s now key
                  (fence_key_for key)
                  token
                  options.ttl
                  (mul64 options.ttl fence_ttl_multiplier)))
              key
              token
              options
              wd).1
    through Link.up =
        on_acquired-Fresh r
          (acquire r s now key (fence_key_for key) token options.ttl
            (mul64 options.ttl fence_ttl_multiplier)).0
          (acquire r s now key (fence_key_for key) token options.ttl
            (mul64 options.ttl fence_ttl_multiplier)).1
          key token options wd
    through Link.request_lost = refl
    through Link.reply_lost = refl

module _ (r : Redis) (back : ℕ → Trip r.Store) {u : ℕ} (o : Orderly r back u) where
  roll_back_all-keeps :
      (i : ℕ) (s : r.Store) (hs : List Handle) (key token : String)
      → Quiet r back key token
      → Freed r key token s (back i).now
      → Freed r key token (roll_back_all r back i s hs) u
  unfolding roll_back_all
  roll_back_all-keeps i s [] key token q free =
      Freed-later r key token s (back i).now u (o.over i) free
  roll_back_all-keeps i s (h ∷ hs) key token q free =
      let s₀ = (back i).meanwhile s in
      let s₁ = (handle_release r (back i).link s₀ (back i).now h).0 in
      roll_back_all-keeps (suc i) s₁ hs key token q (
        Freed-later r key token s₁ (back i).now (back (suc i)).now (o.in_order i)
          (handle_release_other-Freed r (back i).link s₀ (back i).now h key token (q i s free)))

  roll_back_all-Freed :
      (i : ℕ) (s : r.Store) (hs : List Handle)
      → All (λ h. h.released ≡ false) hs
      → All (λ h. Quiet r back h.key h.token) hs
      → All (λ h. Freed r h.key h.token (roll_back_all r back i s hs) u) hs
  unfolding roll_back_all
  roll_back_all-Freed i s [] live q = tt
  roll_back_all-Freed i s (h ∷ hs) live q =
      let s₀ = (back i).meanwhile s in
      let s₁ = (handle_release r (back i).link s₀ (back i).now h).0 in
      (
        roll_back_all-keeps (suc i) s₁ hs h.key h.token q.0 (
            Freed-later r h.key h.token s₁ (back i).now (back (suc i)).now (o.in_order i)
              (handle_release-Freed r (back i).link s₀ (back i).now h (o.arrives i) live.0)),
        roll_back_all-Freed (suc i) s₁ hs live.1 q.1,
      )

abbrev pub keys_of : List Handle → List String
keys_of hs = map (λ h. h.key) hs

module _ (r : Redis) (round : Round r.Store) (options : LockOptions) (watchdog_default : Bool)
    {u : ℕ} (o : Orderly r round.back u) (enough : min_ttl ≤ options.ttl) where
  -- The round has the keys that it had before and those that were left, or it fails and holds none.
  abbrev Ends :
      r.Store × Result Error (List Handle) → List String → List Handle → List Handle → Type 0
  Ends res keys taken won =
      ((hs : List Handle) × (res.1 ≡ ok hs) × (keys_of hs ≡ keys_of (reverse taken) ++ keys))
      ⊎ ((e : Error) × (res.1 ≡ err e)
          × All (λ h. Freed r h.key h.token res.0 u) won
          × All (λ h. Freed r h.key h.token res.0 u) taken)

  Ends-one :
      (res : r.Store × Result Error (List Handle)) (h : Handle) (key : String) (keys : List String)
      (taken won : List Handle)
      → h.key ≡ key
      → Ends res keys (h ∷ taken) won
      → Ends res (key ∷ keys) taken (h ∷ won)
  Ends-one res h key keys taken won named (inr (e, q, freed, before)) =
      inr (e, q, (before.0, freed), before.1)
  Ends-one res h key keys taken won named (inl (hs, q, m)) =
      let newest : keys_of (reverse (h ∷ taken)) ≡ keys_of (reverse taken) ++ (key ∷ []) =
        ap keys_of (reverse-append (h ∷ []) taken)
        ∙ map-append (λ (x : Handle). x.key) (reverse taken) (h ∷ [])
        ∙ ap (λ k. keys_of (reverse taken) ++ (k ∷ [])) named in
      inl (
        hs,
        q,
        m ∙ ap (λ ks. ks ++ keys) newest ∙ append_assoc (keys_of (reverse taken)) (key ∷ []) keys,
      )

  take_each-Ends :
      (i : ℕ) (s : r.Store) (keys : List String) (taken : List Handle)
      → All (λ h. h.released ≡ false) taken
      → All (λ h. Quiet r round.back h.key h.token) taken
      → All
          (λ h. Quiet r round.back h.key h.token)
          (won_before r round options watchdog_default i s keys)
      → Ends
          (take_each r round options watchdog_default i s keys taken)
          keys
          taken
          (won_before r round options watchdog_default i s keys)
  unfolding take_each won_before
  take_each-Ends i s [] taken live quiet ahead =
      inl (reverse taken, refl, sym (append-nil (keys_of (reverse taken))))
  take_each-Ends i s (key ∷ keys) taken live quiet ahead =
      let tried = tried_at r round options watchdog_default i s key in
      let fresh =
        try_lock_with-Fresh r (round.there i).link ((round.there i).meanwhile s) (round.there i).now
          key (round.tokens i) options watchdog_default enough in
      elim (outcome-cases tried.1) [
        | inr (e, q) ↦
            let undone : rolls_back e ≡ true = rw q at fresh in
            rw (take_each, won_before, q, undone)
              (inr (e, refl, tt, roll_back_all-Freed r round.back o 0 tried.0 taken live quiet))
        | inl (h, q) ↦
            let next : Quiet r round.back h.key h.token
                × All (λ g. Quiet r round.back g.key g.token)
                    (won_before r round options watchdog_default (suc i) tried.0 keys) =
              rw (won_before, q) at ahead in
            let (named, held) : (h.key ≡ key) × (h.released ≡ false) = rw q at fresh in
            rw (take_each, won_before, q)
              (Ends-one
                (take_each r round options watchdog_default (suc i) tried.0 keys (h ∷ taken)) h key
                keys taken (won_before r round options watchdog_default (suc i) tried.0 keys) named
                (take_each-Ends (suc i) tried.0 keys (h ∷ taken) (held, live) (next.0, quiet)
                  next.1))
      ]

  -- A round, for valid options, whose releases reach the store, either returns a handle for each of
  -- the keys, in their order, or fails, and then no key that it won shows the token that it was won
  -- with any more, if what others do between the releases brings none of these tokens back to its
  -- key.
  pub take_each-every_or_none :
      (s : r.Store) (keys : List String)
      → All
          (λ h. Quiet r round.back h.key h.token)
          (won_before r round options watchdog_default 0 s keys)
      → let (s', res) = take_each r round options watchdog_default 0 s keys [] in
        ((hs : List Handle) × (res ≡ ok hs) × (keys_of hs ≡ keys))
        ⊎ ((e : Error) × (res ≡ err e)
            × All
                (λ h. Freed r h.key h.token s' u)
                (won_before r round options watchdog_default 0 s keys))
  take_each-every_or_none s keys quiet = elim (take_each-Ends 0 s keys [] tt tt quiet) [
    | inl (hs, e, named) ↦ inl (hs, e, named)
    | inr (e, q, freed, _) ↦ inr (e, q, freed)
  ]
