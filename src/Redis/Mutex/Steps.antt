-- ===== src/Redis/Mutex/Steps.antt =====
-- Each call of a script, and each sequence of calls by any number of clients, answers as the lease
-- does.
use lock_dis.Prelude.{
  ℕ, suc, ◌+◌, ◌<◌, ◌^◌, ◌≡◌, ◌≢◌, refl, ap, subst, ◌∙◌, inl, inr, true, false, some, String, same,
  same_iff, arith, Bool-cases, Option-cases,
}
use lock_dis.Redis.Server.{Redis, is_some}
use lock_dis.Redis.Mutex.{Reply, acquire, extend, release}
use lock_dis.Redis.Mutex.Lease.{Op, Lease, at, renewed, count, answer, granted, promise, lease_step}
use lock_dis.Redis.Mutex.Refines.{
  as_text_lock, Shows, issue_fence-Shows, set_nx_px-Shows, pexpire_lock-Shows,
  pexpire_counter-Shows, del-Shows,
}

abbrev pub replied {ℓ} : {S : Type ℓ} → S × ℕ → S × Reply
replied r = (r.0, answer r.1 0)

module _ (r : Redis) (key fence_key : String) (ne : key ≢ fence_key) where
  open r use {Store, read, get, set_nx_px, del, pexpire, incr}

  unfoldable pub perform : Store → ℕ → Op → Store × Reply
  perform s now (Op.acquire token ttl fence_ttl) = acquire r s now key fence_key token ttl fence_ttl
  perform s now (Op.extend token ttl fence_ttl) =
      replied (extend r s now key fence_key token ttl fence_ttl)
  perform s now (Op.release token) = replied (release r s now key token)

  -- A step and its specification: equal replies, and stores that go on showing the lease.
  abbrev pub Agrees : ℕ → Store × Reply → Lease × Reply → Type 0
  Agrees now did wanted = (did.1 ≡ wanted.1) × Shows r key fence_key ne did.0 now wanted.0

  pub get_lock :
      (s : Store) (now : ℕ) (l : Lease)
      → Shows r key fence_key ne s now l
      → get s now key ≡ at now l.owner
  get_lock s now l sh =
      r.get-reply s now key ∙ rw ((sh now (omega arith)).0) (as_text_lock (at now l.owner))

  pub perform-release :
      (s : Store) (now : ℕ) (l : Lease) (token : String)
      → Shows r key fence_key ne s now l
      → Agrees now (perform s now (Op.release token)) (lease_step l now (Op.release token))
  unfolding perform release lease_step promise
  perform-release s now l token sh = elim (Option-cases (at now l.owner)) [
    | inl e ↦ rw (get_lock s now l sh, e) (refl, sh)
    | inr (v, e) ↦ elim (Bool-cases (same v token)) [
      | inl q ↦
          rw (get_lock s now l sh, e, q)
            (
              ap (λ n. answer n 0) (r.del-reply s now key ∙ rw ((sh now (omega arith)).0, e)),
              del-Shows r key fence_key ne s now l sh,
            )
      | inr q ↦ rw (get_lock s now l sh, e, q) (refl, sh)
    ]
  ]

  pub perform-extend :
      (s : Store) (now : ℕ) (l : Lease) (token : String) (ttl fence_ttl : ℕ)
      → Shows r key fence_key ne s now l
      → Agrees now
          (perform s now (Op.extend token ttl fence_ttl))
          (lease_step l now (Op.extend token ttl fence_ttl))
  unfolding perform extend lease_step promise
  perform-extend s now l token ttl fttl sh = elim (Option-cases (at now l.owner)) [
    | inl e ↦ rw (get_lock s now l sh, e) (refl, sh)
    | inr (v, e) ↦ elim (Bool-cases (same v token)) [
      | inl q ↦
          rw (get_lock s now l sh, e, q)
            (
              refl,
              pexpire_counter-Shows r key fence_key ne (pexpire s now key ttl) now
                  (record l { owner = renewed (some v) (now + ttl) }) fttl
                  (rw e at (pexpire_lock-Shows r key fence_key ne s now l ttl sh)),
            )
      | inr q ↦ rw (get_lock s now l sh, e, q) (refl, sh)
    ]
  ]

  set_taken :
      (s : Store) (now : ℕ) (l : Lease) (token : String) (ttl : ℕ) (v : String)
      → Shows r key fence_key ne s now l
      → at now l.owner ≡ some v
      → let (s', set) = set_nx_px s now key token ttl in
        (set ≡ false) × Shows r key fence_key ne s' now l
  set_taken s now l token ttl v sh e =
      let held : is_some (read s now key) ≡ true = rw ((sh now (omega arith)).0, e) in
      (
        r.set_nx_px-reply s now key token ttl ∙ rw held,
        λ t le. (
          r.set_nx_px-read s now key token ttl t key le ∙ rw (held, (sh t le).0),
          r.set_nx_px-read s now key token ttl t fence_key le ∙ rw (held, (sh t le).1),
        ),
      )

  pub perform-acquire :
      (s : Store) (now : ℕ) (l : Lease) (token : String) (ttl fence_ttl : ℕ)
      → Shows r key fence_key ne s now l
      → suc (count (at now l.counter)) < 2 ^ 63
      → Agrees now
          (perform s now (Op.acquire token ttl fence_ttl))
          (lease_step l now (Op.acquire token ttl fence_ttl))
  unfolding perform acquire lease_step promise granted
  perform-acquire s now l token ttl fttl sh room = elim (Option-cases (at now l.owner)) [
    | inl e ↦
        let (set, shows) = set_nx_px-Shows r key fence_key ne s now l token ttl sh e in
        rw (set, e)
          (issue_fence-Shows r key fence_key ne (set_nx_px s now key token ttl).0 now
            (record l { owner = some (record { value = token; deadline = now + ttl }) }) fttl 1
            shows room)
    | inr (v, e) ↦
        let (set, shows) = set_taken s now l token ttl v sh e in
        let got = get_lock (set_nx_px s now key token ttl).0 now l shows in
        elim (Bool-cases (same v token)) [
          | inl q ↦
              rw (set, got, e, q)
                (issue_fence-Shows r key fence_key ne
                  (pexpire (set_nx_px s now key token ttl).0 now key ttl) now
                  (record l { owner = some (record { value = token; deadline = now + ttl }) }) fttl
                  2
                  (own v e q (
                    pexpire_lock-Shows r key fence_key ne (set_nx_px s now key token ttl).0 now l
                      ttl shows))
                  room)
          | inr q ↦ rw (set, got, e, q) (refl, shows)
        ]
  ]
    where
      own :
          (v : String)
          → at now l.owner ≡ some v
          → same v token ≡ true
          → Shows r key fence_key ne
              (pexpire (set_nx_px s now key token ttl).0 now key ttl)
              now
              (record l { owner = renewed (at now l.owner) (now + ttl) })
          → Shows r key fence_key ne
              (pexpire (set_nx_px s now key token ttl).0 now key ttl)
              now
              (record l { owner = some (record { value = token; deadline = now + ttl }) })
      own v e q sh =
          subst
            (λ x.
              Shows r key fence_key ne (pexpire (set_nx_px s now key token ttl).0 now key ttl) now
                (record l { owner = some (record { value = x; deadline = now + ttl }) }))
            ((same_iff v token).0 q) (rw e at sh)
