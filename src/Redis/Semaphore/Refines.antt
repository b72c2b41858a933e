-- ===== src/Redis/Semaphore/Refines.antt =====
-- The scripts of the semaphore keep the promise of Spec, call by call.
use lock_dis.Prelude.{
  ℕ, suc, ◌+◌, ◌≤◌, ◌<◌, ◌^◌, ◌≡◌, ◌≢◌, refl, sym, ap, ◌∙◌, inl, inr, true, Option, none, some,
  String, [], ◌∷◌, if◌then◌else◌, ltb, ◌==◌, ◌*◌, same_refl, same_ne, arith, Bool-cases, length,
}
use lock_dis.Redis.Server.{
  Redis, Value, until, is_some, Members, as_members, score_of, with_member, without_member, above,
  kept, IsZset, IsCounter,
}
use lock_dis.Redis.Slot.{tally, tally-IsCounter, counted-tally, in_place-tally, in_place_now}
use lock_dis.Redis.Mutex.{Reply}
use lock_dis.Redis.Mutex.Lease.{Leased, at, answer}
use lock_dis.Redis.Semaphore.{acquire_permit, extend_permit, release_permit}
use lock_dis.Redis.Semaphore.Spec.{Op, Pool, members, left, kept_with, pool_step}

abbrev pub as_zset : Option Members → Option Value
as_zset none = none
as_zset (some ms) = some (Value.zset ms)

pub as_members_zset : (o : Option Members) → as_members (as_zset o) ≡ members o
as_members_zset none = refl
as_members_zset (some ms) = refl

as_zset-IsZset : (o : Option Members) → IsZset (as_zset o)
as_zset-IsZset none = tt
as_zset-IsZset (some ms) = tt

until_zset : (t d : ℕ) (ms : Members) → until t d (Value.zset ms) ≡ as_zset (until t d ms)
until_zset t d ms = elim (Bool-cases (ltb t d)) [ inl e ↦ rw e | inr e ↦ rw e ]

kept-left :
    (t : ℕ) (o : Option (Leased Members)) (ms : Members)
    → kept (as_zset (at t o)) ms ≡ as_zset (at t (left o ms))
kept-left t none ms = refl
kept-left t (some l) [] = elim (Bool-cases (ltb t l.deadline)) [ inl e ↦ rw e | inr e ↦ rw e ]
kept-left t (some l) (m ∷ ms) = elim (Bool-cases (ltb t l.deadline)) [ inl e ↦ rw e | inr e ↦ rw e ]

left-nothing : (o : Option (Leased Members)) → left o [] ≡ none
left-nothing none = refl
left-nothing (some l) = refl

left-shown :
    (now : ℕ) (l : Leased Members) (ms : Members)
    → ltb now l.deadline ≡ true
    → members (at now (left (some l) ms)) ≡ ms
left-shown now l [] e = refl
left-shown now l (m ∷ ms) e = rw e

-- What is left shows, for a choice among the members that are there.
pub members-left :
    (now : ℕ) (o : Option (Leased Members)) (f : Members → Members)
    → f [] ≡ []
    → members (at now (left o (f (members (at now o))))) ≡ f (members (at now o))
members-left now none f e = sym e
members-left now (some l) f e = elim (Bool-cases (ltb now l.deadline)) [
  | inl q ↦ rw q (left-shown now l (f l.value) q)
  | inr q ↦ rw (q, e)
]

no_members : (ms : Members) → (length ms == 0) ≡ true → ms ≡ []
no_members [] e = refl
no_members (m ∷ ms) e = absurd (ground arith)

module _ (r : Redis) (key fence_key : String) (ne : key ≢ fence_key) where
  open r use {Store, read, zcard, zscore, zadd, zremrangebyscore, zrem, pexpire, incr, del}

  abbrev pub Shows : Store → ℕ → Pool → Type 0
  Shows s now p =
      (t : ℕ)
      → now ≤ t
      → (read s t key ≡ as_zset (at t p.permits)) × (read s t fence_key ≡ tally p.grants)

  pub Shows_onward : (s : Store) (t u : ℕ) (p : Pool) → t ≤ u → Shows s t p → Shows s u p
  Shows_onward s t u p le sh v after = sh v (omega arith)

  members-at :
      (s : Store) (now : ℕ) (p : Pool)
      → Shows s now p
      → as_members (read s now key) ≡ members (at now p.permits)
  members-at s now p sh = rw ((sh now (omega arith)).0) (as_members_zset (at now p.permits))

  IsZset-at : (s : Store) (now : ℕ) (p : Pool) → Shows s now p → IsZset (read s now key)
  IsZset-at s now p sh = rw ((sh now (omega arith)).0) (as_zset-IsZset (at now p.permits))

  pruned-Shows :
      (s : Store) (now : ℕ) (p : Pool)
      → Shows s now p
      → Shows
          (zremrangebyscore s now key now)
          now
          (record p { permits = left p.permits (above now (members (at now p.permits))) })
  pruned-Shows s now p sh t le = (
    r.zremrangebyscore-read s now key now t key (IsZset-at s now p sh) le
        ∙ rw (same_refl key, members-at s now p sh, (sh t le).0)
            (kept-left t p.permits (above now (members (at now p.permits)))),
    r.zremrangebyscore-read s now key now t fence_key (IsZset-at s now p sh) le
        ∙ rw (same_ne key fence_key ne) ((sh t le).1),
  )

  -- ZADD and PEXPIRE
  renewed-Shows :
      (s : Store) (now : ℕ) (p : Pool) (token : String) (ttl : ℕ)
      → Shows s now p
      → Shows
          (pexpire (zadd s now key (now + ttl) token) now key ttl)
          now
          (record p { permits = kept_with (members (at now p.permits)) token (now + ttl) })
  renewed-Shows s now p token ttl sh t le =
      let z = IsZset-at s now p sh in
      let s' = zadd s now key (now + ttl) token in
      let ms = with_member token (now + ttl) (members (at now p.permits)) in
      let here : read s' now key ≡ some (Value.zset ms) =
        r.zadd-read s now key (now + ttl) token now key z (omega arith)
        ∙ rw (same_refl key, members-at s now p sh)
            (in_place_now (read s now key) (Value.zset ms)) in
      (
        r.pexpire-read s' now key ttl t key le
            ∙ rw (same_refl key, here) (until_zset t (now + ttl) ms),
        r.pexpire-read s' now key ttl t fence_key le
            ∙ rw (same_ne key fence_key ne) (
                r.zadd-read s now key (now + ttl) token t fence_key z le
                ∙ rw (same_ne key fence_key ne) ((sh t le).1)),
      )

  counted-Shows :
      (s : Store) (now : ℕ) (p : Pool)
      → Shows s now p
      → suc p.grants < 2 ^ 63
      → ((incr s now fence_key).1 ≡ suc p.grants)
        × Shows (incr s now fence_key).0 now (record p { grants = suc p.grants })
  counted-Shows s now p sh room =
      let seen : read s now fence_key ≡ tally p.grants = (sh now (omega arith)).1 in
      let c : IsCounter (read s now fence_key) = rw seen (tally-IsCounter p.grants room) in
      (
        r.incr-reply s now fence_key c ∙ rw seen (ap suc (counted-tally p.grants)),
        λ t le. (
          r.incr-read s now fence_key t key c le
              ∙ rw (same_ne fence_key key (λ e. ne (sym e))) ((sh t le).0),
          r.incr-read s now fence_key t fence_key c le
              ∙ rw (same_refl fence_key, seen, (sh t le).1, counted-tally p.grants)
                  (in_place-tally p.grants),
        ),
      )

  removed-Shows :
      (s : Store) (now : ℕ) (p : Pool) (token : String)
      → Shows s now p
      → Shows (zrem s now key token).0 now (record p {
        permits = left p.permits (without_member token (members (at now p.permits)));
      })
  removed-Shows s now p token sh t le = (
    r.zrem-read s now key token t key (IsZset-at s now p sh) le
        ∙ rw (same_refl key, members-at s now p sh, (sh t le).0)
            (kept-left t p.permits (without_member token (members (at now p.permits)))),
    r.zrem-read s now key token t fence_key (IsZset-at s now p sh) le
        ∙ rw (same_ne key fence_key ne) ((sh t le).1),
  )

  -- DEL of a set that has no members left
  emptied-Shows :
      (s : Store) (now : ℕ) (p : Pool) (rest : Members) (o : Option (Leased Members))
      → p.permits ≡ left o rest
      → rest ≡ []
      → Shows s now p
      → Shows (del s now key).0 now p
  emptied-Shows s now p rest o e q sh t le =
      let nothing : p.permits ≡ none = e ∙ rw q (left-nothing o) in
      (
        r.del-read s now key t key le ∙ simp (same_refl key, nothing),
        r.del-read s now key t fence_key le ∙ rw (same_ne key fence_key ne) ((sh t le).1),
      )

  zcard-at :
      (s : Store) (now : ℕ) (p : Pool)
      → Shows s now p
      → zcard s now key ≡ length (members (at now p.permits))
  zcard-at s now p sh = r.zcard-reply s now key ∙ ap length (members-at s now p sh)

  unfoldable pub perform_permit : ℕ → Store → ℕ → Op → Store × Reply
  perform_permit max_permits s now (Op.acquire token ttl) =
      acquire_permit r s now key fence_key token ttl max_permits (ttl * 10)
  perform_permit max_permits s now (Op.extend token ttl) =
      let (s', status) = extend_permit r s now key token ttl in (s', answer status 0)
  perform_permit max_permits s now (Op.release token) =
      let (s', status) = release_permit r s now key token in (s', answer status 0)

  abbrev pub Agrees : ℕ → Store × Reply → Pool × Reply → Type 0
  Agrees now did wanted = Shows did.0 now wanted.0 × (did.1 ≡ wanted.1)

  acquire-Agrees :
      (max_permits : ℕ) (s : Store) (now : ℕ) (p : Pool) (token : String) (ttl : ℕ)
      → Shows s now p
      → suc p.grants < 2 ^ 63
      → Agrees now
          (perform_permit max_permits s now (Op.acquire token ttl))
          (pool_step max_permits p now (Op.acquire token ttl))
  unfolding perform_permit acquire_permit pool_step
  acquire-Agrees max_permits s now p token ttl sh room =
      let live = above now (members (at now p.permits)) in
      let trimmed : Pool = record p { permits = left p.permits live } in
      let pruned = zremrangebyscore s now key now in
      let shown = pruned-Shows s now p sh in
      let still = members-left now p.permits (above now) refl in
      let size : zcard pruned now key ≡ length live =
        zcard-at pruned now trimmed shown ∙ ap length still in
      let added = pexpire (zadd pruned now key (now + ttl) token) now key ttl in
      let holding : Pool = record p { permits = kept_with live token (now + ttl) } in
      let added_shown : Shows added now holding =
        rw still at (renewed-Shows pruned now trimmed token ttl shown) in
      let (fence, counted) = counted-Shows added now holding added_shown room in
      elim (Bool-cases (ltb (length live) max_permits)) [
        | inl e ↦ rw (size, e, fence) (counted, refl)
        | inr e ↦ rw (size, e) (shown, refl)
      ]

  extend-Agrees :
      (max_permits : ℕ) (s : Store) (now : ℕ) (p : Pool) (token : String) (ttl : ℕ)
      → Shows s now p
      → Agrees now
          (perform_permit max_permits s now (Op.extend token ttl))
          (pool_step max_permits p now (Op.extend token ttl))
  unfolding perform_permit extend_permit pool_step
  extend-Agrees max_permits s now p token ttl sh =
      let found : zscore s now key token ≡ score_of token (members (at now p.permits)) =
        r.zscore-reply s now key token ∙ ap (score_of token) (members-at s now p sh) in
      elim (Bool-cases (is_some (score_of token (members (at now p.permits))))) [
        | inl e ↦ rw (found, e) (renewed-Shows s now p token ttl sh, refl)
        | inr e ↦ rw (found, e) (sh, refl)
      ]

  release-Agrees :
      (max_permits : ℕ) (s : Store) (now : ℕ) (p : Pool) (token : String)
      → Shows s now p
      → Agrees now
          (perform_permit max_permits s now (Op.release token))
          (pool_step max_permits p now (Op.release token))
  unfolding perform_permit release_permit pool_step
  release-Agrees max_permits s now p token sh =
      let ms = members (at now p.permits) in
      let rest = without_member token ms in
      let fewer : Pool = record p { permits = left p.permits rest } in
      let s' = (zrem s now key token).0 in
      let z = IsZset-at s now p sh in
      let shown : Shows s' now fewer = removed-Shows s now p token sh in
      let removed : (zrem s now key token).1 ≡ (if is_some (score_of token ms) then 1 else 0) =
        r.zrem-reply s now key token z ∙ rw (members-at s now p sh) in
      let size : zcard s' now key ≡ length rest =
        zcard-at s' now fewer shown
        ∙ ap length (members-left now p.permits (without_member token) refl) in
      elim (Bool-cases (is_some (score_of token ms))) [
        | inr e ↦ rw (removed, e) (shown, refl)
        | inl e ↦
            rw (removed, e)
              (elim (Bool-cases (length rest == 0)) [
                | inr q ↦ rw (size, q) (shown, refl)
                | inl q ↦
                    rw (size, q)
                      (
                        emptied-Shows s' now fewer rest p.permits refl (no_members rest q) shown,
                        refl,
                      )
              ])
      ]

  pub perform-Agrees :
      (max_permits : ℕ) (s : Store) (now : ℕ) (p : Pool) (op : Op)
      → Shows s now p
      → suc p.grants < 2 ^ 63
      → Agrees now (perform_permit max_permits s now op) (pool_step max_permits p now op)
  perform-Agrees max_permits s now p (Op.acquire token ttl) sh room =
      acquire-Agrees max_permits s now p token ttl sh room
  perform-Agrees max_permits s now p (Op.extend token ttl) sh room =
      extend-Agrees max_permits s now p token ttl sh
  perform-Agrees max_permits s now p (Op.release token) sh room =
      release-Agrees max_permits s now p token sh
