-- ===== src/Redis/Mutex/Refines.antt =====
-- The scripts of the mutex keep the promise of Lease: run after run they give its replies.
use lock_dis.Prelude.{
  ℕ, suc, ◌+◌, ◌≤◌, ◌<◌, ◌^◌, ◌≡◌, ◌≢◌, refl, sym, ◌∙◌, inl, inr, true, Option, none, some, String,
  if◌then◌else◌, ltb, same_refl, same_ne, arith, Bool-cases,
}
use lock_dis.Redis.Server.{Redis, Value, until, as_text, IsCounter, counted}
use lock_dis.Redis.Mutex.{issue_fence}
use lock_dis.Redis.Mutex.Effects.{issue_fence-reply, issue_fence-read}
use lock_dis.Redis.Mutex.Lease.{Lease, at, renewed, count, answer}

abbrev pub as_lock : Option String → Option Value
as_lock none = none
as_lock (some v) = some (Value.text v)

abbrev pub as_counter : Option ℕ → Option Value
as_counter none = none
as_counter (some n) = some (Value.number n)

pub as_text_lock : (o : Option String) → as_text (as_lock o) ≡ o
as_text_lock none = refl
as_text_lock (some v) = refl

counted_counter : (o : Option ℕ) → counted (as_counter o) ≡ count o
counted_counter none = refl
counted_counter (some n) = refl

as_counter-IsCounter : (o : Option ℕ) → suc (count o) < 2 ^ 63 → IsCounter (as_counter o)
as_counter-IsCounter none h = tt
as_counter-IsCounter (some n) h = h

until_lock : (t d : ℕ) (v : String) → until t d (Value.text v) ≡ as_lock (until t d v)
until_lock t d v = elim (Bool-cases (ltb t d)) [ inl e ↦ rw e | inr e ↦ rw e ]

until_counter : (t d n : ℕ) → until t d (Value.number n) ≡ as_counter (until t d n)
until_counter t d n = elim (Bool-cases (ltb t d)) [ inl e ↦ rw e | inr e ↦ rw e ]

expired_lock :
    (t d : ℕ) (o : Option String)
    → (if ltb t d then as_lock o else none) ≡ as_lock (at t (renewed o d))
expired_lock t d none = elim (Bool-cases (ltb t d)) [ inl e ↦ rw e | inr e ↦ rw e ]
expired_lock t d (some v) = until_lock t d v

expired_counter :
    (t d : ℕ) (o : Option ℕ)
    → (if ltb t d then as_counter o else none) ≡ as_counter (at t (renewed o d))
expired_counter t d none = elim (Bool-cases (ltb t d)) [ inl e ↦ rw e | inr e ↦ rw e ]
expired_counter t d (some n) = until_counter t d n

module _ (r : Redis) (key fence_key : String) (ne : key ≢ fence_key) where
  open r use {Store, read, get, set_nx_px, del, pexpire, incr}

  -- From `now` on the two keys read as the lease says.
  abbrev pub Shows : Store → ℕ → Lease → Type 0
  Shows s now l =
      (t : ℕ)
      → now ≤ t
      → (read s t key ≡ as_lock (at t l.owner)) × (read s t fence_key ≡ as_counter (at t l.counter))

  back : fence_key ≢ key
  back e = ne (sym e)

  pub issue_fence-Shows :
      (s : Store) (now : ℕ) (l : Lease) (fence_ttl status : ℕ)
      → Shows s now l
      → suc (count (at now l.counter)) < 2 ^ 63
      → let (s', reply) = issue_fence r s now fence_key fence_ttl status in
        let fence = suc (count (at now l.counter)) in
        (reply ≡ answer status fence)
        × Shows s' now
            (record l { counter = some (record { value = fence; deadline = now + fence_ttl }) })
  issue_fence-Shows s now l fttl status sh room =
      let here = (sh now (omega arith)).1 in
      let counter : IsCounter (read s now fence_key) =
        rw here (as_counter-IsCounter (at now l.counter) room) in
      let c : counted (read s now fence_key) ≡ count (at now l.counter) =
        rw here (counted_counter (at now l.counter)) in
      (
        issue_fence-reply r s now fence_key fttl status counter ∙ rw c,
        λ t le. (
          issue_fence-read r s now fence_key fttl status t key counter le
              ∙ rw (same_ne fence_key key back, (sh t le).0),
          issue_fence-read r s now fence_key fttl status t fence_key counter le
              ∙ rw (
                same_refl fence_key,
                c,
                until_counter t (now + fttl) (suc (count (at now l.counter))),
              ),
        ),
      )

  pub set_nx_px-Shows :
      (s : Store) (now : ℕ) (l : Lease) (token : String) (ttl : ℕ)
      → Shows s now l
      → at now l.owner ≡ none
      → let (s', set) = set_nx_px s now key token ttl in
        (set ≡ true)
        × Shows s' now (record l { owner = some (record { value = token; deadline = now + ttl }) })
  set_nx_px-Shows s now l token ttl sh free =
      let gone : read s now key ≡ none = (sh now (omega arith)).0 ∙ rw free in
      (
        r.set_nx_px-reply s now key token ttl ∙ rw gone,
        λ t le. (
          r.set_nx_px-read s now key token ttl t key le
              ∙ rw (gone, same_refl key, until_lock t (now + ttl) token),
          r.set_nx_px-read s now key token ttl t fence_key le
              ∙ rw (gone, same_ne key fence_key ne, (sh t le).1),
        ),
      )

  pub pexpire_lock-Shows :
      (s : Store) (now : ℕ) (l : Lease) (ttl : ℕ)
      → Shows s now l
      → Shows
          (pexpire s now key ttl)
          now
          (record l { owner = renewed (at now l.owner) (now + ttl) })
  pexpire_lock-Shows s now l ttl sh t le = (
    r.pexpire-read s now key ttl t key le
        ∙ rw (same_refl key, (sh now (omega arith)).0, expired_lock t (now + ttl) (at now l.owner)),
    r.pexpire-read s now key ttl t fence_key le ∙ rw (same_ne key fence_key ne, (sh t le).1),
  )

  pub pexpire_counter-Shows :
      (s : Store) (now : ℕ) (l : Lease) (ttl : ℕ)
      → Shows s now l
      → Shows
          (pexpire s now fence_key ttl)
          now
          (record l { counter = renewed (at now l.counter) (now + ttl) })
  pexpire_counter-Shows s now l ttl sh t le = (
    r.pexpire-read s now fence_key ttl t key le ∙ rw (same_ne fence_key key back, (sh t le).0),
    r.pexpire-read s now fence_key ttl t fence_key le
        ∙ rw (
          same_refl fence_key,
          (sh now (omega arith)).1,
          expired_counter t (now + ttl) (at now l.counter),
        ),
  )

  pub del-Shows :
      (s : Store) (now : ℕ) (l : Lease)
      → Shows s now l
      → Shows (del s now key).0 now (record l { owner = none })
  del-Shows s now l sh t le = (
    r.del-read s now key t key le ∙ rw (same_refl key),
    r.del-read s now key t fence_key le ∙ rw (same_ne key fence_key ne, (sh t le).1),
  )
