-- ===== src/Redis/Reentrant/Writes.antt =====
-- How the keys of the reentrant lock show its holds, and what the commands of its scripts write there.
use lock_dis.Prelude.{
  ℕ, suc, ◌<◌, ◌^◌, ◌≡◌, ◌≢◌, refl, ap, ◌∙◌, inl, inr, true, Option, none, some, String, [], ◌∷◌,
  if◌then◌else◌, ltb, same, arith, Bool-cases,
}
use lock_dis.Redis.Server.{Redis, Datum, Value, with_field}
use lock_dis.Redis.Mutex.Lease.{Leased, at}
use lock_dis.Redis.Reentrant.{
  reentrant_acquire, reentrant_release, reentrant_release_all, reentrant_extend,
}
use lock_dis.Redis.Reentrant.Spec.{Holds, Op, Reentrant, Answer}
use lock_dis.Redis.Slot.{
  Counts, Live, Wrote, Wrote-Live, Wrote-Shows, exists-at, hget-at, pexpire-Shows, incr-reply,
  incr-Shows, del-Shows,
}
use lock_dis.Redis.Slot as Slot

abbrev pub encode : Holds → String → Option Datum
encode h f =
    if same "count" f
    then some (Datum.int (suc h.nested))
    else if same "owner" f
    then some (Datum.str h.owner)
    else none

pub recount :
    (h : Holds) (n : ℕ)
    → with_field (encode h) "count" (some (Datum.int (suc n))) ≡ encode (record h { nested = n })
recount h n i f = at_field f i
  where
    at_field :
        (f : String)
        → with_field (encode h) "count" (some (Datum.int (suc n))) f
          ≡ encode (record h { nested = n }) f
    at_field f = elim (Bool-cases (same "count" f)) [ inl e ↦ rw e | inr e ↦ rw e ]

pub at-some :
    (now : ℕ) (l : Option (Leased Holds)) (h : Holds)
    → at now l ≡ some h
    → (d : ℕ) × (l ≡ some (record { value = h; deadline = d })) × (now < d)
at-some now none h e = cc
at-some now (some l) h e = elim (Bool-cases (ltb now l.deadline)) [
  | inl early ↦ (
    l.deadline,
    ap (λ v. some (record { value = v; deadline = l.deadline })) (unwrap (rw early at e)),
    ground arith,
  )
  | inr late ↦ absurd (never (rw late at e))
]
  where
    unwrap : {x y : Holds} → ◌≡◌ {A = Option Holds} (some x) (some y) → x ≡ y
    unwrap q = cc

    never : {y : Holds} → ◌≡◌ {A = Option Holds} none (some y) → ⊥
    never q = cc

module _ (r : Redis) (key fence_key : String) (ne : key ≢ fence_key) where
  open r use {Store, read, exists, hget}

  abbrev pub perform : Store → ℕ → Op → Store × Answer
  perform s now (Op.acquire token ttl fence_ttl) =
      let (s', reply) = reentrant_acquire r s now key fence_key token ttl fence_ttl in
      (s', Answer.granted reply)
  perform s now (Op.release token ttl) =
      let (s', n) = reentrant_release r s now key token ttl in (s', Answer.left n)
  perform s now (Op.release_all token) =
      let (s', n) = reentrant_release_all r s now key token in (s', Answer.left n)
  perform s now (Op.extend token ttl) =
      let (s', n) = reentrant_extend r s now key token ttl in (s', Answer.left n)

  -- From `now` on the two keys show the holds and the grants.
  abbrev pub Shows : Store → ℕ → Reentrant → Type 0
  Shows s now l = Slot.Shows encode r key fence_key ne s now l.holds l.grants

  abbrev pub Agrees : ℕ → Store × Answer → Reentrant × Answer → Type 0
  Agrees now (s, a) (l, b) = Shows s now l × (a ≡ b)

  pub read-held :
      (s : Store) (now : ℕ) (l : Reentrant) (h : Holds)
      → Shows s now l
      → at now l.holds ≡ some h
      → read s now key ≡ some (Value.hash (encode h))
  read-held s now l h sh held = sh.0 now (omega arith) ∙ rw held

  pub hset-Wrote :
      (s : Store) (now : ℕ) (l : Reentrant) (token : String)
      → Shows s now l
      → at now l.holds ≡ none
      → Wrote encode r key fence_key ne s now
          (r.hset s now key (("owner", Datum.str token) ∷ ("count", Datum.int 1) ∷ []))
          (encode (record { owner = token; nested = 0 }))
  hset-Wrote s now l token sh free t j le =
      let gone : read s now key ≡ none = sh.0 now (omega arith) ∙ rw free in
      r.hset-read s now key _ t j (rw gone tt) le ∙ rw gone

  pub hincr-Wrote :
      (s : Store) (now : ℕ) (l : Reentrant) (h : Holds)
      → Shows s now l
      → at now l.holds ≡ some h
      → suc (suc h.nested) < 2 ^ 63
      → Wrote encode r key fence_key ne s now
          (r.hincr s now key "count").0
          (encode (record h { nested = suc h.nested }))
  hincr-Wrote s now l h sh held room t j le =
      let seen = read-held s now l h sh held in
      r.hincr-read s now key "count" (suc h.nested) t j (rw seen) room le
      ∙ rw (seen, recount h (suc h.nested))

  -- HINCRBY -1, whether it leaves holds or none.
  pub hdecr-Wrote :
      (s : Store) (now m : ℕ) (l : Reentrant) (h : Holds)
      → Shows s now l
      → at now l.holds ≡ some h
      → h.nested ≡ m
      → Wrote encode r key fence_key ne s now
          (r.hdecr s now key "count").0
          (with_field (encode h) "count" (some (Datum.int m)))
  hdecr-Wrote s now m l h sh held e t j le =
      let seen = read-held s now l h sh held in
      r.hdecr-read s now key "count" m t j (rw seen (ap (λ x. some (Datum.int (suc x))) e)) le
      ∙ rw seen

  pub hdecr-count :
      (s : Store) (now : ℕ) (l : Reentrant) (h : Holds)
      → Shows s now l
      → at now l.holds ≡ some h
      → (r.hdecr s now key "count").1 ≡ h.nested
  hdecr-count s now l h sh held =
      r.hdecr-reply s now key "count" h.nested (rw (read-held s now l h sh held) refl)

  -- What the tests at the head of every script see of a lock that is held.
  pub seen-held :
      (s : Store) (now : ℕ) (l : Reentrant) (h : Holds)
      → Shows s now l
      → at now l.holds ≡ some h
      → (exists s now key ≡ true) × (hget s now key "owner" ≡ some (Datum.str h.owner))
  seen-held s now l h sh held = (
    exists-at encode r key fence_key ne s now l.grants l.holds sh ∙ rw held,
    hget-at encode r key fence_key ne s now l.grants l.holds "owner" sh ∙ rw held,
  )
