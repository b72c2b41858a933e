-- ===== src/Redis/Slot.antt =====
-- A lock that a script keeps as a hash under its key, with a lease, and the fence counter beside it,
-- which these scripts give no deadline: what the commands do to what both keys show.
use lock_dis.Prelude.{
  ℕ, zero, suc, ◌+◌, ◌≤◌, ◌<◌, ◌^◌, ◌≡◌, ◌≢◌, refl, sym, ◌∙◌, inl, inr, Option, none, some, String,
  List, if◌then◌else◌, ltb, same, same_refl, same_ne, arith, Bool-cases,
}
use lock_dis.Redis.Server.{
  Redis, Datum, Value, until, is_some, as_field, in_place, with_field, with_fields, IsCounter,
  counted,
}
use lock_dis.Redis.Mutex.Lease.{Leased, at, answer}
use lock_dis.Redis.Mutex.{Reply}

-- The fence counter after `n` grants.
abbrev pub tally : ℕ → Option Value
tally zero = none
tally (suc n) = some (Value.number (suc n))

pub tally-IsCounter : (n : ℕ) → suc n < 2 ^ 63 → IsCounter (tally n)
tally-IsCounter zero h = tt
tally-IsCounter (suc n) h = h

pub counted-tally : (n : ℕ) → counted (tally n) ≡ n
counted-tally zero = refl
counted-tally (suc n) = refl

pub in_place-tally : (n : ℕ) → in_place (tally n) (tally n) (Value.number (suc n)) ≡ tally (suc n)
in_place-tally zero = refl
in_place-tally (suc n) = refl

pub in_place_now : (o : Option Value) (v : Value) → in_place o o v ≡ some v
in_place_now none v = refl
in_place_now (some _) v = refl

module _ (r : Redis) where
  open r use {Store, pexpire, incr}

  -- The lease renewed and a fence issued, with which a grant ends.
  unfoldable pub grant : Store → ℕ → (key fence_key : String) (ttl status : ℕ) → Store × Reply
  grant s now key fence_key ttl status =
      let (s', fence) = incr (pexpire s now key ttl) now fence_key in
      (s', record { status = status; fence = fence })

module _ {A : Type 0} (encode : A → String → Option Datum) where
  abbrev pub as_hash : Option A → Option Value
  as_hash none = none
  as_hash (some a) = some (Value.hash (encode a))

  abbrev pub field_of : Option A → String → Option Datum
  field_of none f = none
  field_of (some a) f = encode a f

  is_some-as_hash : (o : Option A) → is_some (as_hash o) ≡ is_some o
  is_some-as_hash none = refl
  is_some-as_hash (some a) = refl

  as_field-as_hash : (o : Option A) (f : String) → as_field (as_hash o) f ≡ field_of o f
  as_field-as_hash none f = refl
  as_field-as_hash (some a) f = refl

  as_hash-until : (t d : ℕ) (a : A) → as_hash (until t d a) ≡ until t d (Value.hash (encode a))
  as_hash-until t d a = elim (Bool-cases (ltb t d)) [ inl e ↦ rw e | inr e ↦ rw e ]

  module _ (r : Redis) (key fence_key : String) (ne : key ≢ fence_key) where
    open r use {Store, read}

    -- From `now` on the fence key shows `n` grants.
    abbrev pub Counts : Store → ℕ → ℕ → Type 0
    Counts s now n = (t : ℕ) → now ≤ t → read s t fence_key ≡ tally n

    -- From `now` on the key shows what is leased, and the fence key `n` grants.
    abbrev pub Shows : Store → ℕ → Option (Leased A) → ℕ → Type 0
    Shows s now l n = ((t : ℕ) → now ≤ t → read s t key ≡ as_hash (at t l)) × Counts s now n

    -- The key shows `a` at `now`, with whatever deadline.
    abbrev pub Live : Store → ℕ → A → ℕ → Type 0
    Live s now a n = (read s now key ≡ some (Value.hash (encode a))) × Counts s now n

    -- A write of fields into the key.
    abbrev pub Wrote : Store → ℕ → Store → (String → Option Datum) → Type 0
    Wrote s now s' h =
        (t : ℕ) (j : String)
        → now ≤ t
        → read s' t j ≡ (
            if same key j
            then in_place (read s now key) (read s t key) (Value.hash h)
            else read s t j)

    pub Counts-Wrote :
        (s s' : Store) (now n : ℕ) (h : String → Option Datum)
        → Counts s now n
        → Wrote s now s' h
        → Counts s' now n
    Counts-Wrote s s' now n h c w t le = w t fence_key le ∙ rw (same_ne key fence_key ne) (c t le)

    pub Wrote-Live :
        (s s' : Store) (now n : ℕ) (a : A)
        → Counts s now n
        → Wrote s now s' (encode a)
        → Live s' now a n
    Wrote-Live s s' now n a c w = (
      w now key (omega arith)
          ∙ rw (same_refl key, in_place_now (read s now key) (Value.hash (encode a))),
      Counts-Wrote s s' now n (encode a) c w,
    )

    pub exists-at :
        (s : Store) (now n : ℕ) (l : Option (Leased A))
        → Shows s now l n
        → r.exists s now key ≡ is_some (at now l)
    exists-at s now n l sh =
        r.exists-reply s now key ∙ rw (sh.0 now (omega arith)) (is_some-as_hash (at now l))

    pub hget-at :
        (s : Store) (now n : ℕ) (l : Option (Leased A)) (f : String)
        → Shows s now l n
        → r.hget s now key f ≡ field_of (at now l) f
    hget-at s now n l f sh =
        r.hget-reply s now key f ∙ rw (sh.0 now (omega arith)) (as_field-as_hash (at now l) f)

    pub Shows_later :
        (s : Store) (t now n : ℕ) (l : Option (Leased A))
        → t ≤ now
        → Shows s t l n
        → Shows s now l n
    Shows_later s t now n l le sh = (λ u h. sh.0 u (omega arith), λ u h. sh.1 u (omega arith))

    -- A write into a live lease, which keeps its deadline.
    pub Wrote-Shows :
        (s s' : Store) (now d n : ℕ) (a a' : A)
        → now < d
        → Shows s now (some (record { value = a; deadline = d })) n
        → Wrote s now s' (encode a')
        → Shows s' now (some (record { value = a'; deadline = d })) n
    Wrote-Shows s s' now d n a a' lt sh w = (
      λ t le.
          w t key le ∙ rw (same_refl key, sh.0 now (omega arith), sh.0 t le) (kept now t d a a' lt),
      Counts-Wrote s s' now n (encode a') sh.1 w,
    )
      where
        kept :
            (now t d : ℕ) (a a' : A)
            → now < d
            → in_place (as_hash (until now d a)) (as_hash (until t d a)) (Value.hash (encode a'))
              ≡ as_hash (until t d a')
        kept now t d a a' lt = ground arith

    pub pexpire-Shows :
        (s : Store) (now ttl n : ℕ) (a : A)
        → Live s now a n
        → Shows (r.pexpire s now key ttl) now (some (record { value = a; deadline = now + ttl })) n
    pexpire-Shows s now ttl n a live = (
      λ t le.
          r.pexpire-read s now key ttl t key le
          ∙ rw (same_refl key, live.0) (sym (as_hash-until t (now + ttl) a)),
      λ t le.
          r.pexpire-read s now key ttl t fence_key le ∙ rw (same_ne key fence_key ne) (live.1 t le),
    )

    pub incr-reply :
        (s : Store) (now n : ℕ) (l : Option (Leased A))
        → suc n < 2 ^ 63
        → Shows s now l n
        → (r.incr s now fence_key).1 ≡ suc n
    incr-reply s now n l room sh =
        r.incr-reply s now fence_key (rw (sh.1 now (omega arith)) (tally-IsCounter n room))
        ∙ rw (sh.1 now (omega arith), counted-tally n)

    pub incr-Shows :
        (s : Store) (now n : ℕ) (l : Option (Leased A))
        → suc n < 2 ^ 63
        → Shows s now l n
        → Shows (r.incr s now fence_key).0 now l (suc n)
    incr-Shows s now n l room sh =
        let c : IsCounter (read s now fence_key) =
          rw (sh.1 now (omega arith)) (tally-IsCounter n room) in
        (
          λ t le.
              r.incr-read s now fence_key t key c le
              ∙ rw (same_ne fence_key key (λ e. ne (sym e))) (sh.0 t le),
          λ t le.
              r.incr-read s now fence_key t fence_key c le
              ∙ rw (same_refl fence_key, sh.1 now (omega arith), sh.1 t le, counted-tally n)
                  (in_place-tally n),
        )

    pub del-Shows : (s : Store) (now n : ℕ) → Counts s now n → Shows (r.del s now key).0 now none n
    del-Shows s now n c = (
      λ t le. r.del-read s now key t key le ∙ rw (same_refl key),
      λ t le. r.del-read s now key t fence_key le ∙ rw (same_ne key fence_key ne) (c t le),
    )

    pub grant-Shows :
        (s : Store) (now n ttl status : ℕ) (a : A)
        → suc n < 2 ^ 63
        → Live s now a n
        → let (s', reply) = grant r s now key fence_key ttl status in
          Shows s' now (some (record { value = a; deadline = now + ttl })) (suc n)
          × (reply ≡ answer status (suc n))
    unfolding grant
    grant-Shows s now n ttl status a room live =
        let sh = pexpire-Shows s now ttl n a live in
        let l : Option (Leased A) = some (record { value = a; deadline = now + ttl }) in
        (
          incr-Shows (r.pexpire s now key ttl) now n l room sh,
          rw (incr-reply (r.pexpire s now key ttl) now n l room sh),
        )

-- The fields that the key shows at a time, whatever they encode.
module _ (r : Redis) (key fence_key : String) (ne : key ≢ fence_key) where
  open r use {Store, read}

  abbrev pub Fields : Store → ℕ → (String → Option Datum) → ℕ → Type 0
  Fields s now h n = Live (λ f. f) r key fence_key ne s now h n

  pub hset-Fields :
      (s : Store) (now n : ℕ) (h : String → Option Datum) (fs : List (String × Datum))
      → Fields s now h n
      → Fields (r.hset s now key fs) now (with_fields h fs) n
  hset-Fields s now n h fs (is, c) =
      Wrote-Live (λ f. f) r key fence_key ne s (r.hset s now key fs) now n (with_fields h fs) c
        (λ t j le. r.hset-read s now key fs t j (rw is tt) le ∙ rw is)

  pub hset_new-Fields :
      (s : Store) (now n : ℕ) (fs : List (String × Datum))
      → read s now key ≡ none
      → Counts (λ f. f) r key fence_key ne s now n
      → Fields (r.hset s now key fs) now (with_fields (λ _. none) fs) n
  hset_new-Fields s now n fs is c =
      Wrote-Live (λ f. f) r key fence_key ne s (r.hset s now key fs) now n
        (with_fields (λ _. none) fs) c
        (λ t j le. r.hset-read s now key fs t j (rw is tt) le ∙ rw is)

  pub hincr-Fields :
      (s : Store) (now n m : ℕ) (h : String → Option Datum) (f : String)
      → Fields s now h n
      → h f ≡ some (Datum.int m)
      → suc m < 2 ^ 63
      → Fields (r.hincr s now key f).0 now (with_field h f (some (Datum.int (suc m)))) n
  hincr-Fields s now n m h f (is, c) e room =
      Wrote-Live (λ f. f) r key fence_key ne s (r.hincr s now key f).0 now n
        (with_field h f (some (Datum.int (suc m)))) c
        (λ t j le. r.hincr-read s now key f m t j (rw is e) room le ∙ rw is)

  pub hdecr-Fields :
      (s : Store) (now n m : ℕ) (h : String → Option Datum) (f : String)
      → Fields s now h n
      → h f ≡ some (Datum.int (suc m))
      → Fields (r.hdecr s now key f).0 now (with_field h f (some (Datum.int m))) n
        × ((r.hdecr s now key f).1 ≡ m)
  hdecr-Fields s now n m h f (is, c) e = (
    Wrote-Live (λ f. f) r key fence_key ne s (r.hdecr s now key f).0 now n
        (with_field h f (some (Datum.int m))) c
        (λ t j le. r.hdecr-read s now key f m t j (rw is e) le ∙ rw is),
    r.hdecr-reply s now key f m (rw is e),
  )

  pub hdel-Fields :
      (s : Store) (now n : ℕ) (h : String → Option Datum) (f g : String) (d : Datum)
      → Fields s now h n
      → h g ≡ some d
      → f ≢ g
      → Fields (r.hdel s now key f) now (with_field h f none) n
  hdel-Fields s now n h f g d (is, c) e apart =
      Wrote-Live (λ f. f) r key fence_key ne s (r.hdel s now key f) now n (with_field h f none) c
        (λ t j le. r.hdel-read s now key f g d t j (rw is e) apart le ∙ rw is)
