-- ===== src/Redis/RwLock/Refines.antt =====
-- The five scripts keep the promise of Spec, call by call.
use lock_dis.Prelude.{
  leb-suc_zero, same_ne, ℕ, suc, ◌+◌, ◌≤◌, ◌<◌, ◌^◌, ◌≡◌, ◌≢◌, refl, ap, ◌∙◌, inl, inr, true, false,
  Option, none, some, String, List, [], ◌∷◌, if◌then◌else◌, leb, same, length, arith, Bool-cases,
  Option-cases,
}
use lock_dis.Redis.Server.{Redis, Datum, is_some, with_field}
use lock_dis.Redis.Mutex.Lease.{at}
use lock_dis.Redis.RwLock.{
  reader_field, rw_read_acquire, rw_read_release, rw_write_acquire, rw_write_release, rw_extend,
}
use lock_dis.Redis.RwLock.Spec.{
  Mode, Op, RwState, Answer, member, without, remaining, given, promise, step,
}
use lock_dis.Redis.RwLock.Fields.{
  encode, Distinct, reader_field-ne_mode, reader_field-ne_readers, encode-mode, encode-readers,
  encode-fresh, encode-joined, length-without, encode-left, is_some-encode,
}
use lock_dis.Redis.Slot.{
  Fields, Counts, Live, exists-at, hget-at, pexpire-Shows, grant-Shows, del-Shows, hset-Fields,
  hset_new-Fields, hincr-Fields, hdecr-Fields, hdel-Fields,
}
use lock_dis.Redis.Slot as Slot

-- What holds of a mode whenever the scripts have made it.
abbrev pub Sound : Mode → ℕ → Type 0
Sound (Mode.reading ts) n = Distinct ts × (length ts ≤ n)
Sound (Mode.writing t) n = Unit

abbrev pub SoundNow : Option Mode → ℕ → Type 0
SoundNow none n = Unit
SoundNow (some m) n = Sound m n

module _ (r : Redis) (key fence_key : String) (ne : key ≢ fence_key) where
  open r use {Store, read, exists, hget}

  abbrev pub perform : Store → ℕ → Op → Store × Answer
  perform s now (Op.read_acquire token ttl fence_ttl) =
      let (s', reply) = rw_read_acquire r s now key fence_key token ttl fence_ttl in
      (s', Answer.granted reply)
  perform s now (Op.write_acquire token ttl fence_ttl) =
      let (s', reply) = rw_write_acquire r s now key fence_key token ttl fence_ttl in
      (s', Answer.granted reply)
  perform s now (Op.read_release token ttl) =
      let (s', n) = rw_read_release r s now key token ttl in (s', Answer.left n)
  perform s now (Op.write_release token) =
      let (s', n) = rw_write_release r s now key token in (s', Answer.left n)
  perform s now (Op.extend token ttl) =
      let (s', n) = rw_extend r s now key token ttl in (s', Answer.left n)

  -- From `now` on the two keys show the mode and the grants.
  abbrev pub Shows : Store → ℕ → RwState → Type 0
  Shows s now l = Slot.Shows encode r key fence_key ne s now l.mode l.grants

  abbrev pub Agrees : ℕ → Store × Answer → RwState × Answer → Type 0
  Agrees now (s, a) (l, b) = Shows s now l × (a ≡ b)

  abbrev Promised : Store → ℕ → RwState → Option Mode → Op → Type 0
  Promised s now l o op = Agrees now (perform s now op) (promise l now o op)

  -- What a script finds: the fields of the mode, and the counter.
  found :
      (s : Store) (now : ℕ) (l : RwState) (m : Mode)
      → Shows s now l
      → at now l.mode ≡ some m
      → (exists s now key ≡ true)
        × ((f : String) → hget s now key f ≡ encode m f)
        × Fields r key fence_key ne s now (encode m) l.grants
  found s now l m sh held = (
    exists-at encode r key fence_key ne s now l.grants l.mode sh ∙ rw held,
    λ f. hget-at encode r key fence_key ne s now l.grants l.mode f sh ∙ rw held,
    (sh.0 now (omega arith) ∙ rw held, sh.1),
  )

  given-Agrees :
      (s : Store) (now ttl status : ℕ) (l : RwState) (m : Mode)
      → suc l.grants < 2 ^ 63
      → Fields r key fence_key ne s now (encode m) l.grants
      → let (s', reply) = Slot.grant r s now key fence_key ttl status in
        Agrees now (s', Answer.granted reply) (given l m (now + ttl) status)
  given-Agrees s now ttl status l m room live =
      let (shows, reply) =
        grant-Shows encode r key fence_key ne s now l.grants ttl status m room live in
      (shows, ap Answer.granted reply)

  perform-free :
      (s : Store) (now : ℕ) (l : RwState) (op : Op)
      → Shows s now l
      → at now l.mode ≡ none
      → suc l.grants < 2 ^ 63
      → Promised s now l none op
  unfolding rw_read_acquire rw_read_release rw_write_acquire rw_write_release rw_extend promise
  perform-free s now l op sh free room =
      let gone : exists s now key ≡ false =
        exists-at encode r key fence_key ne s now l.grants l.mode sh ∙ rw free in
      go op gone (sh.0 now (omega arith) ∙ rw free)
    where
      go : (op : Op) → exists s now key ≡ false → read s now key ≡ none → Promised s now l none op
      go (Op.read_acquire token ttl fttl) gone empty =
          let fs : List (String × Datum) =
            ("mode", Datum.str "r")
            ∷ ("readers", Datum.int 1)
            ∷ (reader_field token, Datum.str "1")
            ∷ [] in
          rw gone (
            given-Agrees (r.hset s now key fs) now ttl 1 l (Mode.reading (token ∷ [])) room (
              rw (encode-fresh token) at
                (hset_new-Fields r key fence_key ne s now l.grants fs empty sh.1)))
      go (Op.write_acquire token ttl fttl) gone empty =
          let fs : List (String × Datum) =
            ("mode", Datum.str "w") ∷ ("owner", Datum.str token) ∷ [] in
          rw gone (
            given-Agrees (r.hset s now key fs) now ttl 1 l (Mode.writing token) room
              (hset_new-Fields r key fence_key ne s now l.grants fs empty sh.1))
      go (Op.read_release token ttl) gone empty = rw gone (sh, refl)
      go (Op.write_release token) gone empty = rw gone (sh, refl)
      go (Op.extend token ttl) gone empty = rw gone (sh, refl)

  perform-writing :
      (s : Store) (now : ℕ) (l : RwState) (t : String) (op : Op)
      → Shows s now l
      → at now l.mode ≡ some (Mode.writing t)
      → suc l.grants < 2 ^ 63
      → Promised s now l (some (Mode.writing t)) op
  unfolding rw_read_acquire rw_read_release rw_write_acquire rw_write_release rw_extend promise
  perform-writing s now l t op sh held room =
      let (there, field, live) = found s now l (Mode.writing t) sh held in
      go op there (field "mode") (field "owner") live
    where
      go :
          (op : Op)
          → exists s now key ≡ true
          → hget s now key "mode" ≡ some (Datum.str "w")
          → hget s now key "owner" ≡ some (Datum.str t)
          → Fields r key fence_key ne s now (encode (Mode.writing t)) l.grants
          → Promised s now l (some (Mode.writing t)) op
      go (Op.read_acquire token ttl fttl) there mode owner live = rw (there, mode) (sh, refl)
      go (Op.read_release token ttl) there mode owner live = rw (there, mode) (sh, refl)
      go (Op.write_acquire token ttl fttl) there mode owner live =
          elim (Bool-cases (same t token)) [
            | inl e ↦
                rw (there, mode, owner, e) (given-Agrees s now ttl 2 l (Mode.writing t) room live)
            | inr e ↦ rw (there, mode, owner, e) (sh, refl)
          ]
      go (Op.write_release token) there mode owner live = elim (Bool-cases (same t token)) [
        | inl e ↦
            rw (there, mode, owner, e)
              (del-Shows encode r key fence_key ne s now l.grants sh.1, refl)
        | inr e ↦ rw (there, mode, owner, e) (sh, refl)
      ]
      go (Op.extend token ttl) there mode owner live = elim (Bool-cases (same t token)) [
        | inl e ↦
            rw (there, mode, owner, e)
              (
                pexpire-Shows encode r key fence_key ne s now ttl l.grants (Mode.writing t) live,
                refl,
              )
        | inr e ↦ rw (there, mode, owner, e) (sh, refl)
      ]

  -- A reader that is not yet among them joins the readers.
  join :
      (s : Store) (now : ℕ) (l : RwState) (ts : List String) (token : String)
      → Fields r key fence_key ne s now (encode (Mode.reading ts)) l.grants
      → suc (length ts) < 2 ^ 63
      → Fields r key fence_key ne
          (r.hset
            (r.hincr s now key "readers").0
            now
            key
            ((reader_field token, Datum.str "1") ∷ []))
          now
          (encode (Mode.reading (token ∷ ts)))
          l.grants
  join s now l ts token live room =
      let s₁ = (r.hincr s now key "readers").0 in
      let h₁ =
        with_field (encode (Mode.reading ts)) "readers" (some (Datum.int (suc (length ts)))) in
      rw (encode-joined token ts) at (
        hset-Fields r key fence_key ne s₁ now l.grants h₁ ((reader_field token, Datum.str "1") ∷ [])
          (hincr-Fields r key fence_key ne s now l.grants (length ts) (encode (Mode.reading ts))
            "readers" live (encode-readers ts) room))

  -- A registered reader leaves: the fields, and the count that HINCRBY gives.
  leave :
      (s : Store) (now : ℕ) (l : RwState) (ts : List String) (token : String)
      → Fields r key fence_key ne s now (encode (Mode.reading ts)) l.grants
      → Distinct ts
      → member token ts ≡ true
      → let (s', readers) = r.hdecr (r.hdel s now key (reader_field token)) now key "readers" in
        Fields r key fence_key ne s' now (encode (Mode.reading (without token ts))) l.grants
        × (readers ≡ length (without token ts))
  leave s now l ts token live d is =
      let m = length (without token ts) in
      let h = encode (Mode.reading ts) in
      let s₁ = r.hdel s now key (reader_field token) in
      let h₁ = with_field h (reader_field token) none in
      let other = same_ne (reader_field token) "readers" (reader_field-ne_readers token) in
      let (fields, count) =
        hdecr-Fields r key fence_key ne s₁ now l.grants m h₁ "readers"
          (hdel-Fields r key fence_key ne s now l.grants h (reader_field token) "mode"
            (Datum.str "r") live (encode-mode ts) (reader_field-ne_mode token))
          (rw other
            (encode-readers ts ∙ ap (λ x. some (Datum.int x)) (length-without token ts is))) in
      (rw (encode-left token ts d) at fields, count)

  left-Agrees :
      (s : Store) (now ttl : ℕ) (l : RwState) (ts : List String)
      → Fields r key fence_key ne s now (encode (Mode.reading ts)) l.grants
      → let done : Store × Option ℕ =
          if leb (length ts) 0
          then ((r.del s now key).0, some 0)
          else (r.pexpire s now key ttl, some (length ts)) in
        Agrees now (done.0, Answer.left done.1) (remaining l (now + ttl) ts)
  left-Agrees s now ttl l [] live =
      (del-Shows encode r key fence_key ne s now l.grants live.1, refl)
  left-Agrees s now ttl l (t ∷ ts) live = rw (leb-suc_zero (length ts)) (
    pexpire-Shows encode r key fence_key ne s now ttl l.grants (Mode.reading (t ∷ ts)) live,
    refl,
  )

  perform-reading :
      (s : Store) (now : ℕ) (l : RwState) (ts : List String) (op : Op)
      → Shows s now l
      → at now l.mode ≡ some (Mode.reading ts)
      → Sound (Mode.reading ts) l.grants
      → suc l.grants < 2 ^ 63
      → Promised s now l (some (Mode.reading ts)) op
  unfolding rw_read_acquire rw_read_release rw_write_acquire rw_write_release rw_extend promise
  perform-reading s now l ts op sh held sound room =
      let (there, field, live) = found s now l (Mode.reading ts) sh held in
      go op there (field "mode" ∙ encode-mode ts) (λ token. registered token field) live
    where
      registered :
          (token : String)
          → ((f : String) → hget s now key f ≡ encode (Mode.reading ts) f)
          → is_some (hget s now key (reader_field token)) ≡ member token ts
      registered token field = ap is_some (field (reader_field token)) ∙ is_some-encode token ts

      go :
          (op : Op)
          → exists s now key ≡ true
          → hget s now key "mode" ≡ some (Datum.str "r")
          → ((token : String) → is_some (hget s now key (reader_field token)) ≡ member token ts)
          → Fields r key fence_key ne s now (encode (Mode.reading ts)) l.grants
          → Promised s now l (some (Mode.reading ts)) op
      go (Op.read_acquire token ttl fttl) there mode slot live =
          elim (Bool-cases (member token ts)) [
            | inl e ↦ rw (there, mode, slot token, e) (sh, refl)
            | inr e ↦
                rw (there, mode, slot token, e)
                  (given-Agrees
                    (r.hset (r.hincr s now key "readers").0 now key
                      ((reader_field token, Datum.str "1") ∷ []))
                    now ttl 1 l (Mode.reading (token ∷ ts)) room
                    (join s now l ts token live (omega (arith, sound.1))))
          ]
      go (Op.read_release token ttl) there mode slot live = elim (Bool-cases (member token ts)) [
        | inl e ↦
            rw (there, mode, slot token, e)
              (let s₂ = (r.hdecr (r.hdel s now key (reader_field token)) now key "readers").0 in
                let (fields, count) = leave s now l ts token live sound.0 e in
                rw count (left-Agrees s₂ now ttl l (without token ts) fields))
        | inr e ↦ rw (there, mode, slot token, e) (sh, refl)
      ]
      go (Op.write_acquire token ttl fttl) there mode slot live = rw (there, mode) (sh, refl)
      go (Op.write_release token) there mode slot live = rw (there, mode) (sh, refl)
      go (Op.extend token ttl) there mode slot live =
          rw (there, mode)
            (
              pexpire-Shows encode r key fence_key ne s now ttl l.grants (Mode.reading ts) live,
              refl,
            )

  -- Every call keeps the promise, in a state that the scripts have made, whose next grant is below
  -- 2 ^ 63.
  pub perform-Agrees :
      (s : Store) (now : ℕ) (l : RwState) (op : Op)
      → Shows s now l
      → SoundNow (at now l.mode) l.grants
      → suc l.grants < 2 ^ 63
      → Agrees now (perform s now op) (step l now op)
  unfolding step
  perform-Agrees s now l op sh sound room = elim (Option-cases (at now l.mode)) [
    | inl free ↦ rw free (perform-free s now l op sh free room)
    | inr (m, held) ↦ rw held (by_mode m held (rw held at sound))
  ]
    where
      by_mode :
          (m : Mode) → at now l.mode ≡ some m → Sound m l.grants → Promised s now l (some m) op
      by_mode (Mode.reading ts) held sound = perform-reading s now l ts op sh held sound room
      by_mode (Mode.writing t) held sound = perform-writing s now l t op sh held room
