-- ===== src/Redis/Reentrant/Refines.antt =====
-- The four scripts keep the promise of Spec, call by call.
use lock_dis.Prelude.{
  leb-suc_zero, ℕ, suc, ◌+◌, ◌≤◌, ◌<◌, ◌^◌, ◌≡◌, ◌≢◌, refl, sym, ap, ◌∙◌, inl, inr, true, false,
  none, some, String, [], ◌∷◌, if◌then◌else◌, ltb, same, same_iff, same_refl, arith, Bool-cases,
  Option-cases, ℕ-cases,
}
use lock_dis.Redis.Server.{Redis, Datum, with_field}
use lock_dis.Redis.Mutex.Lease.{at}
use lock_dis.Redis.Reentrant.{
  reentrant_acquire, reentrant_release, reentrant_release_all, reentrant_extend,
}
use lock_dis.Redis.Reentrant.Spec.{
  Holds, Op, Reentrant, Answer, leased, deadline_of, promise, step, token_of, Counted,
}
use lock_dis.Redis.Slot.{
  Wrote, Counts-Wrote, Wrote-Live, Wrote-Shows, exists-at, pexpire-Shows, grant-Shows, del-Shows,
}
use lock_dis.Redis.Reentrant.Writes.{
  encode, at-some, perform, Shows, Agrees, read-held, hset-Wrote, hincr-Wrote, hdecr-Wrote,
  hdecr-count, seen-held, recount,
}

module _ (r : Redis) (key fence_key : String) (ne : key ≢ fence_key) where
  open r use {Store, read, exists, hget}

  perform-absent :
      (s : Store) (now : ℕ) (l : Reentrant) (op : Op)
      → Shows r key fence_key ne s now l
      → at now l.holds ≡ none
      → suc l.grants < 2 ^ 63
      → Agrees r key fence_key ne now (perform r key fence_key ne s now op) (step l now op)
  unfolding reentrant_acquire reentrant_release reentrant_release_all reentrant_extend step promise
  perform-absent s now l (Op.acquire token ttl fttl) sh free room =
      let there = exists-at encode r key fence_key ne s now l.grants l.holds sh in
      let s₁ = r.hset s now key (("owner", Datum.str token) ∷ ("count", Datum.int 1) ∷ []) in
      let h : Holds = record { owner = token; nested = 0 } in
      let (shows, reply) = grant-Shows encode r key fence_key ne s₁ now l.grants ttl 1 h room (
        Wrote-Live encode r key fence_key ne s s₁ now l.grants h sh.1
          (hset-Wrote r key fence_key ne s now l token sh free)) in
      rw (there, free) (shows, ap Answer.granted reply)
  perform-absent s now l (Op.release token ttl) sh free room =
      rw (exists-at encode r key fence_key ne s now l.grants l.holds sh, free) (sh, refl)
  perform-absent s now l (Op.release_all token) sh free room =
      rw (exists-at encode r key fence_key ne s now l.grants l.holds sh, free) (sh, refl)
  perform-absent s now l (Op.extend token ttl) sh free room =
      rw (exists-at encode r key fence_key ne s now l.grants l.holds sh, free) (sh, refl)

  perform-other :
      (s : Store) (now : ℕ) (l : Reentrant) (h : Holds) (op : Op)
      → Shows r key fence_key ne s now l
      → at now l.holds ≡ some h
      → same h.owner (token_of op) ≡ false
      → Agrees r key fence_key ne now (perform r key fence_key ne s now op) (step l now op)
  unfolding reentrant_acquire reentrant_release reentrant_release_all reentrant_extend step promise
  perform-other s now l h op sh held e =
      let (there, owner) = seen-held r key fence_key ne s now l h sh held in refuse op there owner e
    where
      refuse :
          (op : Op)
          → exists s now key ≡ true
          → hget s now key "owner" ≡ some (Datum.str h.owner)
          → same h.owner (token_of op) ≡ false
          → Agrees r key fence_key ne now (perform r key fence_key ne s now op) (step l now op)
      refuse (Op.acquire token ttl fttl) there owner e = rw (there, owner, held, e) (sh, refl)
      refuse (Op.release token ttl) there owner e = rw (there, owner, held, e) (sh, refl)
      refuse (Op.release_all token) there owner e = rw (there, owner, held, e) (sh, refl)
      refuse (Op.extend token ttl) there owner e = rw (there, owner, held, e) (sh, refl)

  -- Its holder gives up one hold of several.
  give_back :
      (s : Store) (now ttl n : ℕ) (l : Reentrant) (h : Holds)
      → Shows r key fence_key ne s now l
      → at now l.holds ≡ some h
      → h.nested ≡ suc n
      → let s₁ = (r.hdecr s now key "count").0 in
        Shows r key fence_key ne
          (if ltb 0 ttl then r.pexpire s₁ now key ttl else s₁)
          now
          (record l {
            holds = leased h.owner n (if ltb 0 ttl then now + ttl else deadline_of l.holds);
          })
  give_back s now ttl n l h sh held e =
      let s₁ = (r.hdecr s now key "count").0 in
      let h' : Holds = record h { nested = n } in
      let wrote : Wrote encode r key fence_key ne s now s₁ (encode h') = λ t j le.
        hdecr-Wrote r key fence_key ne s now (suc n) l h sh held e t j le ∙ rw (recount h n) in
      let (d, is, early) = at-some now l.holds h held in
      elim (Bool-cases (ltb 0 ttl)) [
        | inl renewed ↦ rw renewed (
            pexpire-Shows encode r key fence_key ne s₁ now ttl l.grants h'
              (Wrote-Live encode r key fence_key ne s s₁ now l.grants h' sh.1 wrote))
        | inr left ↦
            rw (left, is)
              (Wrote-Shows encode r key fence_key ne s s₁ now d l.grants h h' early (rw is at sh)
                wrote)
      ]

  perform-release_own :
      (s : Store) (now ttl : ℕ) (l : Reentrant) (h : Holds)
      → Shows r key fence_key ne s now l
      → at now l.holds ≡ some h
      → Agrees r key fence_key ne now
          (perform r key fence_key ne s now (Op.release h.owner ttl))
          (step l now (Op.release h.owner ttl))
  unfolding reentrant_release step promise
  perform-release_own s now ttl l h sh held =
      let (there, owner) = seen-held r key fence_key ne s now l h sh held in
      let count = hdecr-count r key fence_key ne s now l h sh held in
      let s₁ = (r.hdecr s now key "count").0 in
      elim (ℕ-cases h.nested) [
        | inl last ↦
            rw (there, owner, held, same_refl h.owner, count, last)
              (
                del-Shows encode r key fence_key ne s₁ now l.grants (
                    Counts-Wrote encode r key fence_key ne s s₁ now l.grants
                      (with_field (encode h) "count" (some (Datum.int h.nested))) sh.1
                      (hdecr-Wrote r key fence_key ne s now h.nested l h sh held refl)),
                refl,
              )
        | inr (n, more) ↦
            rw (there, owner, held, same_refl h.owner, count, more, leb-suc_zero n)
              (give_back s now ttl n l h sh held more, refl)
      ]

  -- The holder's own calls.
  perform-own :
      (s : Store) (now : ℕ) (l : Reentrant) (h : Holds) (op : Op)
      → Shows r key fence_key ne s now l
      → at now l.holds ≡ some h
      → h.owner ≡ token_of op
      → suc h.nested ≤ l.grants
      → suc l.grants < 2 ^ 63
      → Agrees r key fence_key ne now (perform r key fence_key ne s now op) (step l now op)
  unfolding reentrant_acquire reentrant_release_all reentrant_extend step promise
  perform-own s now l h (Op.acquire token ttl fttl) sh held e few room =
      let h' : Holds = record { owner = token; nested = suc h.nested } in
      let s₁ = (r.hincr s now key "count").0 in
      let (shows, reply) = grant-Shows encode r key fence_key ne s₁ now l.grants ttl 2 h' room (
        Wrote-Live encode r key fence_key ne s s₁ now l.grants h' sh.1
          (rw (sym e) (hincr-Wrote r key fence_key ne s now l h sh held (omega arith)))) in
      let (there, owner) = seen-held r key fence_key ne s now l h sh held in
      rw (there, owner, held, e, same_refl token) (shows, ap Answer.granted reply)
  perform-own s now l h (Op.release token ttl) sh held e few room =
      rw (sym e) (perform-release_own s now ttl l h sh held)
  perform-own s now l h (Op.release_all token) sh held e few room =
      let (there, owner) = seen-held r key fence_key ne s now l h sh held in
      rw (there, owner, held, e, same_refl token)
        (del-Shows encode r key fence_key ne s now l.grants sh.1, refl)
  perform-own s now l h (Op.extend token ttl) sh held e few room =
      let (there, owner) = seen-held r key fence_key ne s now l h sh held in
      rw (there, owner, held, e, same_refl token)
        (
          pexpire-Shows encode r key fence_key ne s now ttl l.grants
              (record { owner = token; nested = h.nested })
              (rw (sym e) (read-held r key fence_key ne s now l h sh held), sh.1),
          refl,
        )

  Counted-at :
      (l : Reentrant) (now : ℕ) (h : Holds)
      → Counted l.holds l.grants
      → at now l.holds ≡ some h
      → suc h.nested ≤ l.grants
  Counted-at l now h c held = let (d, is, _) = at-some now l.holds h held in rw is at c

  pub perform-Agrees :
      (s : Store) (now : ℕ) (l : Reentrant) (op : Op)
      → Shows r key fence_key ne s now l
      → Counted l.holds l.grants
      → suc l.grants < 2 ^ 63
      → Agrees r key fence_key ne now (perform r key fence_key ne s now op) (step l now op)
  perform-Agrees s now l op sh c room = elim (Option-cases (at now l.holds)) [
    | inl free ↦ perform-absent s now l op sh free room
    | inr (h, held) ↦ elim (Bool-cases (same h.owner (token_of op))) [
      | inl e ↦
          perform-own s now l h op sh held ((same_iff h.owner (token_of op)).0 e)
            (Counted-at l now h c held) room
      | inr e ↦ perform-other s now l h op sh held e
    ]
  ]
