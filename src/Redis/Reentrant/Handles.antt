-- ===== src/Redis/Reentrant/Handles.antt =====
-- Handles of the reentrant lock whose owner has lost it.
use lock_dis.Prelude.{
  ℕ, ◌≤◌, ◌≡◌, refl, sym, ◌∙◌, ◌⊎◌, inl, inr, Bool, true, false, Option, none, some, String, ltb,
  same, arith, Bool-cases, Option-cases, Result, err,
}
use mathlib.Core.Bool.{false≢true}
use lock_dis.Redis.Server.{Redis}
use lock_dis.Redis.Mutex.{fence_key_for}
use lock_dis.Redis.Mutex.Effects.{fence_key_for-ne}
use lock_dis.Redis.Mutex.Lease.{at}
use lock_dis.Redis.Manager.{Error, Link, call, min_ttl}
use lock_dis.Redis.Reentrant.{
  ReentrantHandle, mark_gone, is_str, reentrant_release, reentrant_release_all, reentrant_extend,
  settled, release_one, release_all, drop, on_extended, extend,
}
use lock_dis.Redis.Reentrant.Spec.{Holds, Reentrant}
use lock_dis.Redis.Reentrant.Writes.{encode, Shows, seen-held}
use lock_dis.Redis.Slot.{exists-at}

abbrev pub is_owner : Option Holds → String → Bool
is_owner none token = false
is_owner (some h) token = same h.owner token

module _ (r : Redis) (s : r.Store) (now : ℕ) (l : Reentrant) (h : ReentrantHandle) where
  abbrev pub Lost : Type 0
  Lost =
      Shows r h.key (fence_key_for h.key) (fence_key_for-ne h.key) s now l
      × (is_owner (at now l.holds) h.token ≡ false)

  -- What the tests at the head of each script see.
  abbrev Barred : Type 0
  Barred =
      (r.exists s now h.key ≡ false)
      ⊎ ((r.exists s now h.key ≡ true) × (is_str (r.hget s now h.key "owner") h.token ≡ false))

  seen : Lost → Barred
  seen (sh, not_mine) = elim (Option-cases (at now l.holds)) [
    | inl free ↦ inl (
        exists-at encode r h.key (fence_key_for h.key) (fence_key_for-ne h.key) s now l.grants
          l.holds sh
        ∙ rw free)
    | inr (holds, held) ↦
        let (there, owner) =
          seen-held r h.key (fence_key_for h.key) (fence_key_for-ne h.key) s now l holds sh held in
        inr (there, rw owner (rw held at not_mine))
  ]

  scripts_refuse :
      (ttl : ℕ)
      → Barred
      → (reentrant_release r s now h.key h.token ttl ≡ (s, none))
        × (reentrant_release_all r s now h.key h.token ≡ (s, none))
        × (reentrant_extend r s now h.key h.token ttl ≡ (s, none))
  unfolding reentrant_release reentrant_release_all reentrant_extend
  scripts_refuse ttl (inl gone) = rw gone (refl, refl, refl)
  scripts_refuse ttl (inr (there, other)) = rw (there, other) (refl, refl, refl)

  -- A handle in use whose owner does not hold the lock leaves the server as it is, dropped,
  -- released, released altogether or extended, and the latter three are told that the lock is lost;
  -- an extension asks for at least the smallest lease time and ends the handle.
  pub lost_handle-told :
      (ttl : ℕ)
      → Lost
      → h.gone ≡ false
      → min_ttl ≤ ttl
      → let ended = record h { gone = true } in
        let told : Result Error (Unit {0}) = err (Error.lost h.key h.fence) in
        ((drop r Link.up s now h).0 ≡ s)
        × (release_one r Link.up s now h ≡ (s, ended, told))
        × (release_all r Link.up s now h ≡ (s, ended, told))
        × (extend r Link.up s now h ttl ≡ (s, ended, told))
  unfolding drop release_one release_all extend mark_gone call settled on_extended
  lost_handle-told ttl lost live long =
      let (_, released_all, extended) = scripts_refuse ttl (seen lost) in
      let (released_own, _, _) = scripts_refuse h.ttl (seen lost) in
      let (dropped, _, _) = scripts_refuse 0 (seen lost) in
      let early : ltb ttl min_ttl ≡ false = ground arith in
      elim (Bool-cases h.gone) [
        | inl e ↦ absurd (false≢true (sym live ∙ e))
        | inr e ↦
            simp (e, early, released_own, dropped, released_all, extended) (refl, refl, refl, refl)
      ]
