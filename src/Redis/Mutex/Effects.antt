-- ===== src/Redis/Mutex/Effects.antt =====
-- What each script of the mutex does to what later reads see, case by case.
use lock_dis.Prelude.{
  ℕ, suc, ◌+◌, ◌≤◌, ◌≡◌, refl, ◌∙◌, inl, inr, Option, none, some, String, if◌then◌else◌, same,
  same_refl, arith, Bool-cases, wrap-ne, sym, ◌≢◌,
}
use lock_dis.Redis.Server.{Redis, Value, until, in_place, IsCounter, counted}
use lock_dis.Redis.Mutex.{fence_key_for, issue_fence}

-- A lock's fence counter is never kept under the lock's own key.
pub fence_key_for-ne : (key : String) → key ≢ fence_key_for key
unfolding fence_key_for
fence_key_for-ne key e = wrap-ne "{" "}:fence" key (λ z. absurd (omega arith)) (sym e)

in_place_now : (o : Option Value) (v : Value) → in_place o o v ≡ some v
in_place_now none v = refl
in_place_now (some _) v = refl

module _ (r : Redis) where
  open r use {Store, read, get, set_nx_px, del, pexpire, incr}

  -- Every read from `now` on is the same in both stores.
  abbrev pub SameReads : ℕ → Store → Store → Type 0
  SameReads now s s' = (t : ℕ) (j : String) → now ≤ t → read s' t j ≡ read s t j

  pub issue_fence-reply :
      (s : Store) (now : ℕ) (fence_key : String) (fence_ttl status : ℕ)
      → IsCounter (read s now fence_key)
      → (issue_fence r s now fence_key fence_ttl status).1
        ≡ record { status = status; fence = suc (counted (read s now fence_key)) }
  unfolding issue_fence
  issue_fence-reply s now fk fttl status c = rw (r.incr-reply s now fk c)

  pub issue_fence-read :
      (s : Store) (now : ℕ) (fence_key : String) (fence_ttl status t : ℕ) (j : String)
      → IsCounter (read s now fence_key)
      → now ≤ t
      → read (issue_fence r s now fence_key fence_ttl status).0 t j ≡ (
          if same fence_key j
          then until t (now + fence_ttl) (Value.number (suc (counted (read s now fence_key))))
          else read s t j)
  unfolding issue_fence
  issue_fence-read s now fk fttl status t j c le =
      r.pexpire-read (incr s now fk).0 now fk fttl t j le ∙ (elim (Bool-cases (same fk j)) [
        | inl e ↦ rw (
          e,
          r.incr-read s now fk now fk c (omega arith),
          same_refl fk,
          in_place_now (read s now fk) (Value.number (suc (counted (read s now fk)))),
        )
        | inr e ↦ rw (e, r.incr-read s now fk t j c le, e)
      ])
