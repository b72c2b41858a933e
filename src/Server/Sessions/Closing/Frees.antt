-- ===== src/Server/Sessions/Closing/Frees.antt =====
-- After a session is closed none of its locks is left to it.
use lock_dis.Prelude.{
  ℕ, suc, ◌≤◌, ◌≡◌, refl, none, some, [], ◌∷◌, String, All, arith, same_refl, length, Bool-cases,
  inl, inr,
}
use lock_dis.Redis.Server.{Redis}
use lock_dis.Redis.Manager.{Trip, unlock_with_token}
use lock_dis.Redis.Manager.Freed.{
  Orderly, Quiet, Freed, Freed-later, unlock_with_token-Freed, unlock_other-Freed,
}
use lock_dis.Server.Sessions.{SessionEntry, Book, remove}
use lock_dis.Server.Sessions.Closing.{Locks, is_ok, release_all, close}

module _ (r : Redis) (trips : ℕ → Trip r.Store) where
  module _ {u : ℕ} (o : Orderly r trips u) where
    release_all-keeps :
        (i : ℕ) (s : r.Store) (locks : Locks) (key token : String)
        → Quiet r trips key token
        → Freed r key token s (trips i).now
        → Freed r key token (release_all r trips i s locks).0 u
    unfolding release_all
    release_all-keeps i s [] key token q free =
        Freed-later r key token s (trips i).now u (o.over i) free
    release_all-keeps i s ((k, other) ∷ locks) key token q free =
        let s₀ = (trips i).meanwhile s in
        let s₁ = (unlock_with_token r (trips i).link s₀ (trips i).now k other).0 in
        release_all-keeps (suc i) s₁ locks key token q (
          Freed-later r key token s₁ (trips i).now (trips (suc i)).now (o.in_order i)
            (unlock_other-Freed r (trips i).link s₀ (trips i).now k other key token (q i s free)))

    release_all-Freed :
        (i : ℕ) (s : r.Store) (locks : Locks)
        → All (λ l. Quiet r trips l.0 l.1) locks
        → All (λ l. Freed r l.0 l.1 (release_all r trips i s locks).0 u) locks
    unfolding release_all
    release_all-Freed i s [] q = tt
    release_all-Freed i s ((k, token) ∷ locks) q =
        let s₀ = (trips i).meanwhile s in
        let s₁ = (unlock_with_token r (trips i).link s₀ (trips i).now k token).0 in
        (
          release_all-keeps (suc i) s₁ locks k token q.0 (
              Freed-later r k token s₁ (trips i).now (trips (suc i)).now (o.in_order i)
                (unlock_with_token-Freed r (trips i).link s₀ (trips i).now k token (o.arrives i))),
          release_all-Freed (suc i) s₁ locks q.1,
        )

  release_all-le-length :
      (i : ℕ) (s : r.Store) (locks : Locks) → (release_all r trips i s locks).1 ≤ length locks
  unfolding release_all
  release_all-le-length i s [] = omega arith
  release_all-le-length i s ((k, token) ∷ locks) =
      let done = unlock_with_token r (trips i).link ((trips i).meanwhile s) (trips i).now k token in
      let rest = release_all-le-length (suc i) done.0 locks in
      elim (Bool-cases (is_ok done.1)) [
        | inl e ↦ rw e (omega (arith, rest))
        | inr e ↦ rw e (omega (arith, rest))
      ]

  -- Closing a session drops it from the book, and no key that was bound to it shows the token that
  -- it was bound with any more, when the calls reach the store, one after the other, and what others
  -- do in between brings none of these tokens back to its key; at most as many locks are reported as
  -- were bound.
  pub close-frees :
      (s : r.Store) (book : Book) (token : String) (e : SessionEntry) (u : ℕ)
      → book token ≡ some e
      → Orderly r trips u
      → All (λ l. Quiet r trips l.0 l.1) e.locks
      → let ((s', book'), released) = close r trips s book token in
        (book' token ≡ none) × All (λ l. Freed r l.0 l.1 s' u) e.locks × (released ≤ length e.locks)
  unfolding close remove
  close-frees s book token e u found o quiet =
      rw (close, remove, found, same_refl token)
        (refl, release_all-Freed o 0 s e.locks quiet, release_all-le-length 0 s e.locks)
