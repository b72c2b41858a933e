-- ===== src/Server/Sessions/Closing.antt =====
-- The release of a session's locks (crates/server/src/sessions.rs): on an explicit close, and by a
-- sweep for the sessions that it finds expired.
pub mod Frees
use lock_dis.Prelude.{
  ℕ, suc, ◌+◌, Bool, true, false, Option, none, some, List, [], ◌∷◌, String, if◌then◌else◌, Result,
  ok, err,
}
use lock_dis.Redis.Server.{Redis}
use lock_dis.Redis.Manager.{Trip, Error, unlock_with_token}
use lock_dis.Server.Sessions.{SessionEntry, Book, remove, expired}

abbrev pub Locks : Type 0
Locks = List (String × String)

abbrev pub is_ok {ℓ} : {E : Type 0} {A : Type ℓ} → Result E A → Bool
is_ok (ok a) = true
is_ok (err e) = false

-- The tokens that the book's keys list, in the order of the map, and whose entries are expired
unfoldable pub expired_tokens : Book → ℕ → List String → List String
unfolding expired
expired_tokens book now [] = []
expired_tokens book now (token ∷ tokens) =
    let others = expired_tokens book now tokens in
    elim (book token) [ none ↦ others | some e ↦ if expired now e then token ∷ others else others ]

module _ (r : Redis) where
  -- The calls are numbered from `i`; the result counts those that succeeded.
  unfoldable pub release_all : (ℕ → Trip r.Store) → ℕ → r.Store → Locks → r.Store × ℕ
  release_all trips i s [] = (s, 0)
  release_all trips i s ((key, lock_token) ∷ locks) =
      let trip = trips i in
      let (s₁, res) = unlock_with_token r trip.link (trip.meanwhile s) trip.now key lock_token in
      let (s₂, n) = release_all trips (suc i) s₁ locks in (s₂, (if is_ok res then 1 else 0) + n)

  unfoldable pub close : (ℕ → Trip r.Store) → r.Store → Book → String → (r.Store × Book) × ℕ
  unfolding remove release_all
  close trips s book token =
      let (locks, book₁) = remove book token in
      let (s₁, n) = release_all trips 0 s locks in ((s₁, book₁), n)

  -- The loop of `sweep_once`. Between two tokens other requests change the book and the store.
  unfoldable pub sweep_each :
      (String → Book → Book)
      → (String → ℕ → Trip r.Store)
      → r.Store
      → Book
      → List String
      → r.Store × Book
  unfolding remove release_all
  sweep_each others trips s book [] = (s, book)
  sweep_each others trips s book (token ∷ tokens) =
      let book₁ = others token book in
      let (locks, book₂) = remove book₁ token in
      let (s₁, n) = release_all (trips token) 0 s locks in
      let skipped = sweep_each others trips s book₁ tokens in
      let swept = sweep_each others trips s₁ book₂ tokens in
      elim (book₁ token) [ none ↦ skipped | some e ↦ swept ]

  unfoldable pub sweep_once :
      (String → Book → Book)
      → (String → ℕ → Trip r.Store)
      → ℕ
      → r.Store
      → Book
      → List String
      → r.Store × Book
  unfolding expired_tokens sweep_each
  sweep_once others trips now s book tokens =
      sweep_each others trips s book (expired_tokens book now tokens)
