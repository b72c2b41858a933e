-- ===== src/Redis/Multi.antt =====
-- crates/redis/src/multi.rs: several keys, all or none, in sorted order. Tokens, and what becomes of
-- the calls, are given for each by its number. The names in the error of a timeout are an argument.
pub mod Rounds
mod Examples
use Prim.Native.Nat.{Ordering}
use Prim.Native.String.{compare}
use lock_dis.Prelude.{
  ℕ, suc, Bool, true, false, Option, none, some, String, List, [], ◌∷◌, if◌then◌else◌, same, Result,
  ok, err, map,
}
use mathlib.Core.List.{reverse}
use lock_dis.Redis.Server.{Redis}
use lock_dis.Redis.Polling.{Turn, poll}
use lock_dis.Redis.Manager.{
  Error, Handle, LockOptions, Trip, validate, try_lock_with, handle_release, drop,
}

-- `sort` on the names of the keys
abbrev pub text_le : String → String → Bool
text_le a b = elim (compare a b) [ Ordering.gt ↦ false | _ ↦ true ]

unfoldable pub insert_key : String → List String → List String
insert_key k [] = k ∷ []
insert_key k (j ∷ ks) = let rest = insert_key k ks in if text_le k j then k ∷ (j ∷ ks) else j ∷ rest

unfoldable pub sort_keys : List String → List String
unfolding insert_key
sort_keys [] = []
sort_keys (k ∷ ks) = insert_key k (sort_keys ks)

-- `sorted.windows(2).any(|w| w[0] == w[1])`
unfoldable pub has_duplicate : List String → Bool
has_duplicate [] = false
has_duplicate (k ∷ []) = false
has_duplicate (k ∷ (j ∷ ks)) = let rest = has_duplicate (j ∷ ks) in if same k j then true else rest

-- What becomes of the calls of a round: the acquisitions, and the releases when it is undone; the
-- tokens that it generates; the store that it finds, and the instant after it.
pub record Round (S : Type 0) : Type 0 where
  pub there : ℕ → Trip S
  pub back : ℕ → Trip S
  pub tokens : ℕ → String
  pub store : S
  pub instant : ℕ

abbrev pub error_or : Option Error → Error → Option Error
error_or none e = some e
error_or (some first) e = some first

abbrev pub as_result : Option Error → Result Error (Unit {0})
as_result none = ok tt
as_result (some e) = err e

-- `Error::Held` and `Error::Backend`, at which a round is rolled back
unfoldable pub rolls_back : Error → Bool
rolls_back (Error.held _) = true
rolls_back Error.backend = true
rolls_back _ = false

module _ (r : Redis) where
  open r use {Store}

  -- The releases are numbered from `i`; the handles stand in the order of the releases.
  unfoldable pub roll_back_all : (ℕ → Trip Store) → ℕ → Store → List Handle → Store
  roll_back_all back i s [] = s
  roll_back_all back i s (h ∷ hs) =
      let trip = back i in
      roll_back_all back (suc i) (handle_release r trip.link (trip.meanwhile s) trip.now h).0 hs

  unfoldable pub drop_all : (ℕ → Trip Store) → ℕ → Store → List Handle → Store
  drop_all back i s [] = s
  drop_all back i s (h ∷ hs) =
      let trip = back i in
      drop_all back (suc i) (drop r trip.link (trip.meanwhile s) trip.now h).0 hs

  -- The keys left, and the handles taken so far, the newest first.
  unfoldable pub take_each :
      Round Store
      → LockOptions
      → (watchdog_default : Bool) → ℕ
      → Store
      → List String
      → List Handle
      → Store × Result Error (List Handle)
  unfolding roll_back_all rolls_back drop_all
  take_each round options wd i s [] taken = (s, ok (reverse taken))
  take_each round options wd i s (key ∷ keys) taken =
      let trip = round.there i in
      let tried =
        try_lock_with r trip.link (trip.meanwhile s) trip.now key (round.tokens i) options wd in
      let onward = λ (h : Handle). take_each round options wd (suc i) tried.0 keys (h ∷ taken) in
      elim tried.1 [
        | ok h ↦ onward h
        | err e ↦ (
          if rolls_back e
              then roll_back_all round.back 0 tried.0 taken
              else drop_all round.back 0 tried.0 (reverse taken),
          err e,
        )
      ]

  unfoldable pub round_turns :
      LockOptions
      → (watchdog_default : Bool) → List String
      → List (Round Store)
      → List (Turn (List Handle))
  unfolding take_each
  round_turns options wd keys [] = []
  round_turns options wd keys (round ∷ rounds) =
      record {
        outcome = (take_each round options wd 0 round.store keys []).1;
        instant = round.instant;
      }
      ∷ round_turns options wd keys rounds

  -- `none` says that the loop still runs.
  unfoldable pub try_lock_all :
      LockOptions
      → (watchdog_default : Bool) → List String
      → (names : String) (deadline : ℕ) → List (Round Store)
      → Option (Result Error (List Handle))
  unfolding validate sort_keys has_duplicate round_turns poll
  try_lock_all options wd keys names deadline rounds = elim (validate options) [
    | err e ↦ some (err e)
    | ok _ ↦
        if has_duplicate (sort_keys keys)
        then some (err (Error.invalid_config 0))
        else poll names deadline (round_turns options wd (sort_keys keys) rounds)
  ]

  -- `MultiLockHandle::release_all`, for the handles from the last to the first; the first error is
  -- the one that is returned.
  unfoldable pub release_each :
      (ℕ → Trip Store) → ℕ → Store → List Handle → Option Error → Store × Result Error (Unit {0})
  release_each back i s [] first = (s, as_result first)
  release_each back i s (h ∷ hs) first =
      let trip = back i in
      let (s₁, h₁, res) = handle_release r trip.link (trip.meanwhile s) trip.now h in
      release_each back (suc i) s₁ hs (elim res [ ok _ ↦ first | err e ↦ error_or first e ])

  unfoldable pub release_all_keys :
      (ℕ → Trip Store) → Store → List Handle → Store × Result Error (Unit {0})
  unfolding release_each
  release_all_keys back s handles = release_each back 0 s (reverse handles) none
