-- ===== src/Server/Sessions.antt =====
-- crates/server/src/sessions.rs: the book of sessions, locked as a whole by each method, and the
-- entries that a sweep finds expired. Times are in nanoseconds; the clock is an argument. The
-- release of the locks is in Closing; the sweeper's task is left out.
pub mod Cadence
pub mod Closing
use lock_dis.Prelude.{
  ℕ, ◌+◌, ◌-◌, ◌/◌, Bool, true, false, Option, none, some, List, [], ◌∷◌, ◌++◌, String,
  if◌then◌else◌, ltb, same,
}

pub record SessionEntry : Type 0 where
  pub client_id : String
  pub ttl : ℕ
  pub last_seen : ℕ
  pub hb_floor : ℕ
  pub locks : List (String × String)

pub data HbResult : Type 0 where
  accepted rate_limited unknown : HbResult

abbrev pub Book : Type 0
Book = String → Option SessionEntry

abbrev pub put : Book → String → Option SessionEntry → Book
put book token e other = if same token other then e else book other

-- `register`, for the token that it has generated
unfoldable pub register : Book → ℕ → String → String → ℕ → Book
register book now token client_id ttl = put book token (
    some (record { client_id = client_id; ttl = ttl; last_seen = now; hb_floor = now; locks = [] }))

unfoldable pub heartbeat : Book → ℕ → String → HbResult × Book
heartbeat book now token = elim (book token) [
  | none ↦ (HbResult.unknown, book)
  | some e ↦ if ltb now e.hb_floor then (HbResult.rate_limited, book) else (
    HbResult.accepted,
    put book token (some (record e { hb_floor = now + e.ttl / 20; last_seen = now })),
  )
]

unfoldable pub bind : Book → ℕ → String → String → String → Bool × Book
bind book now token key lock_token = elim (book token) [
  | none ↦ (false, book)
  | some e ↦ (
    true,
    put book token
        (some (record e { last_seen = now; locks = e.locks ++ ((key, lock_token) ∷ []) })),
  )
]

-- The locks bound to a session, which is dropped.
unfoldable pub remove : Book → String → List (String × String) × Book
remove book token = elim (book token) [
  | none ↦ ([], book)
  | some e ↦ (e.locks, put book token none)
]

-- `last_seen.elapsed() > ttl`
unfoldable pub expired : ℕ → SessionEntry → Bool
expired now e = ltb e.ttl (now - e.last_seen)
