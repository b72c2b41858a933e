-- ===== src/Redis/Server.antt =====
-- The Redis server as the scripts under crates/redis/src/scripts use it. A store is observed by
-- `read`: what a key holds at a time, in milliseconds of the server's clock. Each law states the
-- documented reply or effect of a command that runs at `now`, as later reads see it.
use lock_dis.Prelude.{
  ℕ, suc, ◌+◌, ◌≤◌, ◌<◌, ◌^◌, ◌≡◌, Bool, true, false, not, Option, none, some, String,
  if◌then◌else◌, ltb, same, List, [], ◌∷◌, ◌≢◌, length,
}

-- A field of a hash: a text, or a number that HINCRBY changes.
pub data Datum : Type 0 where
  str : String → Datum
  int : ℕ → Datum

pub data Value : Type 0 where
  text : String → Value
  number : ℕ → Value
  hash : (String → Option Datum) → Value
  zset : List (String × ℕ) → Value

-- What a value that is kept until a deadline is at time `t`.
abbrev pub until {ℓ} : {A : Type ℓ} → ℕ → ℕ → A → Option A
until t deadline v = if ltb t deadline then some v else none

abbrev pub is_some {ℓ} : {A : Type ℓ} → Option A → Bool
is_some none = false
is_some (some a) = true

-- GET on what a key holds; a lock is never read through another type.
abbrev pub as_text : Option Value → Option String
as_text (some (Value.text v)) = some v
as_text _ = none

abbrev pub as_number : Option Value → Option ℕ
as_number (some (Value.number n)) = some n
as_number _ = none

-- HGET and HEXISTS
abbrev pub as_field : Option Value → String → Option Datum
as_field (some (Value.hash h)) f = h f
as_field _ f = none

-- A write into what a key holds keeps its deadline: it shows as long as the old value would have.
abbrev pub in_place : Option Value → Option Value → Value → Option Value
in_place none later v = some v
in_place (some _) none v = none
in_place (some _) (some _) v = some v

-- INCR fails on anything else, and past the signed 64-bit range.
abbrev pub IsCounter : Option Value → Type 0
IsCounter none = Unit
IsCounter (some (Value.number n)) = suc n < 2 ^ 63
IsCounter (some _) = ⊥

abbrev pub counted : Option Value → ℕ
counted (some (Value.number n)) = n
counted _ = 0

-- HSET on a hash, or on a key that is not there
abbrev pub fields_of : Option Value → String → Option Datum
fields_of (some (Value.hash h)) = h
fields_of _ = λ _. none

abbrev pub with_field : (String → Option Datum) → String → Option Datum → String → Option Datum
with_field h f d g = if same f g then d else h g

abbrev pub with_fields : (String → Option Datum) → List (String × Datum) → String → Option Datum
with_fields h [] = h
with_fields h ((f, d) ∷ fs) = with_fields (with_field h f (some d)) fs

abbrev pub number_of : Option Datum → ℕ
number_of (some (Datum.int n)) = n
number_of _ = 0

abbrev pub IsHash : Option Value → Type 0
IsHash none = Unit
IsHash (some (Value.hash _)) = Unit
IsHash (some _) = ⊥

-- The members of a sorted set, with their scores.
abbrev pub Members : Type 0
Members = List (String × ℕ)

abbrev pub as_members : Option Value → Members
as_members (some (Value.zset ms)) = ms
as_members _ = []

abbrev pub score_of : String → Members → Option ℕ
score_of m [] = none
score_of m ((n, score) ∷ ms) = let rest = score_of m ms in if same n m then some score else rest

abbrev pub with_member : String → ℕ → Members → Members
with_member m score [] = (m, score) ∷ []
with_member m score ((n, old) ∷ ms) =
    let rest = with_member m score ms in if same n m then (m, score) ∷ ms else (n, old) ∷ rest

abbrev pub without_member : String → Members → Members
without_member m [] = []
without_member m ((n, score) ∷ ms) =
    let rest = without_member m ms in if same n m then ms else (n, score) ∷ rest

-- Those with a score above the bound.
abbrev pub above : ℕ → Members → Members
above bound [] = []
above bound ((n, score) ∷ ms) =
    let rest = above bound ms in if ltb bound score then (n, score) ∷ rest else rest

abbrev pub IsZset : Option Value → Type 0
IsZset none = Unit
IsZset (some (Value.zset _)) = Unit
IsZset (some _) = ⊥

-- A sorted set without members is no key; what is left keeps its deadline.
abbrev pub kept : Option Value → Members → Option Value
kept none ms = none
kept (some _) [] = none
kept (some _) (m ∷ ms) = some (Value.zset (m ∷ ms))

pub record Redis : Type 1 where
  pub Store : Type 0
  pub read : Store → ℕ → String → Option Value
  -- A key's value shows until it lapses, and then never again.
  pub lapse :
      (s : Store) (t u : ℕ) (k : String) (v : Value)
      → t ≤ u
      → read s u k ≡ some v
      → read s t k ≡ some v
  pub get : Store → ℕ → String → Option String
  pub get-reply : (s : Store) (now : ℕ) (k : String) → get s now k ≡ as_text (read s now k)
  pub exists : Store → ℕ → String → Bool
  pub exists-reply : (s : Store) (now : ℕ) (k : String) → exists s now k ≡ is_some (read s now k)
  pub hget : Store → ℕ → String → String → Option Datum
  pub hget-reply : (s : Store) (now : ℕ) (k f : String) → hget s now k f ≡ as_field (read s now k) f
  -- SET key value NX PX ttl
  pub set_nx_px : Store → ℕ → String → String → ℕ → Store × Bool
  pub set_nx_px-reply :
      (s : Store) (now : ℕ) (k v : String) (ttl : ℕ)
      → (set_nx_px s now k v ttl).1 ≡ not (is_some (read s now k))
  pub set_nx_px-read :
      (s : Store) (now : ℕ) (k v : String) (ttl t : ℕ) (j : String)
      → now ≤ t
      → read (set_nx_px s now k v ttl).0 t j ≡ (
          if is_some (read s now k)
          then read s t j
          else if same k j
          then until t (now + ttl) (Value.text v)
          else read s t j)
  -- DEL key, with the number of keys removed
  pub del : Store → ℕ → String → Store × ℕ
  pub del-reply :
      (s : Store) (now : ℕ) (k : String)
      → (del s now k).1 ≡ (if is_some (read s now k) then 1 else 0)
  pub del-read :
      (s : Store) (now : ℕ) (k : String) (t : ℕ) (j : String)
      → now ≤ t
      → read (del s now k).0 t j ≡ (if same k j then none else read s t j)
  -- PEXPIRE key ttl; a timeout of 0 removes the key
  pub pexpire : Store → ℕ → String → ℕ → Store
  pub pexpire-read :
      (s : Store) (now : ℕ) (k : String) (ttl t : ℕ) (j : String)
      → now ≤ t
      → read (pexpire s now k ttl) t j
        ≡ (if same k j then (if ltb t (now + ttl) then read s now k else none) else read s t j)
  -- INCR key
  pub incr : Store → ℕ → String → Store × ℕ
  pub incr-reply :
      (s : Store) (now : ℕ) (k : String)
      → IsCounter (read s now k)
      → (incr s now k).1 ≡ suc (counted (read s now k))
  pub incr-read :
      (s : Store) (now : ℕ) (k : String) (t : ℕ) (j : String)
      → IsCounter (read s now k)
      → now ≤ t
      → read (incr s now k).0 t j ≡ (
          if same k j
          then in_place (read s now k) (read s t k) (Value.number (suc (counted (read s now k))))
          else read s t j)
  -- HSET key field value [field value ...]
  pub hset : Store → ℕ → String → List (String × Datum) → Store
  pub hset-read :
      (s : Store) (now : ℕ) (k : String) (fs : List (String × Datum)) (t : ℕ) (j : String)
      → IsHash (read s now k)
      → now ≤ t
      → read (hset s now k fs) t j ≡ (
          if same k j
          then in_place
              (read s now k)
              (read s t k)
              (Value.hash (with_fields (fields_of (read s now k)) fs))
          else read s t j)
  -- HDEL key field, where another field is left
  pub hdel : Store → ℕ → String → String → Store
  pub hdel-read :
      (s : Store) (now : ℕ) (k f g : String) (d : Datum) (t : ℕ) (j : String)
      → as_field (read s now k) g ≡ some d
      → f ≢ g
      → now ≤ t
      → read (hdel s now k f) t j ≡ (
          if same k j
          then in_place
              (read s now k)
              (read s t k)
              (Value.hash (with_field (fields_of (read s now k)) f none))
          else read s t j)
  -- HINCRBY key field 1 and HINCRBY key field -1, on a field that counts, the latter above 0
  pub hincr : Store → ℕ → String → String → Store × ℕ
  pub hincr-reply :
      (s : Store) (now : ℕ) (k f : String) (n : ℕ)
      → as_field (read s now k) f ≡ some (Datum.int n)
      → suc n < 2 ^ 63
      → (hincr s now k f).1 ≡ suc n
  pub hincr-read :
      (s : Store) (now : ℕ) (k f : String) (n t : ℕ) (j : String)
      → as_field (read s now k) f ≡ some (Datum.int n)
      → suc n < 2 ^ 63
      → now ≤ t
      → read (hincr s now k f).0 t j ≡ (
          if same k j
          then in_place
              (read s now k)
              (read s t k)
              (Value.hash (with_field (fields_of (read s now k)) f (some (Datum.int (suc n)))))
          else read s t j)
  pub hdecr : Store → ℕ → String → String → Store × ℕ
  pub hdecr-reply :
      (s : Store) (now : ℕ) (k f : String) (n : ℕ)
      → as_field (read s now k) f ≡ some (Datum.int (suc n))
      → (hdecr s now k f).1 ≡ n
  pub hdecr-read :
      (s : Store) (now : ℕ) (k f : String) (n t : ℕ) (j : String)
      → as_field (read s now k) f ≡ some (Datum.int (suc n))
      → now ≤ t
      → read (hdecr s now k f).0 t j ≡ (
          if same k j
          then in_place
              (read s now k)
              (read s t k)
              (Value.hash (with_field (fields_of (read s now k)) f (some (Datum.int n))))
          else read s t j)
  -- SET key n NX, for a number, without a timeout
  pub set_nx : Store → ℕ → String → ℕ → Store × Bool
  pub set_nx-reply :
      (s : Store) (now : ℕ) (k : String) (n : ℕ)
      → (set_nx s now k n).1 ≡ not (is_some (read s now k))
  pub set_nx-read :
      (s : Store) (now : ℕ) (k : String) (n t : ℕ) (j : String)
      → now ≤ t
      → read (set_nx s now k n).0 t j ≡ (
          if is_some (read s now k)
          then read s t j
          else if same k j
          then some (Value.number n)
          else read s t j)
  -- GET of a number
  pub get_number : Store → ℕ → String → Option ℕ
  pub get_number-reply :
      (s : Store) (now : ℕ) (k : String) → get_number s now k ≡ as_number (read s now k)
  -- DECR key, above 0
  pub decr : Store → ℕ → String → Store × ℕ
  pub decr-reply :
      (s : Store) (now : ℕ) (k : String) (n : ℕ)
      → read s now k ≡ some (Value.number (suc n))
      → (decr s now k).1 ≡ n
  pub decr-read :
      (s : Store) (now : ℕ) (k : String) (n t : ℕ) (j : String)
      → read s now k ≡ some (Value.number (suc n))
      → now ≤ t
      → read (decr s now k).0 t j
        ≡ (if same k j then in_place (read s now k) (read s t k) (Value.number n) else read s t j)
  -- ZCARD and ZSCORE
  pub zcard : Store → ℕ → String → ℕ
  pub zcard-reply :
      (s : Store) (now : ℕ) (k : String) → zcard s now k ≡ length (as_members (read s now k))
  pub zscore : Store → ℕ → String → String → Option ℕ
  pub zscore-reply :
      (s : Store) (now : ℕ) (k m : String)
      → zscore s now k m ≡ score_of m (as_members (read s now k))
  -- ZADD key score member
  pub zadd : Store → ℕ → String → ℕ → String → Store
  pub zadd-read :
      (s : Store) (now : ℕ) (k : String) (score : ℕ) (m : String) (t : ℕ) (j : String)
      → IsZset (read s now k)
      → now ≤ t
      → read (zadd s now k score m) t j ≡ (
          if same k j
          then in_place
              (read s now k)
              (read s t k)
              (Value.zset (with_member m score (as_members (read s now k))))
          else read s t j)
  -- ZREMRANGEBYSCORE key -inf bound
  pub zremrangebyscore : Store → ℕ → String → ℕ → Store
  pub zremrangebyscore-read :
      (s : Store) (now : ℕ) (k : String) (bound t : ℕ) (j : String)
      → IsZset (read s now k)
      → now ≤ t
      → read (zremrangebyscore s now k bound) t j ≡ (
          if same k j
          then kept (read s t k) (above bound (as_members (read s now k)))
          else read s t j)
  -- ZREM key member, with the number of members removed
  pub zrem : Store → ℕ → String → String → Store × ℕ
  pub zrem-reply :
      (s : Store) (now : ℕ) (k m : String)
      → IsZset (read s now k)
      → (zrem s now k m).1 ≡ (if is_some (score_of m (as_members (read s now k))) then 1 else 0)
  pub zrem-read :
      (s : Store) (now : ℕ) (k m : String) (t : ℕ) (j : String)
      → IsZset (read s now k)
      → now ≤ t
      → read (zrem s now k m).0 t j ≡ (
          if same k j
          then kept (read s t k) (without_member m (as_members (read s now k)))
          else read s t j)
