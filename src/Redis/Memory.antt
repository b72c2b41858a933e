-- ===== src/Redis/Memory.antt =====
-- A server that meets the laws of `Redis`: a table of values with deadlines, in memory.
use lock_dis.Prelude.{
  [], ◌∷◌, length, ◌⊎◌, true, ℕ, suc, ◌+◌, ◌≤◌, ◌≡◌, refl, ap, ◌∙◌, not, Option, none, some, String,
  if◌then◌else◌, ltb, same, arith, Option-cases, Bool-cases, inl, inr,
}
use lock_dis.Redis.Server.{
  as_number, Value, until, is_some, as_text, as_field, in_place, counted, fields_of, with_field,
  with_fields, number_of, Members, as_members, score_of, with_member, without_member, above, kept,
  Datum, Redis,
}

-- A value and its deadline; without one it stays.
pub record Kept : Type 0 where
  pub value : Value
  pub deadline : Option ℕ

abbrev pub Table : Type 0
Table = String → Option Kept

abbrev pub shown : ℕ → Option Kept → Option Value
shown t none = none
shown t (some e) = elim e.deadline [ none ↦ some e.value | some d ↦ until t d e.value ]

abbrev pub look : Table → ℕ → String → Option Value
look s t k = shown t (s k)

abbrev pub put : Table → String → Option Kept → Table
put s k e j = if same k j then e else s j

abbrev pub kept_deadline : Option Kept → ℕ → Option ℕ
kept_deadline none now = none
kept_deadline (some e) now = if is_some (shown now (some e)) then e.deadline else none

abbrev pub write : Table → ℕ → String → Value → Table
write s now k v = put s k (some (record { value = v; deadline = kept_deadline (s k) now }))

pub set_nx_px-read :
    (s : Table) (now : ℕ) (k v : String) (ttl t : ℕ) (j : String)
    → now ≤ t
    → look
        (if is_some (look s now k)
          then s
          else put s k (some (record { value = Value.text v; deadline = some (now + ttl) })))
        t
        j
      ≡ (if is_some (look s now k)
          then look s t j
          else if same k j
          then until t (now + ttl) (Value.text v)
          else look s t j)
set_nx_px-read s now k v ttl t j le = elim (Bool-cases (is_some (look s now k))) [
  | inl e ↦ rw e
  | inr e ↦ rw e (elim (Bool-cases (same k j)) [ inl q ↦ rw q | inr q ↦ rw q ])
]

pub lapse :
    (s : Table) (t u : ℕ) (k : String) (v : Value)
    → t ≤ u
    → look s u k ≡ some v
    → look s t k ≡ some v
lapse s t u k v le e = ground arith

abbrev pub held_until : ℕ → Option Value → Option Kept
held_until d none = none
held_until d (some v) = some (record { value = v; deadline = some d })

held_until-shown :
    (d t : ℕ) (o : Option Value) → shown t (held_until d o) ≡ (if ltb t d then o else none)
held_until-shown d t none = ground arith
held_until-shown d t (some v) = refl

pub pexpire-read :
    (s : Table) (now : ℕ) (k : String) (ttl t : ℕ) (j : String)
    → now ≤ t
    → look (put s k (held_until (now + ttl) (look s now k))) t j
      ≡ (if same k j then (if ltb t (now + ttl) then look s now k else none) else look s t j)
pexpire-read s now k ttl t j le = elim (Bool-cases (same k j)) [
  | inl e ↦ rw e (held_until-shown (now + ttl) t (look s now k))
  | inr e ↦ rw e
]

pub del-read :
    (s : Table) (now : ℕ) (k : String) (t : ℕ) (j : String)
    → now ≤ t
    → look (put s k none) t j ≡ (if same k j then none else look s t j)
del-read s now k t j le = elim (Bool-cases (same k j)) [ inl e ↦ rw e | inr e ↦ rw e ]

kept-shown :
    (e : Option Kept) (now t : ℕ) (v : Value)
    → now ≤ t
    → shown t (some (record { value = v; deadline = kept_deadline e now }))
      ≡ in_place (shown now e) (shown t e) v
kept-shown none now t v le = refl
kept-shown (some e) now t v le = elim (Option-cases e.deadline) [
  | inl q ↦ ground arith
  | inr (d, q) ↦ ground arith
]

pub write-read :
    (s : Table) (now : ℕ) (k : String) (v : Value) (t : ℕ) (j : String)
    → now ≤ t
    → look (write s now k v) t j
      ≡ (if same k j then in_place (look s now k) (look s t k) v else look s t j)
write-read s now k v t j le = elim (Bool-cases (same k j)) [
  | inl e ↦ rw e (kept-shown (s k) now t v le)
  | inr e ↦ rw e
]

abbrev one_less : Option Datum → ℕ
one_less (some (Datum.int (suc n))) = n
one_less _ = 0

abbrev field_written : Table → ℕ → String → String → Option Datum → Table
field_written s now k f d = write s now k (Value.hash (with_field (fields_of (look s now k)) f d))

abbrev field_shown : Table → ℕ → String → String → ℕ → String → Option Datum → Option Value
field_shown s now k f t j d =
    if same k j
    then in_place (look s now k) (look s t k)
        (Value.hash (with_field (fields_of (look s now k)) f d))
    else look s t j

pub set_nx-read :
    (s : Table) (now : ℕ) (k : String) (n t : ℕ) (j : String)
    → now ≤ t
    → look
        (if is_some (look s now k)
          then s
          else put s k (some (record { value = Value.number n; deadline = none })))
        t
        j
      ≡ (if is_some (look s now k)
          then look s t j
          else if same k j
          then some (Value.number n)
          else look s t j)
set_nx-read s now k n t j le = elim (Bool-cases (is_some (look s now k))) [
  | inl e ↦ rw e
  | inr e ↦ rw e (elim (Bool-cases (same k j)) [ inl q ↦ rw q | inr q ↦ rw q ])
]

abbrev one_down : Option Value → ℕ
one_down (some (Value.number (suc n))) = n
one_down _ = 0

abbrev number_shown : Table → ℕ → String → ℕ → String → ℕ → Option Value
number_shown s now k t j n =
    if same k j then in_place (look s now k) (look s t k) (Value.number n) else look s t j

abbrev trimmed : Table → ℕ → String → Members → Table
trimmed s now k [] = put s k none
trimmed s now k (m ∷ ms) = write s now k (Value.zset (m ∷ ms))

kept_nothing : (o : Option Value) → kept o [] ≡ none
kept_nothing none = refl
kept_nothing (some v) = refl

in_place-kept :
    (now_value later : Option Value) (m : String × ℕ) (ms : Members)
    → is_some now_value ≡ true
    → in_place now_value later (Value.zset (m ∷ ms)) ≡ kept later (m ∷ ms)
in_place-kept none later m ms e = cc
in_place-kept (some v) none m ms e = refl
in_place-kept (some v) (some w) m ms e = refl

-- What is left of a sorted set is not more than what was there.
pub trimmed-read :
    (s : Table) (now : ℕ) (k : String) (ms : Members) (t : ℕ) (j : String)
    → ((ms ≡ []) ⊎ (is_some (look s now k) ≡ true))
    → now ≤ t
    → look (trimmed s now k ms) t j ≡ (if same k j then kept (look s t k) ms else look s t j)
trimmed-read s now k [] t j there le = del-read s now k t j le ∙ rw (kept_nothing (look s t k))
trimmed-read s now k (m ∷ ms) t j (inl e) le = cc
trimmed-read s now k (m ∷ ms) t j (inr e) le =
    write-read s now k (Value.zset (m ∷ ms)) t j le
    ∙ rw (in_place-kept (look s now k) (look s t k) m ms e)

pub above_there :
    (bound : ℕ) (o : Option Value) → (above bound (as_members o) ≡ []) ⊎ (is_some o ≡ true)
above_there bound none = inl refl
above_there bound (some v) = inr refl

pub without_there :
    (m : String) (o : Option Value) → (without_member m (as_members o) ≡ []) ⊎ (is_some o ≡ true)
without_there m none = inl refl
without_there m (some v) = inr refl

-- The server in memory. Times of its clock are what the calls give.
abbrev pub memory : Redis
memory = record {
  Store = Table;
  read = look;
  lapse = lapse;
  get = λ s now k. as_text (look s now k);
  get-reply = λ s now k. refl;
  exists = λ s now k. is_some (look s now k);
  exists-reply = λ s now k. refl;
  hget = λ s now k f. as_field (look s now k) f;
  hget-reply = λ s now k f. refl;
  set_nx_px = λ s now k v ttl. (
    if is_some (look s now k)
        then s
        else put s k (some (record { value = Value.text v; deadline = some (now + ttl) })),
    not (is_some (look s now k)),
  );
  set_nx_px-reply = λ s now k v ttl. refl;
  set_nx_px-read = set_nx_px-read;
  del = λ s now k. (put s k none, if is_some (look s now k) then 1 else 0);
  del-reply = λ s now k. refl;
  del-read = del-read;
  pexpire = λ s now k ttl. put s k (held_until (now + ttl) (look s now k));
  pexpire-read = pexpire-read;
  incr = λ s now k.
      (write s now k (Value.number (suc (counted (look s now k)))), suc (counted (look s now k)));
  incr-reply = λ s now k c. refl;
  incr-read = λ s now k t j c le. write-read s now k _ t j le;
  hset = λ s now k fs. write s now k (Value.hash (with_fields (fields_of (look s now k)) fs));
  hset-read = λ s now k fs t j h le. write-read s now k _ t j le;
  hdel = λ s now k f. field_written s now k f none;
  hdel-read = λ s now k f g d t j e n le. write-read s now k _ t j le;
  hincr = λ s now k f.
      let n = suc (number_of (as_field (look s now k) f)) in
      (field_written s now k f (some (Datum.int n)), n);
  hincr-reply = λ s now k f n e b. ap (λ x. suc (number_of x)) e;
  hincr-read = λ s now k f n t j e b le.
      write-read s now k _ t j le
      ∙ ap (λ x. field_shown s now k f t j (some (Datum.int (suc (number_of x))))) e;
  hdecr = λ s now k f.
      let n = one_less (as_field (look s now k) f) in
      (field_written s now k f (some (Datum.int n)), n);
  hdecr-reply = λ s now k f n e. ap (λ x. one_less x) e;
  hdecr-read = λ s now k f n t j e le.
      write-read s now k _ t j le
      ∙ ap (λ x. field_shown s now k f t j (some (Datum.int (one_less x)))) e;
  set_nx = λ s now k n. (
    if is_some (look s now k)
        then s
        else put s k (some (record { value = Value.number n; deadline = none })),
    not (is_some (look s now k)),
  );
  set_nx-reply = λ s now k n. refl;
  set_nx-read = set_nx-read;
  get_number = λ s now k. as_number (look s now k);
  get_number-reply = λ s now k. refl;
  decr = λ s now k. let n = one_down (look s now k) in (write s now k (Value.number n), n);
  decr-reply = λ s now k n e. ap one_down e;
  decr-read = λ s now k n t j e le.
      write-read s now k _ t j le ∙ ap (λ x. number_shown s now k t j (one_down x)) e;
  zcard = λ s now k. length (as_members (look s now k));
  zcard-reply = λ s now k. refl;
  zscore = λ s now k m. score_of m (as_members (look s now k));
  zscore-reply = λ s now k m. refl;
  zadd = λ s now k score m.
      write s now k (Value.zset (with_member m score (as_members (look s now k))));
  zadd-read = λ s now k score m t j z le. write-read s now k _ t j le;
  zremrangebyscore = λ s now k bound. trimmed s now k (above bound (as_members (look s now k)));
  zremrangebyscore-read = λ s now k bound t j z le.
      trimmed-read s now k (above bound (as_members (look s now k))) t j
        (above_there bound (look s now k)) le;
  zrem = λ s now k m. (
    trimmed s now k (without_member m (as_members (look s now k))),
    if is_some (score_of m (as_members (look s now k))) then 1 else 0,
  );
  zrem-reply = λ s now k m z. refl;
  zrem-read = λ s now k m t j z le.
      trimmed-read s now k (without_member m (as_members (look s now k))) t j
        (without_there m (look s now k)) le;
}

abbrev pub empty : memory.Store
empty = λ _. none
