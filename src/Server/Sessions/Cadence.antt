-- ===== src/Server/Sessions/Cadence.antt =====
-- A client that keeps a cadence of heartbeats.
use lock_dis.Prelude.{
  ℕ, ◌+◌, ◌/◌, ◌≤◌, ◌≡◌, refl, ◌∙◌, ap, false, some, List, [], ◌∷◌, String, ltb, same_refl, arith,
}
use lock_dis.Server.Sessions.{SessionEntry, HbResult, Book, heartbeat, put, expired, register}

-- Heartbeats one after the other, each after a pause, with their results.
abbrev pub beats : Book → ℕ → String → List ℕ → List HbResult × Book
beats book now token [] = ([], book)
beats book now token (pause ∷ pauses) =
    let (result, book') = heartbeat book (now + pause) token in
    let (results, last) = beats book' (now + pause) token pauses in (result ∷ results, last)

-- Every pause is at least a twentieth of the lease time, and at most the lease time.
abbrev pub Steady : ℕ → List ℕ → Type 0
Steady ttl [] = Unit
Steady ttl (pause ∷ pauses) = (ttl / 20 ≤ pause) × (pause ≤ ttl) × Steady ttl pauses

abbrev pub all_accepted : List ℕ → List HbResult
all_accepted [] = []
all_accepted (pause ∷ pauses) = HbResult.accepted ∷ all_accepted pauses

-- The session was seen at `now` and is alive.
abbrev Seen : ℕ → ℕ → SessionEntry → Type 0
Seen ttl now e = (e.ttl ≡ ttl) × (e.last_seen ≡ now) × (e.hb_floor ≤ now + ttl / 20)

heartbeat_accepted :
    (book : Book) (now : ℕ) (token : String) (e : SessionEntry)
    → book token ≡ some e
    → e.hb_floor ≤ now
    → heartbeat book now token ≡ (
      HbResult.accepted,
      put book token (some (record e { hb_floor = now + e.ttl / 20; last_seen = now })),
    )
unfolding heartbeat
heartbeat_accepted book now token e h le =
    let late : ltb now e.hb_floor ≡ false = ground arith in rw (h, heartbeat, late)

abbrev pub last_beat : ℕ → List ℕ → ℕ
last_beat now [] = now
last_beat now (pause ∷ pauses) = last_beat (now + pause) pauses

beats-Steady :
    (book : Book) (now : ℕ) (token : String) (ttl : ℕ) (e : SessionEntry) (pauses : List ℕ)
    → book token ≡ some e
    → Seen ttl now e
    → Steady ttl pauses
    → let (results, book') = beats book now token pauses in
      (results ≡ all_accepted pauses)
      × ((e' : SessionEntry) × (book' token ≡ some e') × Seen ttl (last_beat now pauses) e')
beats-Steady book now token ttl e [] h seen steady = (refl, (e, h, seen))
beats-Steady book now token ttl e (pause ∷ pauses) h seen steady =
    let at = now + pause in
    let e' : SessionEntry = record e { hb_floor = at + e.ttl / 20; last_seen = at } in
    let beat = heartbeat_accepted book at token e h (omega (arith, seen, steady.0)) in
    let kept : put book token (some e') token ≡ some e' = rw (same_refl token) in
    let floor : e'.hb_floor ≤ at + ttl / 20 = rw (seen.0) (omega arith) in
    let (results, (e'', found, last)) =
      beats-Steady (put book token (some e')) at token ttl e' pauses kept (seen.0, refl, floor)
        steady.2 in
    (
      ap (λ x. x.0 ∷ (beats x.1 at token pauses).0) beat ∙ ap (λ x. HbResult.accepted ∷ x) results,
      (e'', ap (λ x. (beats x.1 at token pauses).1 token) beat ∙ found, last),
    )

unexpired :
    (ttl now t : ℕ) (e : SessionEntry) → Seen ttl now e → t ≤ now + ttl → expired t e ≡ false
unfolding expired
unexpired ttl now t e seen le = ground arith

-- A client whose heartbeats after its registration are never closer than a twentieth of the lease
-- time nor further apart than the lease time has each of them accepted, and up to the lease time
-- after the last one its session is not expired.
pub beats-all_accepted :
    (book : Book) (now : ℕ) (token client_id : String) (ttl : ℕ) (pauses : List ℕ)
    → Steady ttl pauses
    → let (results, book') = beats (register book now token client_id ttl) now token pauses in
      (results ≡ all_accepted pauses)
      × ((e : SessionEntry) × (book' token ≡ some e)
          × ((t : ℕ) → t ≤ last_beat now pauses + ttl → expired t e ≡ false))
unfolding register
beats-all_accepted book now token client_id ttl pauses steady =
    let fresh : SessionEntry = record {
      client_id = client_id;
      ttl = ttl;
      last_seen = now;
      hb_floor = now;
      locks = [];
    } in
    let there : put book token (some fresh) token ≡ some fresh = rw (same_refl token) in
    let (results, (e, found, seen)) =
      beats-Steady (put book token (some fresh)) now token ttl fresh pauses there
        (refl, refl, omega arith) steady in
    (results, (e, found, λ t le. unexpired ttl (last_beat now pauses) t e seen le))
