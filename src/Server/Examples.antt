-- ===== src/Server/Examples.antt =====
-- The registry, the permissions and the sessions at concrete requests.
use lock_dis.Prelude.{
  err, none, some, false, arith, ◌+◌, ◌↔◌, inl, ok, ℕ, ◌≤◌, ◌<◌, ◌≡◌, ◌≢◌, refl, true, List, [],
  ◌∷◌, String,
}
use lock_dis.Server.Registry.{
  counted, try_acquire, at_ceiling, holder_of, early_answer, remove_holder, uncount, without,
}
use lock_dis.Server.Registry.Sections.{Section, fresh, section_step, serve}
use lock_dis.Server.Registry.Quota.{held, serve-quota}
use lock_dis.Server.Auth.{PrincipalConfig, WatchStep, nobody, make_principal, check_lock}
use lock_dis.Server.Auth.{Status}
use lock_dis.Server.Auth.Resolve.{Acl, AuthMode, from_principals, load, insert, resolve}
use lock_dis.Server.Auth.Identity.{bearer, resolve-last_with}
use lock_dis.Server.Auth.Permission.{Covered, check_lock-permits}
use lock_dis.Server.Auth.WatchQuota.{interleave, interleave-quota}
use lock_dis.Server.Sessions.{SessionEntry, Book, register, expired}
use lock_dis.Server.Sessions.Cadence.{beats, all_accepted, beats-all_accepted}

abbrev two_each : String → ℕ
two_each p = 2

-- The third key is refused; while the release of the first is half done its principal is refused
-- another one; after it, there is room again.
abbrev sections : List Section
sections =
    Section.ask "a" "ci"
    ∷ Section.grant
    ∷ Section.ask "b" "ci"
    ∷ Section.grant
    ∷ Section.ask "c" "ci"
    ∷ Section.grant
    ∷ Section.remove "a"
    ∷ Section.ask "d" "ci"
    ∷ Section.grant
    ∷ []

serve-quota_example :
    ((p : String)
      → counted ((serve two_each fresh sections).reg.counts p)
        ≡ held p (serve two_each fresh sections).reg.holders
          + (serve two_each fresh sections).leaving p)
    × ((p : String) → 0 < 2 → counted ((serve two_each fresh sections).reg.counts p) ≤ 2)
serve-quota_example = serve-quota two_each sections

refused_meanwhile :
    (counted ((serve two_each fresh sections).reg.counts "ci") ≡ 2)
    × (held "ci" (serve two_each fresh sections).reg.holders ≡ 1)
unfolding section_step early_answer at_ceiling holder_of remove_holder without held
refused_meanwhile = (refl, refl)

room_again :
    counted (
      (serve two_each
          (serve two_each fresh sections)
          (Section.settle "ci" ∷ Section.ask "d" "ci" ∷ Section.grant ∷ [])).reg.counts
        "ci")
    ≡ 2
unfolding section_step early_answer at_ceiling holder_of remove_holder uncount without
room_again = refl

-- A key that is tracked for another principal is let through without being counted.
uncounted_grant :
    try_acquire (serve two_each fresh sections).reg "b" "web" 1
    ≡ (true, (serve two_each fresh sections).reg)
unfolding section_step try_acquire early_answer at_ceiling holder_of remove_holder without
uncounted_grant = refl

abbrev builder : PrincipalConfig
builder = record {
  name = "ci";
  token = "s3cret";
  key_prefixes = "ci/" ∷ [];
  can_lock = true;
  can_unlock = true;
  can_extend = true;
  can_watch = true;
  can_admin = false;
  max_keys = 2;
  max_watchers = 1;
}

check_lock-permits_example :
    ((check_lock (make_principal builder) "ci/build" ≡ ok tt)
      ↔ (Covered "ci/build" builder.key_prefixes × (builder.can_lock ≡ true)))
    × (check_lock (make_principal builder) "ci/build" ≢ err Status.resource_exhausted)
check_lock-permits_example = check_lock-permits builder "ci/build"

lock_let_through : check_lock (make_principal builder) "ci/build" ≡ ok tt
lock_let_through = check_lock-permits_example.0.1 (inl ("build", refl), refl)

abbrev arrivals : List WatchStep
arrivals =
    WatchStep.enter ∷ WatchStep.enter ∷ WatchStep.leave ∷ WatchStep.enter ∷ WatchStep.undo ∷ []

interleave-quota_example :
    let w = interleave 1 nobody arrivals in
    (w.counter ≡ w.guards + w.refused) × (0 < 1 → w.guards ≤ 1)
interleave-quota_example = interleave-quota 1 arrivals

abbrev no_sessions : Book
no_sessions = λ _. none

abbrev cadence : List ℕ
cadence = 100 ∷ 20 ∷ 300 ∷ []

beats-all_accepted_example :
    let (results, book') = beats (register no_sessions 0 "t" "worker" 300) 0 "t" cadence in
    (results ≡ all_accepted cadence)
    × ((e : SessionEntry) × (book' "t" ≡ some e) × ((t : ℕ) → t ≤ 720 → expired t e ≡ false))
beats-all_accepted_example =
    beats-all_accepted no_sessions 0 "t" "worker" 300 cadence
      (omega arith, omega arith, (omega arith, omega arith, (omega arith, omega arith, tt)))

-- Two principals, the second of whom takes over the first one's token.
abbrev configured : String → PrincipalConfig
configured name = record {
  name = name;
  token = "s3cret";
  key_prefixes = "ci/" ∷ [];
  can_lock = true;
  can_unlock = true;
  can_extend = true;
  can_watch = false;
  can_admin = false;
  max_keys = 50;
  max_watchers = 0;
}

abbrev access_list : Acl
access_list = record {
  open_access = false;
  by_token = ("s3cret", configured "cd") ∷ [];
  mode = AuthMode.file;
}

loaded : from_principals (configured "ci" ∷ configured "cd" ∷ []) ≡ ok access_list
unfolding from_principals load insert
loaded = refl

resolve-last_with_example :
    (resolve access_list (some (bearer "s3cret")) ≡ ok (configured "cd"))
    × (resolve access_list (some "Basic s3cret") ≡ err Status.unauthenticated)
resolve-last_with_example =
    resolve-last_with (configured "ci" ∷ configured "cd" ∷ []) access_list "s3cret"
      (some "Basic s3cret") loaded refl
