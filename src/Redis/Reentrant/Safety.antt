-- ===== src/Redis/Reentrant/Safety.antt =====
-- What clients of the reentrant lock rely on, on the server.
use lock_dis.Prelude.{
  ℕ, ◌+◌, ◌≤◌, ◌<◌, ◌^◌, ◌≡◌, ◌≢◌, refl, ap, ◌∙◌, false, none, some, String, List, [], ◌∷◌, ◌++◌,
  same_refl, arith, length, length-append, subst,
}
use mathlib.Core.List.{append_assoc, append-nil}
use lock_dis.Redis.Slot as Slot
use lock_dis.Redis.Server.{Redis, Datum, is_some}
use lock_dis.Redis.Mutex.Lease.{at}
use lock_dis.Redis.Reentrant.Spec.{Op, Reentrant, leased, promise, step, Counted}
use lock_dis.Redis.Reentrant.Writes.{encode, Shows}
use lock_dis.Redis.Slot.{exists-at, hget-at}
use lock_dis.Redis.Reentrant.Runs.{Call, after, run, replies, run-keeps_promise}
use lock_dis.Redis.Traces.{Ordered, end}
use lock_dis.Redis.Reentrant.Nesting.{
  Foreign, refusals, promised-refusals, Nested, calls, finish, Prompt, after-calls, after-append,
}

-- The calls of a use of the lock come one after the other.
calls-Ordered :
    (b : Nested) (t ttl : ℕ) (token : String) (cs : List Call)
    → Prompt ttl t b
    → Ordered (finish t b) cs
    → Ordered t (calls token ttl b ++ cs) × (end t (calls token ttl b ++ cs) ≡ end (finish t b) cs)
calls-Ordered Nested.done t ttl token cs p o = (o, refl)
calls-Ordered (Nested.inside enter inner leave rest) t ttl token cs p o =
    let (first, _, within, next, _, onward) = p in
    let leaving : Call = record { now = leave; op = Op.release token ttl } in
    let (o₁, e₁) = calls-Ordered rest leave ttl token cs onward o in
    let (o₂, e₂) =
      calls-Ordered inner enter ttl token (leaving ∷ (calls token ttl rest ++ cs)) within
        (next, o₁) in
    let assoc = append_assoc (calls token ttl inner) (leaving ∷ calls token ttl rest) cs in
    rw assoc ((first, o₂), e₂ ∙ e₁)

abbrev pub entering : String → ℕ → ℕ → Call
entering token ttl now = record { now = now; op = Op.acquire token ttl (ttl + ttl) }

module _ (r : Redis) (key fence_key : String) (ne : key ≢ fence_key) where
  open r use {Store, exists, hget}

  -- While an owner's lease lasts, every call of another owner is refused, whatever others try in
  -- between, and the holds stay as they are; the grants made before are fewer than 2 ^ 63.
  pub replies-refusals :
      (s : Store) (t : ℕ) (l : Reentrant) (token : String) (nested deadline : ℕ) (cs : List Call)
      → Shows r key fence_key ne s t l
      → l.holds ≡ leased token nested deadline
      → Counted l.holds l.grants
      → Ordered t cs
      → Foreign token deadline cs
      → l.grants + length cs < 2 ^ 63
      → (replies r key fence_key ne s cs ≡ refusals cs)
        × Shows r key fence_key ne (run r key fence_key ne s cs) (end t cs) l
  replies-refusals s t l token n d cs sh is c o f room =
      let (answers, shows) = run-keeps_promise r key fence_key ne s t l cs sh c o room in
      let (refused, kept) = promised-refusals l n d token cs is f in
      (
        answers ∙ refused,
        subst (λ l'. Shows r key fence_key ne (run r key fence_key ne s cs) (end t cs) l') kept
            shows,
      )

  step-acquire_free :
      (l : Reentrant) (now ttl fttl : ℕ) (token : String)
      → at now l.holds ≡ none
      → (step l now (Op.acquire token ttl fttl)).0.holds ≡ leased token 0 (now + ttl)
  unfolding step promise
  step-acquire_free l now ttl fttl token free = rw free

  step-release_last :
      (l : Reentrant) (now d ttl : ℕ) (token : String)
      → l.holds ≡ leased token 0 d
      → now < d
      → (step l now (Op.release token ttl)).0.holds ≡ none
  unfolding step promise
  step-release_last l now d ttl token is early =
      let live : at now (leased token 0 d) ≡ some (record { owner = token; nested = 0 }) =
        ground arith in
      rw (is, live, same_refl token)

  shows_once :
      (s : Store) (t now d : ℕ) (l : Reentrant) (token : String)
      → Shows r key fence_key ne s t l
      → t ≤ now
      → now < d
      → l.holds ≡ leased token 0 d
      → (hget s now key "owner" ≡ some (Datum.str token))
        × (hget s now key "count" ≡ some (Datum.int 1))
  shows_once s t now d l token sh le early is =
      let live : at now (leased token 0 d) ≡ some (record { owner = token; nested = 0 }) =
        ground arith in
      let sh' = Slot.Shows_later encode r key fence_key ne s t now l.grants l.holds le sh in
      (
        hget-at encode r key fence_key ne s now l.grants l.holds "owner" sh' ∙ rw (is, live),
        hget-at encode r key fence_key ne s now l.grants l.holds "count" sh' ∙ rw (is, live),
      )

  -- An owner that takes a free lock, uses it inside as often and as deeply as it likes, each use
  -- left again and no call later than the lease of the call before, holds it just once afterwards;
  -- its last release frees the key. The grants are fewer than 2 ^ 63.
  pub run-nests :
      (s : Store) (t : ℕ) (l : Reentrant) (token : String) (ttl enter : ℕ) (inner : Nested)
      (leave : ℕ)
      → Shows r key fence_key ne s t l
      → at enter l.holds ≡ none
      → Counted l.holds l.grants
      → 0 < ttl
      → t ≤ enter
      → Prompt ttl enter inner
      → finish enter inner ≤ leave
      → leave < finish enter inner + ttl
      → l.grants + length (calls token ttl (Nested.inside enter inner leave Nested.done)) < 2 ^ 63
      → let held = run r key fence_key ne s (entering token ttl enter ∷ calls token ttl inner) in
        let left =
          run r key fence_key ne s
            (calls token ttl (Nested.inside enter inner leave Nested.done)) in
        (hget held leave key "owner" ≡ some (Datum.str token))
        × (hget held leave key "count" ≡ some (Datum.int 1))
        × (exists left leave key ≡ false)
  run-nests s t l token ttl enter inner leave sh free c pos first within next in_time room =
      let body = calls token ttl inner in
      let leaving : Call = record { now = leave; op = Op.release token ttl } in
      let l₁ = (step l enter (Op.acquire token ttl (ttl + ttl))).0 in
      let entered = step-acquire_free l enter ttl (ttl + ttl) token free in
      let around = after-calls inner l₁ enter 0 ttl token entered pos within in
      let (o₂, e₂) = calls-Ordered inner enter ttl token (leaving ∷ []) within (next, tt) in
      let (o₁, e₁) = calls-Ordered inner enter ttl token [] within tt in
      let nil : body ++ [] ≡ body = append-nil body in
      let (_, shows) =
        run-keeps_promise r key fence_key ne s t l (entering token ttl enter ∷ body) sh c
          (first, rw nil at o₁) (omega (arith, length-append body (leaving ∷ []))) in
      let (_, shows_left) =
        run-keeps_promise r key fence_key ne s t l
          (entering token ttl enter ∷ (body ++ (leaving ∷ []))) sh c (first, o₂) room in
      let (owner, count) =
        shows_once (run r key fence_key ne s (entering token ttl enter ∷ body)) (end enter body)
          leave (finish enter inner + ttl) (after l₁ body) token shows
          (omega (arith, next, e₁, ap (end enter) nil)) in_time around in
      let gone = after-append l₁ body (leaving ∷ []) in
      (
        owner,
        count,
        Slot.exists-at encode r key fence_key ne
              (run r key fence_key ne s (entering token ttl enter ∷ (body ++ (leaving ∷ [])))) leave
              (after l₁ (body ++ (leaving ∷ []))).grants (after l₁ (body ++ (leaving ∷ []))).holds
              (rw e₂ at shows_left)
            ∙ ap (λ x. is_some (at leave x.holds)) gone
            ∙ ap (λ o. is_some (at leave o))
                (step-release_last (after l₁ body) leave (finish enter inner + ttl) ttl token around
                  in_time),
      )
