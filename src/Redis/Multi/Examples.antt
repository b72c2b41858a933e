-- ===== src/Redis/Multi/Examples.antt =====
-- Several keys at once, over the store in memory.
use lock_dis.Prelude.{
  String, ap, ◌≢◌, ℕ, ◌≡◌, ◌⊎◌, refl, true, false, none, List, [], ◌∷◌, All, arith, ok, err,
}
use lock_dis.Redis.Memory.{memory, empty}
use lock_dis.Redis.Mutex
use lock_dis.Redis.Manager.{
  Error, Handle, Link, LockOptions, SafetyPolicy, Trip, try_lock_with, handle_release,
}
use lock_dis.Redis.Manager.Freed.{Freed, Quiet, set_nx_px_other-Freed}
use Prim.Native.String.{count}
use lock_dis.Redis.Multi.{Round, take_each, sort_keys, has_duplicate}
use lock_dis.Redis.Multi.Rounds.{keys_of, won_before, take_each-every_or_none}

abbrev at : ℕ → Trip memory.Store
at now = record { link = Link.up; now = now; meanwhile = λ s. s }

abbrev options : LockOptions
options = record { ttl = 1000; watchdog = none; safety_policy = SafetyPolicy.balanced }

-- The second key is another's.
abbrev taken : memory.Store
taken = (try_lock_with memory Link.up empty 5 "orders" "other" options true).0

-- While the round is undone a rival takes the first key as soon as it is free.
abbrev contended : Trip memory.Store
contended = record {
  link = Link.up;
  now = 20;
  meanwhile = λ s. (memory.set_nx_px s 20 "jobs" "rival" 100).0;
}

abbrev round : Round memory.Store
round = record {
  there = λ i. at 10;
  back = λ i. contended;
  tokens = λ i. "mine";
  store = taken;
  instant = 30;
}

rival-ne : ◌≢◌ {A = String} "rival" "mine"
rival-ne e = absurd (omega (arith, ap count e))

one_won :
    All
      (λ h. Quiet memory round.back h.key h.token)
      (won_before memory round options true 0 taken ("jobs" ∷ "orders" ∷ []))
unfolding won_before try_lock_with
one_won = (λ i s. set_nx_px_other-Freed memory "jobs" "mine" s 20 "jobs" "rival" 100 rival-ne, tt)

take_each-every_or_none_example :
    let (s, res) = take_each memory round options true 0 taken ("jobs" ∷ "orders" ∷ []) [] in
    ((hs : List Handle) × (res ≡ ok hs) × (keys_of hs ≡ "jobs" ∷ "orders" ∷ []))
    ⊎ ((e : Error) × (res ≡ err e)
        × All
            (λ h. Freed memory h.key h.token s 20)
            (won_before memory round options true 0 taken ("jobs" ∷ "orders" ∷ [])))
take_each-every_or_none_example =
    take_each-every_or_none memory round options true
      (record { arrives = λ i e. cc; in_order = λ i. omega arith; over = λ i. omega arith })
      (omega arith) taken ("jobs" ∷ "orders" ∷ []) one_won

refused :
    (take_each memory round options true 0 taken ("jobs" ∷ "orders" ∷ []) []).1
    ≡ err (Error.held "orders")
unfolding take_each try_lock_with
refused = refl

given_back :
    memory.exists
      (take_each memory round options true 0 taken ("jobs" ∷ "orders" ∷ []) []).0
      30
      "jobs"
    ≡ false
unfolding take_each try_lock_with handle_release Mutex.release
given_back = refl

in_order : sort_keys ("b" ∷ "c" ∷ "a" ∷ "b" ∷ []) ≡ "a" ∷ "b" ∷ "b" ∷ "c" ∷ []
unfolding sort_keys
in_order = refl

repeated : has_duplicate (sort_keys ("b" ∷ "c" ∷ "a" ∷ "b" ∷ [])) ≡ true
unfolding sort_keys has_duplicate
repeated = refl
