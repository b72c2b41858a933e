-- ===== src/Redis/Redlock/Examples.antt =====
-- The quorum lock over three servers in memory: the theorems at concrete rounds.
use lock_dis.Prelude.{
  ℕ, zero, suc, ◌≡◌, ◌≢◌, ◌≤◌, ◌<◌, refl, List, [], ◌∷◌, String, arith, true, false, same_iff, none,
  ok, err, if◌then◌else◌, Result, Bool,
}
use mathlib.Core.Bool.{false≢true}
use lock_dis.Redis.Memory.{memory, empty}
use lock_dis.Redis.Mutex.{fence_key_for, acquire, issue_fence}
use lock_dis.Redis.Manager.{Error, Link, LockOptions, SafetyPolicy, validate, call}
use lock_dis.Redis.Redlock.{
  Visit, NodeLink, Contact, RedlockHandle, quorum_of, try_lock, round, attempt, outcome_of, proceed,
  settle, allocate_fence, make_handle, mark_lost, allocator_key,
}
use lock_dis.Redis.Redlock.Rounds.{holders}
use lock_dis.Redis.Redlock.Quorum.{
  try_lock-holds, try_lock-exclusive, shown, Allocating, WithinLease, Undisturbed,
}
use lock_dis.Redis.Redlock.Watch.{owners, ticks, started, doomed, ticks-give_up}

abbrev job : String
job = "job"

abbrev node : ℕ → memory.Store → NodeLink → Visit memory.Store
node now s link = record { store = s; now = now; link = link; undo_now = now; undo_link = Link.up }

-- The first node's slice elapses, though its script runs.
abbrev ring : List (Visit memory.Store)
ring =
    node 0 empty (NodeLink.elapses true)
    ∷ node 1 empty NodeLink.answers
    ∷ node 2 empty NodeLink.answers
    ∷ []

abbrev options : LockOptions
options = record { ttl = 100; watchdog = none; safety_policy = SafetyPolicy.balanced }

abbrev a_handle : RedlockHandle
a_handle = record {
  key = job;
  token = "a";
  fence = 1;
  ttl = 100;
  gone = false;
  poisoned = false;
  lost = false;
}

abbrev after : List memory.Store
after = (try_lock memory ring job "a" options 10 Link.up 5).0

won : (try_lock memory ring job "a" options 10 Link.up 5).1 ≡ ok a_handle
unfolding try_lock validate round attempt outcome_of proceed settle quorum_of allocate_fence
    make_handle call acquire issue_fence fence_key_for
won = refl

other_key : allocator_key ≢ job
other_key e = false≢true ((same_iff "__palisade__:fence-allocator" "job").1 e)

a_is_not_b : ◌≢◌ {A = String} "a" "b"
a_is_not_b e = false≢true ((same_iff "a" "b").1 e)

allocator_counts : Allocating memory job 5 (round memory ring job "a" 100).0 (20 ∷ 21 ∷ 22 ∷ [])
unfolding round attempt proceed acquire issue_fence fence_key_for
allocator_counts = (tt, omega arith)

within : WithinLease memory job 100 ring (20 ∷ 21 ∷ 22 ∷ [])
within = (omega arith, omega arith, (omega arith, omega arith, (omega arith, omega arith, tt)))

try_lock-holds_example : quorum_of 3 ≤ shown memory job "a" after (20 ∷ 21 ∷ 22 ∷ [])
try_lock-holds_example =
    try_lock-holds memory job ring "a" options 10 Link.up 5 a_handle (20 ∷ 21 ∷ 22 ∷ []) other_key
      (tt, (tt, (tt, tt))) allocator_counts within won

-- The stores that the ring is left with, and another client's visits to them.
abbrev nth : ℕ → List memory.Store → memory.Store
nth n [] = empty
nth zero (s ∷ ss) = s
nth (suc n) (s ∷ ss) = nth n ss

abbrev ring_later : List (Visit memory.Store)
ring_later =
    node 20 (nth 0 after) NodeLink.answers
    ∷ node 21 (nth 1 after) NodeLink.answers
    ∷ node 22 (nth 2 after) NodeLink.answers
    ∷ []

left_to_it : Undisturbed memory job after ring_later
unfolding try_lock validate round attempt outcome_of proceed settle quorum_of allocate_fence
    make_handle call acquire issue_fence fence_key_for
left_to_it = (refl, (refl, (refl, tt)))

abbrev b_handle : RedlockHandle
b_handle = record {
  key = job;
  token = "b";
  fence = 2;
  ttl = 100;
  gone = false;
  poisoned = false;
  lost = false;
}

try_lock-exclusive_example :
    (try_lock memory ring_later job "b" options 3 Link.up 25).1 ≢ ok b_handle
try_lock-exclusive_example =
    try_lock-exclusive memory job ring ring_later "a" "b" options options 10 3 Link.up Link.up 5 25
      a_handle b_handle a_is_not_b other_key refl (tt, (tt, (tt, tt))) allocator_counts within
      left_to_it won

held_by_a : quorum_of 3 ≤ holders memory job "a" ring_later
unfolding try_lock validate round attempt outcome_of proceed settle quorum_of allocate_fence
    make_handle call acquire issue_fence fence_key_for
held_by_a = omega arith

-- A failure, a success, two failures.
abbrev outcomes : List (Result Error Bool)
outcomes = err Error.backend ∷ ok true ∷ err Error.backend ∷ err Error.backend ∷ ok true ∷ []

ticks-give_up_example :
    (ticks outcomes a_handle started).0
    ≡ (if doomed false outcomes then mark_lost a_handle else a_handle)
ticks-give_up_example = ticks-give_up outcomes a_handle refl

abbrev contact : memory.Store → Contact memory.Store
contact s = record { store = s; now = 30; link = Link.up }

-- Two of the three nodes have lost their keys.
abbrev forgetful : List (Contact memory.Store)
forgetful = contact (nth 0 after) ∷ contact empty ∷ contact empty ∷ []

too_few : owners memory job "a" forgetful < quorum_of 3
unfolding try_lock validate round attempt outcome_of proceed settle quorum_of allocate_fence
    make_handle call acquire issue_fence fence_key_for
too_few = omega arith
