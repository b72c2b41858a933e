-- ===== src/Redis/Semaphore/Examples.antt =====
-- The semaphore at concrete calls, over the store in memory.
use lock_dis.Prelude.{ℕ, ◌≤◌, ◌≡◌, refl, String, List, [], ◌∷◌, arith, length}
use lock_dis.Redis.Server.{as_members}
use lock_dis.Redis.Memory.{memory, empty}
use lock_dis.Redis.Mutex.{Reply, fence_key_for}
use lock_dis.Redis.Mutex.Effects.{fence_key_for-ne}
use lock_dis.Redis.Mutex.Lease.{answer}
use lock_dis.Redis.Traces.{Call, run, replies}
use lock_dis.Redis.Semaphore.{acquire_permit, extend_permit}
use lock_dis.Redis.Semaphore.Spec.{Op, Pool, pool_step}
use lock_dis.Redis.Semaphore.Refines.{Shows, perform_permit}
use lock_dis.Redis.Semaphore.Runs.{vacant, run-Shows, run-capacity}
use lock_dis.Redis.Semaphore.Holds.{reply_after, acquire-lasts}

abbrev key : String
key = "pool"

abbrev perform_two : memory.Store → ℕ → Op → memory.Store × Reply
perform_two = perform_permit memory key (fence_key_for key) (fence_key_for-ne key) 2

abbrev Showing : memory.Store → ℕ → Pool → Type 0
Showing = Shows memory key (fence_key_for key) (fence_key_for-ne key)

nothing_shown : Showing empty 0 vacant
nothing_shown t le = (refl, refl)

abbrev three : List (Call Op)
three =
    record { now = 10; op = Op.acquire "b" 1000 }
    ∷ record { now = 20; op = Op.acquire "c" 1000 }
    ∷ record { now = 30; op = Op.release "b" }
    ∷ []

run-Shows_example :
    (replies perform_two empty three ≡ replies (pool_step 2) vacant three)
    × Showing (run perform_two empty three) 30 (run (pool_step 2) vacant three)
run-Shows_example =
    run-Shows memory key (fence_key_for key) (fence_key_for-ne key) 2 empty 0 vacant three
      nothing_shown (omega arith) (omega arith)

run-capacity_example : length (as_members (memory.read (run perform_two empty three) 40 key)) ≤ 2
run-capacity_example =
    run-capacity memory key (fence_key_for key) (fence_key_for-ne key) 2 empty 0 three 40
      nothing_shown (omega arith) (omega arith) (omega arith)

won : (perform_two empty 5 (Op.acquire "a" 500)).1.status ≡ 1
unfolding perform_permit fence_key_for acquire_permit
won = refl

acquire-lasts_example :
    ((reply_after memory key
        (fence_key_for key)
        (fence_key_for-ne key)
        2
        empty
        0
        vacant
        nothing_shown
        5
        (Op.acquire "a" 500)
        three
        40
        (Op.extend "a" 300)).status
      ≡ 1)
    × ((reply_after memory key
          (fence_key_for key)
          (fence_key_for-ne key)
          2
          empty
          0
          vacant
          nothing_shown
          5
          (Op.acquire "a" 500)
          three
          40
          (Op.release "a")).status
        ≡ 1)
acquire-lasts_example =
    acquire-lasts memory key (fence_key_for key) (fence_key_for-ne key) 2 empty 0 vacant
      nothing_shown 5 "a" 500 three 40 300 (omega arith) (omega arith) won (omega arith)
      (
        (omega arith, (refl, omega arith)),
        ((omega arith, (refl, omega arith)), ((omega arith, refl), tt)),
      )
      (omega arith) (omega arith)

-- A later holder asks for a shorter lease: the whole set lapses with it, and two more are let in
-- beside the first, whose lease time is not over.
abbrev shortened : List (Call Op)
shortened =
    record { now = 10; op = Op.acquire "a" 1000 }
    ∷ record { now = 20; op = Op.acquire "b" 50 }
    ∷ record { now = 80; op = Op.acquire "c" 1000 }
    ∷ record { now = 90; op = Op.acquire "d" 1000 }
    ∷ record { now = 100; op = Op.extend "a" 1000 }
    ∷ []

over_capacity :
    replies perform_two empty shortened
    ≡ answer 1 1 ∷ answer 1 2 ∷ answer 1 3 ∷ answer 1 4 ∷ answer 0 0 ∷ []
unfolding perform_permit fence_key_for acquire_permit extend_permit
over_capacity = refl
