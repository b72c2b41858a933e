-- ===== src/Redis/RwLock/Examples.antt =====
-- The read-write lock over the server in memory: the theorems at concrete calls.
use lock_dis.Prelude.{
  ℕ, ◌≡◌, ◌≢◌, refl, List, [], ◌∷◌, String, arith, true, false, same_iff, none, some,
}
use mathlib.Core.Bool.{false≢true}
use lock_dis.Redis.Memory.{memory, empty}
use lock_dis.Redis.Server.{is_some}
use lock_dis.Redis.Mutex.{fence_key_for}
use lock_dis.Redis.Mutex.Effects.{fence_key_for-ne}
use lock_dis.Redis.Mutex.Lease.{answer}
use lock_dis.Redis.Manager.{Link}
use lock_dis.Redis.RwLock.{RwHandle, reader_field, drop, read_release}
use lock_dis.Redis.RwLock.Spec.{Mode, Op, RwState, Answer, leased, step, promise}
use lock_dis.Redis.RwLock.Refines.{Shows, perform}
use lock_dis.Redis.RwLock.Runs.{run-keeps_mode}
use lock_dis.Redis.RwLock.Safety.{NoWriters, refusals, replies-NoWriters, replies-kept_out}
use lock_dis.Redis.RwLock.Handles.{drop-ends_all}
use lock_dis.Redis.Traces.{Call, run, replies}

abbrev job : String
job = "job"

apart : job ≢ fence_key_for job
apart = fence_key_for-ne job

abbrev server : memory.Store → ℕ → Op → memory.Store × Answer
server = perform memory job (fence_key_for job) apart

abbrev Showing : memory.Store → ℕ → RwState → Type 0
Showing = Shows memory job (fence_key_for job) apart

abbrev free : RwState
free = record { mode = none; grants = 0 }

vacant : Showing empty 0 free
vacant = (λ t le. refl, λ t le. refl)

abbrev call_at : ℕ → Op → Call Op
call_at now op = record { now = now; op = op }

-- Two readers, a writer that waits for both, another reader that is kept out.
abbrev some_calls : List (Call Op)
some_calls =
    call_at 0 (Op.read_acquire "a" 100 1000)
    ∷ call_at 10 (Op.read_acquire "b" 100 1000)
    ∷ call_at 20 (Op.write_acquire "w" 100 1000)
    ∷ call_at 30 (Op.read_release "a" 100)
    ∷ call_at 40 (Op.read_release "b" 100)
    ∷ call_at 50 (Op.write_acquire "w" 100 1000)
    ∷ call_at 60 (Op.read_acquire "a" 100 1000)
    ∷ []

run-keeps_mode_example :
    (replies server empty some_calls ≡ replies step free some_calls)
    × Showing (run server empty some_calls) 60 (run step free some_calls)
run-keeps_mode_example =
    run-keeps_mode memory job (fence_key_for job) apart empty 0 free some_calls vacant tt
      (
        omega arith,
        (
          omega arith,
          (omega arith, (omega arith, (omega arith, (omega arith, (omega arith, tt))))),
        ),
      )
      (omega arith)

step-replies :
    replies step free some_calls
    ≡ Answer.granted (answer 1 1)
      ∷ Answer.granted (answer 1 2)
      ∷ Answer.granted (answer 0 0)
      ∷ Answer.left (some 1)
      ∷ Answer.left (some 0)
      ∷ Answer.granted (answer 1 3)
      ∷ Answer.granted (answer 0 0)
      ∷ []
unfolding step promise
step-replies = refl

-- Two readers hold the lock.
abbrev joining : List (Call Op)
joining = call_at 0 (Op.read_acquire "a" 100 1000) ∷ call_at 10 (Op.read_acquire "b" 100 1000) ∷ []

abbrev both : RwState
both = record { mode = leased (Mode.reading ("b" ∷ "a" ∷ [])) 110; grants = 2 }

both_read : Showing (run server empty joining) 10 both
unfolding step promise
both_read =
    (run-keeps_mode memory job (fence_key_for job) apart empty 0 free joining vacant tt
      (omega arith, (omega arith, tt)) (omega arith)).1

b_is_not_a : ◌≢◌ {A = String} "b" "a"
b_is_not_a e = false≢true ((same_iff "b" "a").1 e)

abbrev attempts : List (Call Op)
attempts =
    call_at 20 (Op.write_acquire "w" 100 1000)
    ∷ call_at 30 (Op.read_release "b" 100)
    ∷ call_at 40 (Op.write_acquire "w" 100 1000)
    ∷ []

replies-NoWriters_example :
    NoWriters attempts (replies server (run server empty joining) attempts)
    × (is_some
          (memory.hget (run server (run server empty joining) attempts) 99 job (reader_field "a"))
        ≡ true)
replies-NoWriters_example =
    replies-NoWriters memory job (fence_key_for job) apart (run server empty joining) 10 both "a"
      ("b" ∷ "a" ∷ []) 110 110 99 attempts both_read ((refl, (refl, tt)), omega arith) refl refl
      (omega arith) (omega arith, (omega arith, (omega arith, tt)))
      ((omega arith, tt), ((omega arith, (omega arith, b_is_not_a)), ((omega arith, tt), tt)))
      (omega arith) (omega arith) (omega arith)

-- A writer holds the lock.
abbrev entering : List (Call Op)
entering = call_at 0 (Op.write_acquire "a" 100 1000) ∷ []

abbrev owned : RwState
owned = record { mode = leased (Mode.writing "a") 100; grants = 1 }

a_writes : Showing (run server empty entering) 0 owned
unfolding step promise
a_writes =
    (run-keeps_mode memory job (fence_key_for job) apart empty 0 free entering vacant tt
      (omega arith, tt) (omega arith)).1

abbrev others : List (Call Op)
others =
    call_at 10 (Op.read_acquire "b" 100 1000)
    ∷ call_at 20 (Op.write_acquire "b" 100 1000)
    ∷ call_at 30 (Op.extend "b" 100)
    ∷ []

replies-kept_out_example :
    (replies server (run server empty entering) others ≡ refusals others)
    × Showing (run server (run server empty entering) others) 30 owned
replies-kept_out_example =
    replies-kept_out memory job (fence_key_for job) apart (run server empty entering) 0 owned "a"
      100 others a_writes tt refl (omega arith, (omega arith, (omega arith, tt)))
      ((omega arith, b_is_not_a), ((omega arith, b_is_not_a), ((omega arith, b_is_not_a), tt)))
      (omega arith)

abbrev b_guard : RwHandle
b_guard = record { key = job; token = "b"; fence = 2; ttl = 100; gone = false; write_mode = false }

drop-ends_all_example :
    (memory.exists (drop memory Link.up (run server empty joining) 50 b_guard).0 50 job ≡ false)
    × (is_some (
          memory.hget
            (read_release memory Link.up (run server empty joining) 50 b_guard).0
            50
            job
            (reader_field "a"))
        ≡ true)
drop-ends_all_example =
    drop-ends_all memory (run server empty joining) 50 both b_guard ("b" ∷ "a" ∷ []) "a"
      (
        (λ t le. both_read.0 t (omega arith), λ t le. both_read.1 t (omega arith)),
        refl,
        ((refl, (refl, tt)), omega arith),
        refl,
      )
      refl refl refl (omega arith) (omega arith)
