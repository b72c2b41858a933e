-- ===== src/Redis/Reentrant/Examples.antt =====
-- The reentrant lock over the server in memory: the theorems at concrete calls.
use lock_dis.Prelude.{
  ℕ, ◌≡◌, ◌≢◌, refl, List, [], ◌∷◌, String, arith, false, same_iff, none, some, ok, err, Result,
}
use mathlib.Core.Bool.{false≢true}
use lock_dis.Redis.Memory.{memory, empty}
use lock_dis.Redis.Server.{Datum}
use lock_dis.Redis.Mutex.{fence_key_for}
use lock_dis.Redis.Mutex.Effects.{fence_key_for-ne}
use lock_dis.Redis.Mutex.Lease.{answer}
use lock_dis.Redis.Manager.{Error}
use lock_dis.Redis.Reentrant.Spec.{Op, Reentrant, Answer, leased, step, promise}
use lock_dis.Redis.Reentrant.Writes.{Shows}
use lock_dis.Redis.Reentrant.Runs.{Call, after, promised, run, replies, run-keeps_promise}
use lock_dis.Redis.Reentrant.Nesting.{Nested, calls}
use lock_dis.Redis.Reentrant.Safety.{replies-refusals, run-nests, entering}
use lock_dis.Redis.Polling.{Turn, poll}
use lock_dis.Redis.Polling.Returns.{Ended, poll-returns}

abbrev job : String
job = "job"

apart : job ≢ fence_key_for job
apart = fence_key_for-ne job

abbrev free : Reentrant
free = record { holds = none; grants = 0 }

vacant : Shows memory job (fence_key_for job) apart empty 0 free
vacant = (λ t le. refl, λ t le. refl)

abbrev call_at : ℕ → Op → Call
call_at now op = record { now = now; op = op }

-- Two holds of one owner, a refusal, and a release of both.
abbrev some_calls : List Call
some_calls =
    call_at 0 (Op.acquire "a" 100 1000)
    ∷ call_at 10 (Op.acquire "b" 100 1000)
    ∷ call_at 20 (Op.acquire "a" 100 1000)
    ∷ call_at 30 (Op.release "a" 0)
    ∷ call_at 40 (Op.release_all "a")
    ∷ []

run-keeps_promise_example :
    (replies memory job (fence_key_for job) apart empty some_calls ≡ promised free some_calls)
    × Shows memory job
        (fence_key_for job)
        apart
        (run memory job (fence_key_for job) apart empty some_calls)
        40
        (after free some_calls)
run-keeps_promise_example =
    run-keeps_promise memory job (fence_key_for job) apart empty 0 free some_calls vacant tt
      (omega arith, (omega arith, (omega arith, (omega arith, (omega arith, tt))))) (omega arith)

promised_replies :
    promised free some_calls
    ≡ Answer.granted (answer 1 1)
      ∷ Answer.granted (answer 0 0)
      ∷ Answer.granted (answer 2 2)
      ∷ Answer.left (some 1)
      ∷ Answer.left (some 1)
      ∷ []
unfolding step promise
promised_replies = refl

-- After the first call the lock is held.
abbrev first_call : List Call
first_call = call_at 0 (Op.acquire "a" 100 1000) ∷ []

abbrev held : Reentrant
held = record { holds = leased "a" 0 100; grants = 1 }

held-after : after free first_call ≡ held
unfolding step promise
held-after = refl

holding :
    Shows memory job
      (fence_key_for job)
      apart
      (run memory job (fence_key_for job) apart empty first_call)
      0
      held
unfolding step promise
holding =
    (run-keeps_promise memory job (fence_key_for job) apart empty 0 free first_call vacant tt
      (omega arith, tt) (omega arith)).1

abbrev foreign_calls : List Call
foreign_calls = call_at 10 (Op.acquire "b" 100 1000) ∷ call_at 99 (Op.release "b" 100) ∷ []

b_is_not_a : ◌≢◌ {A = String} "b" "a"
b_is_not_a e = false≢true ((same_iff "b" "a").1 e)

replies-refusals_example :
    (replies memory job
        (fence_key_for job)
        apart
        (run memory job (fence_key_for job) apart empty first_call)
        foreign_calls
      ≡ Answer.granted (answer 0 0) ∷ Answer.left none ∷ [])
    × Shows memory job
        (fence_key_for job)
        apart
        (run memory job
          (fence_key_for job)
          apart
          (run memory job (fence_key_for job) apart empty first_call)
          foreign_calls)
        99
        held
replies-refusals_example =
    replies-refusals memory job (fence_key_for job) apart
      (run memory job (fence_key_for job) apart empty first_call) 0 held "a" 0 100 foreign_calls
      holding refl (omega arith) (omega arith, (omega arith, tt))
      ((omega arith, b_is_not_a), ((omega arith, b_is_not_a), tt)) (omega arith)

-- One use inside another, and one after it.
abbrev uses : Nested
uses =
    Nested.inside 10 (Nested.inside 20 Nested.done 30 Nested.done) 40
      (Nested.inside 50 Nested.done 60 Nested.done)

run-nests_example :
    let before =
      run memory job (fence_key_for job) apart empty (entering "a" 100 5 ∷ calls "a" 100 uses) in
    let afterwards =
      run memory job
        (fence_key_for job)
        apart
        empty
        (calls "a" 100 (Nested.inside 5 uses 70 Nested.done)) in
    (memory.hget before 70 job "owner" ≡ some (Datum.str "a"))
    × (memory.hget before 70 job "count" ≡ some (Datum.int 1))
    × (memory.exists afterwards 70 job ≡ false)
run-nests_example =
    run-nests memory job (fence_key_for job) apart empty 0 free "a" 100 5 uses 70 vacant refl tt
      (omega arith) (omega arith)
      (
        omega arith,
        omega arith,
        (omega arith, omega arith, tt, omega arith, omega arith, tt),
        omega arith,
        omega arith,
        (omega arith, omega arith, tt, omega arith, omega arith, tt),
      )
      (omega arith) (omega arith) (omega arith)

-- Two refusals, then a grant: three turns, with two pauses of 20 ms before a deadline at 40 ms.
abbrev first_turn : Turn ℕ
first_turn = record { outcome = err (Error.held job); instant = 0 }

abbrev later_turns : List (Turn ℕ)
later_turns =
    record { outcome = err (Error.held job); instant = 20 }
    ∷ record { outcome = ok 1; instant = 45 }
    ∷ []

poll-returns_example :
    (res : Result Error ℕ) × (poll job 40 (first_turn ∷ later_turns) ≡ some res)
    × Ended job 40 (first_turn ∷ later_turns) res
poll-returns_example =
    poll-returns job 40 20 0 first_turn later_turns (omega arith) (omega arith) (omega arith)
