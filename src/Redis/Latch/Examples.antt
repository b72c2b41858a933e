-- ===== src/Redis/Latch/Examples.antt =====
-- The latch over the server in memory.
use lock_dis.Prelude.{◌≡◌, refl, [], ◌∷◌, String, arith, ok}
use lock_dis.Redis.Memory.{memory, empty}
use lock_dis.Redis.Manager.{Link}
use lock_dis.Redis.Latch.{create, count}
use lock_dis.Redis.Latch.Counts.{downs, told, count-downs}

abbrev gate : String
gate = "gate"

abbrev made : memory.Store
made = (create memory Link.up empty 0 gate 2).0

-- Three parties count a latch of two down: the second call tells 1, though nothing is left.
count-downs_example :
    (told memory gate made (10 ∷ 20 ∷ 30 ∷ []) ≡ ok 2 ∷ ok 1 ∷ ok 0 ∷ [])
    × ((count memory Link.up (downs memory gate made (10 ∷ 20 ∷ 30 ∷ [])) 40 gate).1 ≡ ok 0)
count-downs_example =
    count-downs memory gate empty 0 1 (10 ∷ 20 ∷ 30 ∷ []) 40 refl
      (omega arith, (omega arith, (omega arith, tt))) (omega arith)
