-- ===== src/Core/Examples.antt =====
-- The recorder at concrete entries.
use lock_dis.Prelude.{
  add64, ℕ, ◌-◌, ◌≤◌, ◌↔◌, ◌⊎◌, false, ◌≡◌, refl, true, List, [], ◌∷◌, length, arith, ok, err,
}
use lock_dis.Core.BlackBox.{
  Frame, Entry, with_capacity, record_entry, record_all, verify_chain, verify_from, chain_of, mix,
  mix_bytes,
}
use lock_dis.Core.Seal.{seal, verify}
use lock_dis.Core.Seal.Laws.{verify-seal}
use lock_dis.Core.BlackBox.Tape.{skip, record_all-verifies}
use lock_dis.Core.BlackBox.Ring.{tape, record_all-newest}

abbrev entry : ℕ → Entry
entry fence = record { key = 107 ∷ 49 ∷ []; op = 103 ∷ []; success = true; fence = fence }

abbrev three : List Entry
three = entry 1 ∷ entry 2 ∷ entry 3 ∷ []

record_all-verifies_example : verify_chain (record_all (with_capacity 2) three).buf ≡ ok tt
record_all-verifies_example = record_all-verifies 2 three

record_all-newest_example :
    let whole = tape (with_capacity 2) three in
    (record_all (with_capacity 2) three).buf ≡ skip (length whole - 2) whole
record_all-newest_example = record_all-newest 2 three (omega arith)

-- A frame whose fence is changed afterwards is reported by its number.
forged : List Frame → List Frame
forged [] = []
forged (f ∷ []) = record f { fence = 9 } ∷ []
forged (f ∷ (g ∷ gs)) = f ∷ record g { fence = 9 } ∷ gs

forgery_reported : verify_chain (forged (record_all (with_capacity 4) three).buf) ≡ err 1
unfolding forged verify_chain verify_from record_entry with_capacity chain_of mix mix_bytes add64
forgery_reported = refl

-- A seal of today is 1_700_000_000_000 ms after the epoch; the secret "ab" ends in a "b".
verify-seal_example :
    ((verify 1_700_000_000_000
          (97 ∷ 98 ∷ [])
          (107 ∷ [])
          7
          (seal (97 ∷ 98 ∷ []) (107 ∷ []) 7)
          0
          60_000
        ≡ true)
      ↔ (◌≡◌ {A = ℕ} 60_000 0 ⊎ (1_700_000_000_000 ≤ 60_000)))
    × ((verify 1_700_000_000_000
            (97 ∷ [])
            (98 ∷ 107 ∷ [])
            7
            (seal (97 ∷ 98 ∷ []) (107 ∷ []) 7)
            0
            60_000
          ≡ true)
        ↔ (◌≡◌ {A = ℕ} 60_000 0 ⊎ (1_700_000_000_000 ≤ 60_000)))
verify-seal_example = verify-seal 1_700_000_000_000 (97 ∷ []) (98 ∷ []) (107 ∷ []) 7 60_000

tampered_seal : verify 5 (97 ∷ []) (107 ∷ []) 8 (seal (97 ∷ []) (107 ∷ []) 7) 0 0 ≡ false
unfolding verify seal
tampered_seal = refl
