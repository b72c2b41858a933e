-- ===== src/Redis/Latch/Counts.antt =====
-- The latch counts down to zero, and tells what it finds.
use lock_dis.Prelude.{
  ℕ, suc, ◌+◌, ◌-◌, ◌≤◌, ◌≡◌, refl, ap, ◌∙◌, inl, inr, false, none, some, String, List, [], ◌∷◌,
  ◌==◌, same_refl, arith, ℕ-cases, Result, ok, length,
}
use lock_dis.Redis.Server.{Redis, Value, as_number}
use lock_dis.Redis.Manager.{Error, Link, call}
use lock_dis.Redis.Latch.{
  counted_out, initial_counts, latch_init, latch_count_down, latch_get, create, count_down, count,
}

-- The counts that `k` calls find, from `n` down.
abbrev pub found_from : ℕ → List ℕ → List (Result Error ℕ)
found_from n [] = []
found_from n (t ∷ ts) = ok n ∷ found_from (n - 1) ts

abbrev pub InOrder : ℕ → List ℕ → Type 0
InOrder t [] = Unit
InOrder t (u ∷ us) = (t ≤ u) × InOrder u us

abbrev pub last : ℕ → List ℕ → ℕ
last t [] = t
last t (u ∷ us) = last u us

suc-ne_zero : (n : ℕ) → (suc n == 0) ≡ false
suc-ne_zero n = ground arith

minus_one : (n : ℕ) → suc n - 1 ≡ n
minus_one n = omega arith

module _ (r : Redis) (key : String) where
  open r use {Store, read}

  -- From `now` on the key shows the count.
  abbrev pub Counts : Store → ℕ → ℕ → Type 0
  Counts s now n = (t : ℕ) → now ≤ t → read s t key ≡ some (Value.number n)

  -- Parties count down, at these times.
  abbrev pub downs : Store → List ℕ → Store
  downs s [] = s
  downs s (t ∷ ts) = downs (count_down r Link.up s t key).0 ts

  abbrev pub told : Store → List ℕ → List (Result Error ℕ)
  told s [] = []
  told s (t ∷ ts) = (count_down r Link.up s t key).1 ∷ told (count_down r Link.up s t key).0 ts

  create-Counts :
      (s : Store) (now n : ℕ)
      → read s now key ≡ none
      → Counts (create r Link.up s now key (suc n)).0 now (suc n)
  unfolding create latch_init call initial_counts
  create-Counts s now n free t le =
      rw (create, initial_counts, suc-ne_zero n)
        (r.set_nx-read s now key (suc n) t key le ∙ rw (free, same_refl key))

  count_down-Counts :
      (s : Store) (now n : ℕ)
      → Counts s now n
      → ((count_down r Link.up s now key).1 ≡ ok n)
        × Counts (count_down r Link.up s now key).0 now (n - 1)
  unfolding count_down latch_count_down call
  count_down-Counts s now n c =
      let seen : r.get_number s now key ≡ some n =
        r.get_number-reply s now key ∙ ap as_number (c now (omega arith)) in
      elim (ℕ-cases n) [
        | inl e ↦
            rw (latch_count_down, seen, e)
              (refl, λ t le. c t le ∙ ap (λ x. some (Value.number x)) e)
        | inr (m, e) ↦
            let here : read s now key ≡ some (Value.number (suc m)) =
              c now (omega arith) ∙ ap (λ x. some (Value.number x)) e in
            rw (latch_count_down, seen, e, suc-ne_zero m, minus_one m)
              (
                ap (λ x. ok (x + 1)) (r.decr-reply s now key m here) ∙ ap ok (omega arith),
                λ t le. r.decr-read s now key m t key here le ∙ rw (same_refl key, here, c t le),
              )
      ]

  downs-Counts :
      (s : Store) (t n : ℕ) (ts : List ℕ)
      → Counts s t n
      → InOrder t ts
      → (told s ts ≡ found_from n ts) × Counts (downs s ts) (last t ts) (n - length ts)
  downs-Counts s t n [] c o = (refl, λ u le. c u le ∙ ap (λ x. some (Value.number x)) (omega arith))
  downs-Counts s t n (u ∷ us) c o =
      let (said, c') = count_down-Counts s u n (λ v le. c v (omega arith)) in
      let (rest, shows) = downs-Counts (count_down r Link.up s u key).0 u (n - 1) us c' o.1 in
      (rw (said, rest), λ v le. shows v le ∙ ap (λ x. some (Value.number x)) (omega arith))

  count-Counts : (s : Store) (now n : ℕ) → Counts s now n → (count r Link.up s now key).1 ≡ ok n
  unfolding count latch_get call
  count-Counts s now n c =
      ap (λ x. counted_out (ok x))
        (r.get_number-reply s now key ∙ ap as_number (c now (omega arith)))

  -- A latch that is created on a free key counts down by one with each call, and not below zero; a
  -- call tells the count that it found, not the one that it left.
  pub count-downs :
      (s : Store) (now n : ℕ) (ts : List ℕ) (u : ℕ)
      → read s now key ≡ none
      → InOrder now ts
      → last now ts ≤ u
      → let created = (create r Link.up s now key (suc n)).0 in
        (told created ts ≡ found_from (suc n) ts)
        × ((count r Link.up (downs created ts) u key).1 ≡ ok (suc n - length ts))
  count-downs s now n ts u free o le =
      let created = (create r Link.up s now key (suc n)).0 in
      let (said, shows) = downs-Counts created now (suc n) ts (create-Counts s now n free) o in
      (said, count-Counts (downs created ts) u (suc n - length ts) (λ v h. shows v (omega arith)))
