-- ===== src/Redis/Polling/Returns.antt =====
-- The waiting loop returns, and what it returns.
use lock_dis.Prelude.{
  outcome-cases, ℕ, suc, ◌+◌, ◌*◌, ◌≤◌, ◌<◌, ◌≡◌, refl, inl, inr, true, false, some, String, List,
  [], ◌∷◌, leb, leb→gt, arith, Bool-cases, Result, ok, err, length,
}
use lock_dis.Redis.Manager.{Error}
use lock_dis.Redis.Polling.{Turn, is_held, wait_on, poll}

-- Each turn ends at least `interval` after the one before it.
abbrev pub Spaced {ℓ} : {A : Type ℓ} → (interval t : ℕ) → List (Turn A) → Type 0
Spaced interval t [] = Unit
Spaced interval t (turn ∷ turns) =
    (t + interval ≤ turn.instant) × Spaced interval turn.instant turns

-- How a loop over these turns may end: the first turn that is not refused decides, or the first
-- refused turn at or past the deadline does.
pub data Ended {ℓ} {A : Type ℓ} (key : String) (deadline : ℕ)
    : List (Turn A) → Result Error A → Type ℓ where
  won :
      (turn : Turn A) (turns : List (Turn A)) (a : A)
      → turn.outcome ≡ ok a
      → Ended key deadline (turn ∷ turns) (ok a)
  failed :
      (turn : Turn A) (turns : List (Turn A)) (e : Error)
      → turn.outcome ≡ err e
      → is_held e ≡ false
      → Ended key deadline (turn ∷ turns) (err e)
  expired :
      (turn : Turn A) (turns : List (Turn A)) (e : Error)
      → turn.outcome ≡ err e
      → is_held e ≡ true
      → deadline ≤ turn.instant
      → Ended key deadline (turn ∷ turns) (err (Error.timeout key))
  waited :
      (turn : Turn A) (turns : List (Turn A)) (e : Error) (res : Result Error A)
      → turn.outcome ≡ err e
      → is_held e ≡ true
      → turn.instant < deadline
      → Ended key deadline turns res
      → Ended key deadline (turn ∷ turns) res

no_pauses : (i : ℕ) → 0 * i ≡ 0
no_pauses i = omega arith

suc_times : (n i : ℕ) → suc n * i ≡ i + n * i
suc_times n i = ground arith

module _ {ℓ} {A : Type ℓ} (key : String) (deadline : ℕ) where
  -- The loop has returned, in one of these ways.
  abbrev Returned : List (Turn A) → Type ℓ
  Returned turns =
      (res : Result Error A) × (poll key deadline turns ≡ some res) × Ended key deadline turns res

  turn-Returned :
      (turn : Turn A) (turns : List (Turn A))
      → (turn.instant < deadline → Returned turns)
      → Returned (turn ∷ turns)
  unfolding poll wait_on
  turn-Returned turn turns onward = elim (outcome-cases turn.outcome) [
    | inl (a, e) ↦ (ok a, simp e refl, Ended.won turn turns a e)
    | inr (x, e) ↦ elim (Bool-cases (is_held x)) [
      | inr other ↦ (err x, simp (e, other) refl, Ended.failed turn turns x e other)
      | inl held ↦ elim (Bool-cases (leb deadline turn.instant)) [
        | inl late ↦ (
          err (Error.timeout key),
          simp (e, held, late) refl,
          Ended.expired turn turns x e held (ground arith),
        )
        | inr early ↦
            let before = leb→gt deadline turn.instant early in
            let (res, is, ended) = onward before in
            (res, simp (e, held, early) is, Ended.waited turn turns x res e held before ended)
      ]
    ]
  ]

-- The loop, which does not pause before its first turn, returns within one turn more than the time
-- to its deadline has pauses: with the lock when a turn got it, with the error when a turn failed
-- otherwise, with a timeout when a turn was refused at or past the deadline, and the turns before
-- were refused before it.
pub poll-returns {ℓ} :
    {A : Type ℓ} (key : String) (deadline interval t : ℕ) (turn : Turn A) (turns : List (Turn A))
    → t ≤ turn.instant
    → Spaced interval turn.instant turns
    → deadline ≤ t + length turns * interval
    → (res : Result Error A) × (poll key deadline (turn ∷ turns) ≡ some res)
      × Ended key deadline (turn ∷ turns) res
poll-returns key deadline interval t turn [] began spaced enough =
    turn-Returned key deadline turn [] (λ early. absurd (omega (arith, no_pauses interval)))
poll-returns key deadline interval t turn (next ∷ turns) began spaced enough =
    turn-Returned key deadline turn (next ∷ turns) (λ early.
      poll-returns key deadline interval next.instant next turns (omega arith) spaced.1
        (omega (arith, spaced.0, suc_times (length turns) interval)))
