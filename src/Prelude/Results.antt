-- ===== src/Prelude/Results.antt =====
-- Outcomes of fallible code: Rust's `Result`, with `?` as the bind of a do block.

use mathlib.Core.Logic.{◌⊎◌, inl, inr}
use mathlib.Core.Path.{◌≡◌, refl}

pub data Result {ℓ} (E : Type 0) (A : Type ℓ) : Type ℓ where
  err : E → Result E A
  ok : A → Result E A

infixl 5 ◌>>=◌
abbrev pub ◌>>=◌ {ℓ κ} :
    {E : Type 0} {A : Type ℓ} {B : Type κ} → Result E A → (A → Result E B) → Result E B
err problem >>= next = err problem
ok value >>= next = next value

-- What both halves of a sequence that passes yield.
pub chain-passes {ℓ κ} :
    {E : Type 0} {T : Type ℓ} {U : Type κ} {result : U} (start : Result E T) (next : T → Result E U)
    → start >>= next ≡ ok result
    → (middle : T) × (start ≡ ok middle) × (next middle ≡ ok result)
chain-passes (err problem) next passed = cc
chain-passes (ok middle) next passed = (middle, refl, passed)

pub outcome-cases {ℓ} :
    {E : Type 0} {A : Type ℓ} (res : Result E A)
    → ((a : A) × (res ≡ ok a)) ⊎ ((e : E) × (res ≡ err e))
outcome-cases (ok a) = inl (a, refl)
outcome-cases (err e) = inr (e, refl)
