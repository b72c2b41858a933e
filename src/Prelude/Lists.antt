-- ===== src/Prelude/Lists.antt =====
-- Lists measured by native numbers, predicates on lists, and families indexed by a number.
use Prim.Native.Nat.{ℕ, zero, suc, ◌+◌, ◌≤◌, ◌<◌}
use mathlib.Core.Path.{◌≡◌, refl, sym, subst}
use mathlib.Core.List.{List, [], ◌∷◌, ◌++◌}
use native.Mathlib.Decide.{ℕ_discrete}
use mathlib.Core.Logic.{ite, ◌≢◌}
use native.Mathlib.Omega.{arith}

module _ {ℓ} {A : Type ℓ} where
  abbrev pub length : List A → ℕ
  length [] = 0
  length (x ∷ xs) = suc (length xs)

  pub length-append : (xs ys : List A) → length (xs ++ ys) ≡ length xs + length ys
  length-append [] ys = omega arith
  length-append (x ∷ xs) ys = omega (arith, length-append xs ys)

-- A predicate that holds of every element.
abbrev pub All {ℓ κ} : {A : Type ℓ} → (A → Type κ) → List A → Type κ
All P [] = Unit
All P (x ∷ xs) = P x × All P xs

pub All-append {ℓ κ} :
    {A : Type ℓ} (P : A → Type κ) (xs ys : List A) → All P xs → All P ys → All P (xs ++ ys)
All-append P [] ys hx hy = hy
All-append P (x ∷ xs) ys hx hy = (hx.0, All-append P xs ys hx.1 hy)

-- A family indexed by a number, changed at one index: `v[i] = a`.
abbrev pub update {ℓ} : {A : Type ℓ} → (ℕ → A) → ℕ → A → ℕ → A
update f i a j = ite (ℕ_discrete i j) a (f j)

-- What the members of a family below `n` weigh together.
unfoldable pub total {ℓ} : {A : Type ℓ} → (A → ℕ) → ℕ → (ℕ → A) → ℕ
total weigh zero v = 0
total weigh (suc m) v = weigh (v m) + total weigh m v

-- One change moves the weight by the difference if it is below `n`, and not at all otherwise.
total-changed {ℓ} :
    {A : Type ℓ} (weigh : A → ℕ) (k : ℕ) (new : A) (v : ℕ → A) (n : ℕ)
    → (n ≤ k → total weigh n (update v k new) ≡ total weigh n v)
      × (k < n → weigh (v k) + total weigh n (update v k new) ≡ weigh new + total weigh n v)
unfolding total
total-changed weigh k new v zero = (λ _. refl, λ out. absurd (omega arith))
total-changed weigh k new v (suc m) =
    let (outside, inside) = total-changed weigh k new v m in
    (λ out. ground (arith, outside), λ low. ground (arith, outside, inside))

pub total-update {ℓ} :
    {A : Type ℓ} (weigh : A → ℕ) (n : ℕ) (v : ℕ → A) (k : ℕ) (new : A)
    → k < n
    → total weigh n (update v k new) + weigh (v k) ≡ total weigh n v + weigh new
total-update weigh n v k new low = omega (arith, (total-changed weigh k new v n).1 low)

-- A fact about two families that are changed at the same index.
pub update_both {ℓ κ μ} :
    {A : Type ℓ} {B : Type κ} (P : ℕ → A → B → Type μ) (f : ℕ → A) (g : ℕ → B) (i : ℕ) (a : A)
    (b : B)
    → P i a b
    → ((j : ℕ) → j ≢ i → P j (f j) (g j))
    → (j : ℕ) → P j (update f i a j) (update g i b j)
update_both P f g i a b here there j =
    elim (ℕ_discrete i j) as (λ d. P j (ite d a (f j)) (ite d b (g j))) [
      | yes e ↦ subst (λ k. P k a b) e here
      | no n ↦ there j (λ e. n (sym e))
    ]
