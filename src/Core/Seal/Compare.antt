-- ===== src/Core/Seal/Compare.antt =====
-- The comparison without early exit decides equality of the bytes.
use Prim.Native.Nat.{bit_or, bit_xor, digits, differ, bit_or-bitwise, bit_xor-bitwise}
use lock_dis.Prelude.{
  ℕ, zero, suc, ◌≤◌, ◌≡◌, ◌↔◌, refl, ◌∙◌, sym, ap, inl, inr, true, List, [], ◌∷◌, ◌==◌, ==_iff,
  length, arith, Bool-cases, max, ◌/◌, ◌%◌,
}
use lock_dis.Core.Seal.{differences, constant_time_eq}

differ-zero : (x y : ℕ) → differ x y ≡ 0 → x ≡ y
differ-zero zero y e = sym e
differ-zero (suc x) zero e = absurd (omega (arith, e))
differ-zero (suc x) (suc y) e = ap suc (differ-zero x y e)

differ_self : (x : ℕ) → differ x x ≡ 0
differ_self zero = refl
differ_self (suc x) = differ_self x

xor_digits-zero : (n a b : ℕ) → a ≤ n → digits (λ b. b) differ n a b ≡ 0 → a ≡ b
xor_digits-zero zero zero b le e = sym e
xor_digits-zero zero (suc a) b le e = absurd (omega arith)
xor_digits-zero (suc n) zero b le e = sym e
xor_digits-zero (suc n) (suc a) b le e =
    let halves : suc a / 2 ≡ b / 2 =
      xor_digits-zero n (suc a / 2) (b / 2) (omega arith) (omega arith) in
    let ends : suc a % 2 ≡ b % 2 = differ-zero (suc a % 2) (b % 2) (omega arith) in omega arith

xor_digits_self : (n a : ℕ) → a ≤ n → digits (λ b. b) differ n a a ≡ 0
xor_digits_self zero zero le = refl
xor_digits_self zero (suc a) le = absurd (omega arith)
xor_digits_self (suc n) zero le = refl
xor_digits_self (suc n) (suc a) le =
    omega (arith, xor_digits_self n (suc a / 2) (omega arith), differ_self (suc a % 2))

or_digits-zero : (n a b : ℕ) → a ≤ n → digits (λ b. b) max n a b ≡ 0 → (a ≡ 0) × (b ≡ 0)
or_digits-zero zero zero b le e = (refl, e)
or_digits-zero zero (suc a) b le e = absurd (omega arith)
or_digits-zero (suc n) zero b le e = (refl, e)
or_digits-zero (suc n) (suc a) b le e =
    let halves = or_digits-zero n (suc a / 2) (b / 2) (omega arith) (omega arith) in
    absurd (omega (arith, halves))

bit_xor-zero : (a b : ℕ) → bit_xor a b ≡ 0 → a ≡ b
bit_xor-zero a b e = xor_digits-zero a a b (omega arith) (sym (bit_xor-bitwise a b) ∙ e)

bit_xor_self : (a : ℕ) → bit_xor a a ≡ 0
bit_xor_self a = bit_xor-bitwise a a ∙ xor_digits_self a a (omega arith)

bit_or-zero : (a b : ℕ) → bit_or a b ≡ 0 → (a ≡ 0) × (b ≡ 0)
bit_or-zero a b e = or_digits-zero a a b (omega arith) (sym (bit_or-bitwise a b) ∙ e)

differences-zero :
    (d : ℕ) (a b : List ℕ) → length a ≡ length b → differences d a b ≡ 0 → (d ≡ 0) × (a ≡ b)
unfolding differences
differences-zero d [] [] l e = (e, refl)
differences-zero d [] (y ∷ ys) l e = absurd (omega arith)
differences-zero d (x ∷ xs) [] l e = absurd (omega arith)
differences-zero d (x ∷ xs) (y ∷ ys) l e =
    let (none_so_far, rest) = differences-zero (bit_or d (bit_xor x y)) xs ys (omega arith) e in
    let (before, here) = bit_or-zero d (bit_xor x y) none_so_far in
    let equal : x ≡ y = bit_xor-zero x y here in (before, cc)

differences_self : (a : List ℕ) → differences 0 a a ≡ 0
unfolding differences
differences_self [] = refl
differences_self (x ∷ xs) = rw (bit_xor_self x) (differences_self xs)

-- The comparison answers true for equal bytes and for no others.
pub constant_time_eq_iff : (a b : List ℕ) → (constant_time_eq a b ≡ true) ↔ (a ≡ b)
unfolding constant_time_eq
constant_time_eq_iff a b = (sound, complete)
  where
    sound : constant_time_eq a b ≡ true → a ≡ b
    sound e = elim (Bool-cases (length a == length b)) [
      | inl l ↦
          let zero_diff : differences 0 a b ≡ 0 = ground arith in
          (differences-zero 0 a b ((==_iff (length a) (length b)).0 l) zero_diff).1
      | inr l ↦ absurd (ground arith)
    ]

    complete : a ≡ b → constant_time_eq a b ≡ true
    complete e = rw e (rw ((==_iff (length b) (length b)).1 refl) (rw (differences_self b)))
