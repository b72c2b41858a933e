-- ===== src/Testing/Sim/Rng.antt =====
-- `Rng` of crates/testing/src/sim.rs: xorshift64 on u64. A method returns its value and the state.
use Prim.Native.Nat.{bit_xor}
use lock_dis.Prelude.{ℕ, ◌*◌, ◌/◌, ◌%◌, ◌^◌, ◌≤◌, Bool, if◌then◌else◌, ltb, ◌==◌, arith}

pub record Rng : Type 0 where
  pub state : ℕ

unfoldable pub new : ℕ → Rng
new seed = record { state = bit_xor seed 0x9E37_79B9_7F4A_7C15 }

-- `x << k` and `x >> k` on u64
abbrev shl : ℕ → ℕ → ℕ
shl x k = x * 2 ^ k % 2 ^ 64

abbrev shr : ℕ → ℕ → ℕ
shr x k = x / 2 ^ k

unfoldable pub next_u64 : Rng → ℕ × Rng
next_u64 r =
    let x = bit_xor r.state (shl r.state 13) in
    let y = bit_xor x (shr x 7) in let z = bit_xor y (shl y 17) in (z, record { state = z })

unfoldable pub below : Rng → ℕ → ℕ × Rng
unfolding next_u64
below r n = let (x, r') = next_u64 r in if n == 0 then (0, r) else (x % n, r')

unfoldable pub pct : Rng → ℕ → Bool × Rng
unfolding below
pct r percent = let (x, r') = below r 100 in (ltb x percent, r')

pub below-le : (r : Rng) (n : ℕ) → (below r n).0 ≤ n
unfolding below
below-le r n = ground arith
