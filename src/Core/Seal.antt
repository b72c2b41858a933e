-- ===== src/Core/Seal.antt =====
-- crates/core/src/seal.rs: the seal of a grant. A secret and a key are lists of bytes; the clock of
-- the machine that verifies is an argument, in milliseconds.
pub mod Compare
pub mod Laws
use Prim.Native.Nat.{bit_or, bit_xor}
use lock_dis.Prelude.{
  ℕ, ◌-◌, ◌%◌, ◌^◌, Bool, true, false, List, [], ◌∷◌, ◌++◌, if◌then◌else◌, ltb, ◌==◌, length,
}
use lock_dis.Core.BlackBox.{mix_bytes, big_endian}

-- The bytes that are hashed: the secret, the key, the fence and the time of issue.
abbrev pub block_of : List ℕ → List ℕ → ℕ → ℕ → List ℕ
block_of secret key fence ts = secret ++ (key ++ (big_endian fence ++ big_endian ts))

-- `hmac`, whose loop is that of the recorder's `mix`
unfoldable pub hmac : List ℕ → List ℕ → ℕ → ℕ → List ℕ
unfolding mix_bytes
hmac secret key fence ts =
    big_endian (mix_bytes 14695981039346656037 (block_of secret key fence ts))

-- `diff |= x ^ y` over the pairs of bytes
unfoldable pub differences : ℕ → List ℕ → List ℕ → ℕ
differences diff [] ys = diff
differences diff (x ∷ xs) [] = diff
differences diff (x ∷ xs) (y ∷ ys) = differences (bit_or diff (bit_xor x y)) xs ys

unfoldable pub constant_time_eq : List ℕ → List ℕ → Bool
unfolding differences
constant_time_eq a b = if length a == length b then differences 0 a b == 0 else false

unfoldable pub seal : List ℕ → List ℕ → ℕ → List ℕ
unfolding hmac
seal secret key fence = hmac secret key fence 0

-- The bound on the age of a seal; 0 stands for none.
unfoldable pub too_old : ℕ → ℕ → ℕ → Bool
too_old now issued_at max_age = if ltb 0 max_age then ltb max_age (now - issued_at) else false

unfoldable pub verify : ℕ → List ℕ → List ℕ → ℕ → List ℕ → ℕ → ℕ → Bool
unfolding too_old hmac constant_time_eq
verify now secret key fence seal_bytes issued_at max_age =
    if too_old now issued_at max_age
    then false
    else constant_time_eq (hmac secret key fence issued_at) seal_bytes
