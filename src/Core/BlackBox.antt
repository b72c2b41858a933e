-- ===== src/Core/BlackBox.antt =====
-- crates/core/src/blackbox.rs: the hash-chained recorder. A text is the list of its bytes; the lock
-- around the state makes each method one step.
pub mod Tape
pub mod Ring
use Prim.Native.Nat.{bit_xor}
use lock_dis.Prelude.{
  ℕ, zero, suc, ◌+◌, ◌*◌, ◌/◌, ◌%◌, ◌^◌, Bool, true, false, List, [], ◌∷◌, ◌++◌, if◌then◌else◌,
  ◌==◌, length, add64, Result, ok, err,
}

pub record Frame : Type 0 where
  pub seq : ℕ
  pub key : List ℕ
  pub op : List ℕ
  pub success : Bool
  pub fence : ℕ
  pub chain : ℕ

unfoldable pub mix : ℕ → ℕ → ℕ
mix h byte = (bit_xor h byte * 1099511628211) % 2 ^ 64

unfoldable pub mix_bytes : ℕ → List ℕ → ℕ
unfolding mix
mix_bytes h [] = h
mix_bytes h (b ∷ bs) = mix_bytes (mix h b) bs

-- The bytes of a word, the highest first.
abbrev pub big_endian : ℕ → List ℕ
big_endian n =
    n / 2 ^ 56 % 256
    ∷ n / 2 ^ 48 % 256
    ∷ n / 2 ^ 40 % 256
    ∷ n / 2 ^ 32 % 256
    ∷ n / 2 ^ 24 % 256
    ∷ n / 2 ^ 16 % 256
    ∷ n / 2 ^ 8 % 256
    ∷ n % 256
    ∷ []

unfoldable pub chain_of : ℕ → List ℕ → List ℕ → Bool → ℕ → ℕ
unfolding mix mix_bytes
chain_of prev key op success fence =
    let h₀ = bit_xor prev 14695981039346656037 in
    let h₁ = mix (mix_bytes h₀ key) 0 in
    let h₂ = mix (mix_bytes h₁ op) 0 in
    mix_bytes (mix h₂ (if success then 1 else 0)) (big_endian fence)

pub record State : Type 0 where
  pub buf : List Frame
  pub cap : ℕ
  pub last_chain : ℕ
  pub next_seq : ℕ

unfoldable pub with_capacity : ℕ → State
with_capacity cap = record { buf = []; cap = cap; last_chain = 0; next_seq = 0 }

abbrev pub pop_front : List Frame → List Frame
pop_front [] = []
pop_front (f ∷ fs) = fs

-- What a caller records.
pub record Entry : Type 0 where
  pub key : List ℕ
  pub op : List ℕ
  pub success : Bool
  pub fence : ℕ

abbrev pub frame_of : State → Entry → Frame
frame_of st e = record {
  seq = st.next_seq;
  key = e.key;
  op = e.op;
  success = e.success;
  fence = e.fence;
  chain = chain_of st.last_chain e.key e.op e.success e.fence;
}

unfoldable pub record_entry : State → Entry → State
record_entry st e =
    let f = frame_of st e in
    record st {
      buf = (if length st.buf == st.cap then pop_front st.buf else st.buf) ++ (f ∷ []);
      last_chain = f.chain;
      next_seq = add64 st.next_seq 1;
    }

unfoldable pub verify_from : ℕ → List Frame → Result ℕ (Unit {0})
verify_from prev [] = ok tt
verify_from prev (f ∷ fs) =
    let rest = verify_from f.chain fs in
    if chain_of prev f.key f.op f.success f.fence == f.chain then rest else err f.seq

-- `verify_chain`: the first frame retained is the anchor; the error is a frame's number.
unfoldable pub verify_chain : List Frame → Result ℕ (Unit {0})
unfolding verify_from
verify_chain [] = ok tt
verify_chain (first ∷ rest) = verify_from first.chain rest

abbrev pub record_all : State → List Entry → State
record_all st [] = st
record_all st (e ∷ es) = record_all (record_entry st e) es
