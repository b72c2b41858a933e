-- ===== src/Core/BlackBox/Tape.antt =====
-- The recorder against the whole tape: what it retains, and that its own tape always verifies.
use lock_dis.Prelude.{
  ℕ, zero, suc, ◌≡◌, refl, ap, ◌∙◌, inl, inr, List, [], ◌∷◌, ◌++◌, ◌==◌, length, arith, Bool-cases,
  ok,
}
use lock_dis.Core.BlackBox.{
  Frame, Entry, State, chain_of, with_capacity, pop_front, frame_of, record_entry, verify_from,
  verify_chain, record_all,
}

-- The frames beyond the first `n`.
abbrev pub skip : ℕ → List Frame → List Frame
skip zero fs = fs
skip (suc n) [] = []
skip (suc n) (f ∷ fs) = skip n fs

-- The chain value after a tape that starts with `c`.
abbrev last_of : ℕ → List Frame → ℕ
last_of c [] = c
last_of c (f ∷ fs) = last_of f.chain fs

-- A buffer verifies, and its last frame carries the chain value that the state remembers.
abbrev Linked : ℕ → List Frame → Type 0
Linked c [] = Unit
Linked c (f ∷ fs) = (verify_from f.chain fs ≡ ok tt) × (last_of f.chain fs ≡ c)

verify_from_append :
    (prev : ℕ) (fs : List Frame) (f : Frame)
    → verify_from prev fs ≡ ok tt
    → chain_of (last_of prev fs) f.key f.op f.success f.fence ≡ f.chain
    → verify_from prev (fs ++ (f ∷ [])) ≡ ok tt
unfolding verify_from
verify_from_append prev [] f v e = ground arith
verify_from_append prev (g ∷ gs) f v e = ground (arith, verify_from_append g.chain gs f)

last_of_append : (c : ℕ) (fs : List Frame) (f : Frame) → last_of c (fs ++ (f ∷ [])) ≡ f.chain
last_of_append c [] f = refl
last_of_append c (g ∷ gs) f = last_of_append g.chain gs f

Linked-append :
    (c : ℕ) (fs : List Frame) (f : Frame)
    → Linked c fs
    → chain_of c f.key f.op f.success f.fence ≡ f.chain
    → Linked f.chain (fs ++ (f ∷ []))
unfolding verify_from
Linked-append c [] f h e = (refl, refl)
Linked-append c (g ∷ gs) f h e = (
  verify_from_append g.chain gs f h.0 (ap (λ x. chain_of x f.key f.op f.success f.fence) h.1 ∙ e),
  last_of_append g.chain gs f,
)

Linked-pop : (c : ℕ) (fs : List Frame) → Linked c fs → Linked c (pop_front fs)
unfolding verify_from
Linked-pop c [] h = tt
Linked-pop c (f ∷ []) h = tt
Linked-pop c (f ∷ (g ∷ gs)) h = ground arith

Linked-record :
    (st : State) (e : Entry)
    → Linked st.last_chain st.buf
    → Linked (record_entry st e).last_chain (record_entry st e).buf
unfolding record_entry
Linked-record st e h = elim (Bool-cases (length st.buf == st.cap)) [
  | inl q ↦ rw q (
      Linked-append st.last_chain (pop_front st.buf) (frame_of st e)
        (Linked-pop st.last_chain st.buf h) refl)
  | inr q ↦ rw q (Linked-append st.last_chain st.buf (frame_of st e) h refl)
]

Linked-all :
    (st : State) (es : List Entry)
    → Linked st.last_chain st.buf
    → Linked (record_all st es).last_chain (record_all st es).buf
Linked-all st [] h = h
Linked-all st (e ∷ es) h = Linked-all (record_entry st e) es (Linked-record st e h)

Linked-verifies : (c : ℕ) (fs : List Frame) → Linked c fs → verify_chain fs ≡ ok tt
unfolding verify_chain
Linked-verifies c [] h = refl
Linked-verifies c (f ∷ fs) h = h.0

-- Whatever is recorded, and however much of it has been evicted, the tape that is retained verifies.
pub record_all-verifies :
    (size : ℕ) (es : List Entry) → verify_chain (record_all (with_capacity size) es).buf ≡ ok tt
unfolding with_capacity
record_all-verifies size es = Linked-verifies _ _ (Linked-all (with_capacity size) es tt)
