-- ===== src/Core/BlackBox/Ring.antt =====
-- The recorder as a ring: what it retains is the end of the tape of everything recorded.
use mathlib.Core.Bool.{false≢true}
use mathlib.Core.List.{append-nil}
use lock_dis.Prelude.{
  ℕ, zero, suc, ◌+◌, ◌-◌, ◌≤◌, ◌<◌, ◌≡◌, refl, ◌≢◌, sym, ap, ◌∙◌, inl, inr, List, [], ◌∷◌, ◌++◌,
  if◌then◌else◌, ◌==◌, ==_iff, length, length-append, arith, Bool-cases,
}
use lock_dis.Core.BlackBox.{
  Frame, Entry, State, with_capacity, pop_front, frame_of, record_entry, record_all,
}
use lock_dis.Core.BlackBox.Tape.{skip}

skip_past : (n : ℕ) → skip n [] ≡ []
skip_past zero = refl
skip_past (suc n) = refl

length-skip : (n : ℕ) (fs : List Frame) → length (skip n fs) ≡ length fs - n
length-skip zero fs = omega arith
length-skip (suc n) [] = omega arith
length-skip (suc n) (f ∷ fs) = omega (arith, length-skip n fs)

skip_append : (n : ℕ) (fs gs : List Frame) → n ≤ length fs → skip n (fs ++ gs) ≡ skip n fs ++ gs
skip_append zero fs gs le = refl
skip_append (suc n) [] gs le = absurd (omega arith)
skip_append (suc n) (f ∷ fs) gs le = skip_append n fs gs (omega arith)

pop_front-skip : (n : ℕ) (fs : List Frame) → pop_front (skip n fs) ≡ skip (suc n) fs
pop_front-skip zero [] = refl
pop_front-skip zero (f ∷ fs) = refl
pop_front-skip (suc n) [] = refl
pop_front-skip (suc n) (f ∷ fs) = pop_front-skip n fs

-- Everything ever recorded, in order.
abbrev pub tape : State → List Entry → List Frame
tape st [] = []
tape st (e ∷ es) = frame_of st e ∷ tape (record_entry st e) es

-- The buffer is the end of a tape, as long as the capacity allows.
abbrev Ends : ℕ → List Frame → List Frame → Type 0
Ends size whole buf = buf ≡ skip (length whole - size) whole

Ends-push :
    (size : ℕ) (whole buf : List Frame) (f : Frame)
    → 0 < size
    → Ends size whole buf
    → Ends size
        (whole ++ (f ∷ []))
        ((if length buf == size then pop_front buf else buf) ++ (f ∷ []))
Ends-push size whole buf f pos h = elim (Bool-cases (length buf == size)) [
  | inl q ↦
      let full : length buf ≡ size = (==_iff (length buf) size).0 q in
      let n : length (whole ++ (f ∷ [])) - size ≡ suc (length whole - size) = omega (
        arith,
        full,
        ap length h,
        length-skip (length whole - size) whole,
        length-append whole (f ∷ []),
      ) in
      rw (q, h, n, pop_front-skip (length whole - size) whole)
        (sym (
          skip_append (suc (length whole - size)) whole (f ∷ [])
            (omega (arith, full, ap length h, length-skip (length whole - size) whole))))
  | inr q ↦
      let room : length buf ≢ size =
        λ e. false≢true (sym (sym ((==_iff (length buf) size).1 e) ∙ q)) in
      let n : length (whole ++ (f ∷ [])) - size ≡ length whole - size = omega (
        arith,
        room,
        ap length h,
        length-skip (length whole - size) whole,
        length-append whole (f ∷ []),
      ) in
      rw (q, h, n) (sym (skip_append (length whole - size) whole (f ∷ []) (omega arith)))
]

Ends-record :
    (st : State) (whole : List Frame) (e : Entry)
    → 0 < st.cap
    → Ends st.cap whole st.buf
    → Ends st.cap (whole ++ (frame_of st e ∷ [])) (record_entry st e).buf
unfolding record_entry
Ends-record st whole e pos h = Ends-push st.cap whole st.buf (frame_of st e) pos h

cap_record : (st : State) (e : Entry) → (record_entry st e).cap ≡ st.cap
unfolding record_entry
cap_record st e = refl

append_next :
    (whole : List Frame) (f : Frame) (rest : List Frame)
    → (whole ++ (f ∷ [])) ++ rest ≡ whole ++ (f ∷ rest)
append_next [] f rest = refl
append_next (g ∷ gs) f rest = ap (λ t. g ∷ t) (append_next gs f rest)

Ends-all :
    (st : State) (whole : List Frame) (es : List Entry)
    → 0 < st.cap
    → Ends st.cap whole st.buf
    → Ends st.cap (whole ++ tape st es) (record_all st es).buf
unfolding record_entry
Ends-all st whole [] pos h = rw (append-nil whole) h
Ends-all st whole (e ∷ es) pos h =
    rw (← (append_next whole (frame_of st e) (tape (record_entry st e) es))) (
      Ends-all (record_entry st e) (whole ++ (frame_of st e ∷ [])) es pos
        (Ends-record st whole e pos h))

-- A recorder of capacity at least one retains the newest frames, as many as fit, in the order in
-- which they were recorded.
pub record_all-newest :
    (size : ℕ) (es : List Entry)
    → 0 < size
    → let whole = tape (with_capacity size) es in
      (record_all (with_capacity size) es).buf ≡ skip (length whole - size) whole
unfolding with_capacity
record_all-newest size es pos = Ends-all (with_capacity size) [] es pos (sym (skip_past (0 - size)))

push_grows :
    (fs : List Frame) (f : Frame)
    → length ((if length fs == 0 then pop_front fs else fs) ++ (f ∷ [])) ≡ suc (length fs)
push_grows [] f = refl
push_grows (g ∷ gs) f = ground (arith, length-append (g ∷ gs) (f ∷ []))

record_entry_unbounded :
    (st : State) (e : Entry) → st.cap ≡ 0 → length (record_entry st e).buf ≡ suc (length st.buf)
unfolding record_entry
record_entry_unbounded st e z = rw z (push_grows st.buf (frame_of st e))

length-record_all_unbounded :
    (st : State) (es : List Entry)
    → st.cap ≡ 0
    → length (record_all st es).buf ≡ length st.buf + length es
length-record_all_unbounded st [] z = omega arith
length-record_all_unbounded st (e ∷ es) z = omega (
  arith,
  record_entry_unbounded st e z,
  length-record_all_unbounded (record_entry st e) es (cap_record st e ∙ z),
)

-- A recorder of capacity 0 evicts nothing: it retains every frame.
pub record_all-unbounded :
    (es : List Entry) → length (record_all (with_capacity 0) es).buf ≡ length es
unfolding with_capacity
record_all-unbounded es = omega (arith, length-record_all_unbounded (with_capacity 0) es refl)
