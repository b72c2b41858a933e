-- ===== src/Redis/RwLock/Runs.antt =====
-- Sequences of calls of the read-write lock's scripts.
use lock_dis.Prelude.{
  ℕ, suc, ◌+◌, ◌≤◌, ◌<◌, ◌^◌, ◌≡◌, ◌≢◌, refl, sym, ◌∙◌, inl, inr, false, Option, none, some, String,
  List, [], ◌∷◌, ltb, same, length, arith, Bool-cases,
}
use mathlib.Core.Bool.{false≢true}
use lock_dis.Redis.Server.{Redis}
use lock_dis.Redis.Mutex.Lease.{Leased, at}
use lock_dis.Redis.RwLock.Spec.{Mode, Op, RwState, member, without, remaining, promise, step}
use lock_dis.Redis.RwLock.Fields.{encode, Distinct, length-without}
use lock_dis.Redis.RwLock.Refines.{Sound, SoundNow, perform, Shows, perform-Agrees}
use lock_dis.Redis.Traces.{Call, Ordered, end, run, replies, run-follows}
use lock_dis.Redis.Slot as Slot

abbrev SoundMode : Option (Leased Mode) → ℕ → Type 0
SoundMode none n = Unit
SoundMode (some m) n = Sound m.value n

-- A state that the scripts may have made.
abbrev pub Fits : RwState → Type 0
Fits l = SoundMode l.mode l.grants

SoundMode-at : (now : ℕ) (o : Option (Leased Mode)) (n : ℕ) → SoundMode o n → SoundNow (at now o) n
SoundMode-at now none n c = tt
SoundMode-at now (some m) n c = elim (Bool-cases (ltb now m.deadline)) [
  | inl e ↦ rw e c
  | inr e ↦ rw e tt
]

member_of-without :
    (t token : String) (ts : List String)
    → member t ts ≡ false
    → member t (without token ts) ≡ false
member_of-without t token [] m = refl
member_of-without t token (x ∷ ts) m = elim (Bool-cases (same x t)) [
  | inl e ↦ absurd (false≢true (sym m ∙ rw e))
  | inr e ↦ elim (Bool-cases (same x token)) [
    | inl q ↦ rw q (rw e at m)
    | inr q ↦ rw (q, e) (member_of-without t token ts (rw e at m))
  ]
]

Distinct-without : (token : String) (ts : List String) → Distinct ts → Distinct (without token ts)
Distinct-without token [] d = tt
Distinct-without token (t ∷ ts) d = elim (Bool-cases (same t token)) [
  | inl e ↦ rw e d.1
  | inr e ↦ rw e (member_of-without t token ts d.0, Distinct-without token ts d.1)
]

abbrev Grows : RwState → RwState → Type 0
Grows l l' = Fits l' × (l'.grants ≤ suc l.grants)

remaining-Grows :
    (l : RwState) (d : ℕ) (ts : List String)
    → Sound (Mode.reading ts) l.grants
    → Grows l (remaining l d ts).0
remaining-Grows l d [] sound = (tt, omega arith)
remaining-Grows l d (t ∷ ts) sound = (sound, omega arith)

promise-Grows :
    (l : RwState) (now : ℕ) (o : Option Mode) (op : Op)
    → Fits l
    → SoundNow o l.grants
    → Grows l (promise l now o op).0
unfolding promise
promise-Grows l now none (Op.read_acquire token ttl fttl) f o =
    (((refl, tt), omega arith), omega arith)
promise-Grows l now none (Op.write_acquire token ttl fttl) f o = (tt, omega arith)
promise-Grows l now none (Op.read_release token ttl) f o = (f, omega arith)
promise-Grows l now none (Op.write_release token) f o = (f, omega arith)
promise-Grows l now none (Op.extend token ttl) f o = (f, omega arith)
promise-Grows l now (some (Mode.reading ts)) (Op.read_acquire token ttl fttl) f o =
    elim (Bool-cases (member token ts)) [
      | inl e ↦ rw e (f, omega arith)
      | inr e ↦ rw e (((e, o.0), omega (arith, o.1)), omega arith)
    ]
promise-Grows l now (some (Mode.reading ts)) (Op.write_acquire token ttl fttl) f o =
    (f, omega arith)
promise-Grows l now (some (Mode.reading ts)) (Op.read_release token ttl) f o =
    elim (Bool-cases (member token ts)) [
      | inl e ↦ rw e (
          remaining-Grows l (now + ttl) (without token ts)
            (Distinct-without token ts o.0, omega (arith, o.1, length-without token ts e)))
      | inr e ↦ rw e (f, omega arith)
    ]
promise-Grows l now (some (Mode.reading ts)) (Op.write_release token) f o = (f, omega arith)
promise-Grows l now (some (Mode.reading ts)) (Op.extend token ttl) f o = (o, omega arith)
promise-Grows l now (some (Mode.writing t)) (Op.read_acquire token ttl fttl) f o = (f, omega arith)
promise-Grows l now (some (Mode.writing t)) (Op.write_acquire token ttl fttl) f o =
    elim (Bool-cases (same t token)) [
      | inl e ↦ rw e (tt, omega arith)
      | inr e ↦ rw e (f, omega arith)
    ]
promise-Grows l now (some (Mode.writing t)) (Op.read_release token ttl) f o = (f, omega arith)
promise-Grows l now (some (Mode.writing t)) (Op.write_release token) f o =
    elim (Bool-cases (same t token)) [
      | inl e ↦ rw e (tt, omega arith)
      | inr e ↦ rw e (f, omega arith)
    ]
promise-Grows l now (some (Mode.writing t)) (Op.extend token ttl) f o =
    elim (Bool-cases (same t token)) [
      | inl e ↦ rw e (tt, omega arith)
      | inr e ↦ rw e (f, omega arith)
    ]

pub step-Grows : (l : RwState) (now : ℕ) (op : Op) → Fits l → Grows l (step l now op).0
unfolding step
step-Grows l now op f =
    promise-Grows l now (at now l.mode) op f (SoundMode-at now l.mode l.grants f)

module _ (r : Redis) (key fence_key : String) (ne : key ≢ fence_key) where
  -- However the clients' calls of the five scripts interleave, each gets the answer that the promise
  -- gives, and the keys show its state at the end: from a state that the scripts may have made, as
  -- long as fewer than 2 ^ 63 grants are made.
  pub run-keeps_mode :
      (s : r.Store) (t : ℕ) (l : RwState) (cs : List (Call Op))
      → Shows r key fence_key ne s t l
      → Fits l
      → Ordered t cs
      → l.grants + length cs < 2 ^ 63
      → (replies (perform r key fence_key ne) s cs ≡ replies step l cs)
        × Shows r key fence_key ne
            (run (perform r key fence_key ne) s cs)
            (end t cs)
            (run step l cs)
  run-keeps_mode s t l cs sh f o room =
      run-follows (perform r key fence_key ne) step (Shows r key fence_key ne) Fits (λ l. l.grants)
        (λ s t u l le sh. Slot.Shows_later encode r key fence_key ne s t u l.grants l.mode le sh)
        (λ s now l op sh f room.
          perform-Agrees r key fence_key ne s now l op sh (SoundMode-at now l.mode l.grants f) room)
        (λ l now op f. step-Grows l now op f) s t l cs sh f o room
