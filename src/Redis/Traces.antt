-- ===== src/Redis/Traces.antt =====
-- Sequences of script calls by any number of clients on one lock, in the order of the server, beside
-- the promise that the calls keep one by one.
use lock_dis.Prelude.{ℕ, suc, ◌+◌, ◌≤◌, ◌<◌, ◌^◌, ◌≡◌, refl, List, [], ◌∷◌, arith, length}

-- One call and the server's time of it.
pub record Call (Op : Type 0) : Type 0 where
  pub now : ℕ
  pub op : Op

-- The calls run one after the other, none before `t`.
abbrev pub Ordered : {Op : Type 0} → ℕ → List (Call Op) → Type 0
Ordered t [] = Unit
Ordered t (c ∷ cs) = (t ≤ c.now) × Ordered c.now cs

-- The time of the last call.
abbrev pub end : {Op : Type 0} → ℕ → List (Call Op) → ℕ
end t [] = t
end t (c ∷ cs) = end c.now cs

-- The state and the answers after calls of `perform`.
module _ {S Op A : Type 0} (perform : S → ℕ → Op → S × A) where
  abbrev pub run : S → List (Call Op) → S
  run s [] = s
  run s (c ∷ cs) = run (perform s c.now c.op).0 cs

  abbrev pub replies : S → List (Call Op) → List A
  replies s [] = []
  replies s (c ∷ cs) = (perform s c.now c.op).1 ∷ replies (perform s c.now c.op).0 cs

module _ {S L Op A : Type 0} (perform : S → ℕ → Op → S × A) (step : L → ℕ → Op → L × A)
    (Shows : S → ℕ → L → Type 0) (Fits : L → Type 0) (grants : L → ℕ)
    (later : (s : S) (t u : ℕ) (l : L) → t ≤ u → Shows s t l → Shows s u l)
    (agrees : (s : S) (now : ℕ) (l : L) (op : Op)
      → Shows s now l
      → Fits l
      → suc (grants l) < 2 ^ 63
      → Shows (perform s now op).0 now (step l now op).0
        × ((perform s now op).1 ≡ (step l now op).1))
    (fits : (l : L) (now : ℕ) (op : Op)
      → Fits l
      → Fits (step l now op).0 × (grants (step l now op).0 ≤ suc (grants l))) where
  -- When each call agrees with the promise, every sequence of calls does.
  pub run-follows :
      (s : S) (t : ℕ) (l : L) (cs : List (Call Op))
      → Shows s t l
      → Fits l
      → Ordered t cs
      → grants l + length cs < 2 ^ 63
      → (replies perform s cs ≡ replies step l cs)
        × Shows (run perform s cs) (end t cs) (run step l cs)
  run-follows s t l [] sh f o room = (refl, sh)
  run-follows s t l (x ∷ cs) sh f o room =
      let (sh', same_answer) =
        agrees s x.now l x.op (later s t x.now l o.0 sh) f (omega (arith, room)) in
      let (f', few) = fits l x.now x.op f in
      let (rest, shows) =
        run-follows (perform s x.now x.op).0 x.now (step l x.now x.op).0 cs sh' f' o.1
          (omega (arith, few, room)) in
      (rw (same_answer, rest), shows)
