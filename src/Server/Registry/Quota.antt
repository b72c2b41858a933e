-- ===== src/Server/Registry/Quota.antt =====
-- The counts of the registry (registry.rs) are the numbers of keys held, up to the releases that are
-- half done, and no principal exceeds its ceiling.
use lock_dis.Prelude.{
  ℕ, Bool, suc, ◌+◌, ◌-◌, ◌≤◌, ◌<◌, ◌≡◌, refl, subst, sym, ap, ◌∙◌, inl, inr, Option, none, some,
  List, [], ◌∷◌, String, if◌then◌else◌, same, same_iff, ltb, arith, Bool-cases, Option-cases,
}
use lock_dis.Server.Registry.{
  HeldRegistry, counted, holder_of, without, recount, at_ceiling, early_answer, enter,
  remove_holder, uncount,
}
use lock_dis.Server.Registry.Sections.{Shared, fresh, Section, set_leaving, section_step, serve}

-- How many keys a principal holds.
unfoldable pub held : String → List (String × String) → ℕ
held p [] = 0
held p ((k, q) ∷ rest) = let later = held p rest in if same q p then suc later else later

held-without :
    (key p owner : String) (hs : List (String × String))
    → holder_of key hs ≡ some owner
    → held p hs ≡ (if same owner p then suc (held p (without key hs)) else held p (without key hs))
unfolding held holder_of without
held-without key p owner [] e = ground arith
held-without key p owner ((k, q) ∷ rest) e = elim (Bool-cases (same k key)) [
  | inl m ↦ ground arith
  | inr m ↦ ground (arith, held-without key p owner rest)
]

held_cons :
    (p key q : String) (hs : List (String × String))
    → held p ((key, q) ∷ hs) ≡ (if same q p then suc (held p hs) else held p hs)
unfolding held
held_cons p key q hs = refl

-- One principal's numbers: the count is that of its keys and of its releases that are half done, and
-- no more than its ceiling.
abbrev pub Kept : (String → ℕ) → HeldRegistry → (String → ℕ) → String → Type 0
Kept max_keys reg leaving p =
    (counted (reg.counts p) ≡ held p reg.holders + leaving p)
    × (0 < max_keys p → counted (reg.counts p) ≤ max_keys p)

-- Who is let through has room.
abbrev pub Room : (String → ℕ) → HeldRegistry → Option (String × String) → Type 0
Room max_keys reg none = Unit
Room max_keys reg (some a) = 0 < max_keys a.1 → counted (reg.counts a.1) < max_keys a.1

abbrev pub Sound : (String → ℕ) → Shared → Type 0
Sound max_keys w = ((p : String) → Kept max_keys w.reg w.leaving p) × Room max_keys w.reg w.admitted

early_answer-room :
    (reg : HeldRegistry) (key principal : String) (max_keys : ℕ)
    → early_answer reg key principal max_keys ≡ none
    → 0 < max_keys
    → counted (reg.counts principal) < max_keys
unfolding early_answer at_ceiling
early_answer-room reg key principal max_keys e h = elim (Option-cases (holder_of key reg.holders)) [
  | inr (o, q) ↦ absurd (answered (rw (q, early_answer) at e))
  | inl q ↦ elim (Bool-cases (at_ceiling reg principal max_keys)) [
    | inl m ↦ absurd (answered (rw (q, m, early_answer) at e))
    | inr m ↦ ground arith
  ]
]
  where
    answered : {b : Bool} → some b ≡ none → ⊥
    answered h = cc

enter-Kept :
    (max_keys : String → ℕ) (reg : HeldRegistry) (leaving : String → ℕ) (key principal p : String)
    → Kept max_keys reg leaving p
    → (0 < max_keys principal → counted (reg.counts principal) < max_keys principal)
    → Kept max_keys (enter reg key principal) leaving p
enter-Kept max_keys reg leaving key principal p k room = elim (Bool-cases (same principal p)) [
  | inl m ↦
      let e : principal ≡ p = (same_iff principal p).0 m in
      let there : 0 < max_keys p → counted (reg.counts p) < max_keys p =
        subst (λ x. 0 < max_keys x → counted (reg.counts x) < max_keys x) e room in
      let n : counted (reg.counts principal) ≡ counted (reg.counts p) =
        ap (λ x. counted (reg.counts x)) e in
      rw (held_cons p key principal reg.holders, m)
        (omega (arith, n, k.0), λ h. omega (arith, n, there h))
  | inr m ↦ rw (held_cons p key principal reg.holders, m) k
]

removed-Kept :
    (max_keys : String → ℕ) (reg : HeldRegistry) (leaving : String → ℕ) (key owner p : String)
    → holder_of key reg.holders ≡ some owner
    → Kept max_keys reg leaving p
    → Kept max_keys
        (record reg { holders = without key reg.holders })
        (set_leaving leaving owner (suc (leaving owner)))
        p
removed-Kept max_keys reg leaving key owner p e k = elim (Bool-cases (same owner p)) [
  | inl m ↦
      let n : leaving owner ≡ leaving p = ap leaving ((same_iff owner p).0 m) in
      let h : held p reg.holders ≡ suc (held p (without key reg.holders)) =
        held-without key p owner reg.holders e ∙ rw m in
      rw m (omega (arith, n, h, k.0), k.1)
  | inr m ↦
      rw m (k.0 ∙ ap (λ x. x + leaving p) (held-without key p owner reg.holders e ∙ rw m), k.1)
]

settled-Kept :
    (max_keys : String → ℕ) (reg : HeldRegistry) (leaving : String → ℕ) (owner p : String) (n : ℕ)
    → reg.counts owner ≡ some n
    → 0 < leaving owner
    → Kept max_keys reg leaving p
    → Kept max_keys
        (record reg { counts = recount reg.counts owner (n - 1) })
        (set_leaving leaving owner (leaving owner - 1))
        p
settled-Kept max_keys reg leaving owner p n e pos k = elim (Bool-cases (same owner p)) [
  | inl m ↦
      let q : owner ≡ p = (same_iff owner p).0 m in
      let l : leaving owner ≡ leaving p = ap leaving q in
      let d : counted (reg.counts p) ≡ n =
        ap (λ x. counted (reg.counts x)) (sym q) ∙ ap counted e in
      rw m (omega (arith, l, d, k.0), λ h. omega (arith, d, k.1 h))
  | inr m ↦ rw m k
]

settled-Room :
    (max_keys : String → ℕ) (reg : HeldRegistry) (owner : String) (n : ℕ)
    (a : Option (String × String))
    → reg.counts owner ≡ some n
    → Room max_keys reg a
    → Room max_keys (record reg { counts = recount reg.counts owner (n - 1) }) a
settled-Room max_keys reg owner n none e room = tt
settled-Room max_keys reg owner n (some a) e room = elim (Bool-cases (same owner a.1)) [
  | inl m ↦
      let d : counted (reg.counts a.1) ≡ n =
        ap (λ x. counted (reg.counts x)) (sym ((same_iff owner a.1).0 m)) ∙ ap counted e in
      rw m (λ h. omega (arith, d, room h))
  | inr m ↦ rw m room
]

ask-Sound :
    (max_keys : String → ℕ) (w : Shared) (key principal : String)
    → Sound max_keys w
    → Sound max_keys (section_step max_keys w (Section.ask key principal))
unfolding section_step
ask-Sound max_keys w key principal s = elim (Option-cases w.admitted) [
  | inr (a, e) ↦ rw (e, section_step) s
  | inl e ↦ elim (Option-cases (early_answer w.reg key principal (max_keys principal))) [
    | inr (b, q) ↦ rw (e, q, section_step) s
    | inl q ↦
        rw (e, q, section_step)
          (s.0, λ h. early_answer-room w.reg key principal (max_keys principal) q h)
  ]
]

grant-Sound :
    (max_keys : String → ℕ) (w : Shared)
    → Sound max_keys w
    → Sound max_keys (section_step max_keys w Section.grant)
unfolding section_step
grant-Sound max_keys w s = elim (Option-cases w.admitted) [
  | inl e ↦ rw (e, section_step) s
  | inr (a, e) ↦
      rw (e, section_step)
        (
          λ p.
              enter-Kept max_keys w.reg w.leaving a.0 a.1 p (s.0 p)
                (subst (Room max_keys w.reg) e s.1),
          tt,
        )
]

remove_holder-free :
    (reg : HeldRegistry) (key : String)
    → holder_of key reg.holders ≡ none
    → remove_holder reg key ≡ (none, reg)
unfolding remove_holder
remove_holder-free reg key e = rw (remove_holder, e)

remove_holder-held :
    (reg : HeldRegistry) (key owner : String)
    → holder_of key reg.holders ≡ some owner
    → remove_holder reg key ≡ (some owner, record reg { holders = without key reg.holders })
unfolding remove_holder
remove_holder-held reg key owner e = rw (remove_holder, e)

remove-Sound :
    (max_keys : String → ℕ) (w : Shared) (key : String)
    → Sound max_keys w
    → Sound max_keys (section_step max_keys w (Section.remove key))
unfolding section_step
remove-Sound max_keys w key s = elim (Option-cases w.admitted) [
  | inr (a, e) ↦ rw (e, section_step) s
  | inl e ↦ elim (Option-cases (holder_of key w.reg.holders)) [
    | inl q ↦ rw (e, section_step, remove_holder-free w.reg key q) s
    | inr (owner, q) ↦
        rw (e, section_step, remove_holder-held w.reg key owner q)
          (
            λ p. removed-Kept max_keys w.reg w.leaving key owner p q (s.0 p),
            subst (Room max_keys (record w.reg { holders = without key w.reg.holders })) (sym e) tt,
          )
  ]
]

settle-Sound :
    (max_keys : String → ℕ) (w : Shared) (owner : String)
    → Sound max_keys w
    → Sound max_keys (section_step max_keys w (Section.settle owner))
unfolding section_step uncount
settle-Sound max_keys w owner s = elim (Bool-cases (ltb 0 (w.leaving owner))) [
  | inr m ↦ rw (section_step, m) s
  | inl m ↦ elim (Option-cases (w.reg.counts owner)) [
    | inl e ↦ absurd (ground (arith, ap counted e, (s.0 owner).0))
    | inr (n, e) ↦
        rw (section_step, m, uncount, e)
          (
            λ p. settled-Kept max_keys w.reg w.leaving owner p n e (ground arith) (s.0 p),
            settled-Room max_keys w.reg owner n w.admitted e s.1,
          )
  ]
]

section_step-Sound :
    (max_keys : String → ℕ) (w : Shared) (x : Section)
    → Sound max_keys w
    → Sound max_keys (section_step max_keys w x)
section_step-Sound max_keys w (Section.ask key principal) s = ask-Sound max_keys w key principal s
section_step-Sound max_keys w Section.grant s = grant-Sound max_keys w s
section_step-Sound max_keys w (Section.remove key) s = remove-Sound max_keys w key s
section_step-Sound max_keys w (Section.settle owner) s = settle-Sound max_keys w owner s

serve-Sound :
    (max_keys : String → ℕ) (w : Shared) (sections : List Section)
    → Sound max_keys w
    → Sound max_keys (serve max_keys w sections)
serve-Sound max_keys w [] s = s
serve-Sound max_keys w (x ∷ rest) s =
    serve-Sound max_keys (section_step max_keys w x) rest (section_step-Sound max_keys w x s)

-- However the critical sections of grants and releases interleave, the registry's count of every
-- principal is the number of keys that it holds and of its releases that are half done, and that is
-- at most its ceiling, where it has one.
pub serve-quota :
    (max_keys : String → ℕ) (sections : List Section)
    → let w = serve max_keys fresh sections in
      ((p : String) → counted (w.reg.counts p) ≡ held p w.reg.holders + w.leaving p)
      × ((p : String) → 0 < max_keys p → counted (w.reg.counts p) ≤ max_keys p)
unfolding held
serve-quota max_keys sections =
    let s = serve-Sound max_keys fresh sections (λ p. (refl, λ h. omega arith), tt) in
    (λ p. (s.0 p).0, λ p. (s.0 p).1)
