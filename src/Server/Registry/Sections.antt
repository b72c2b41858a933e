-- ===== src/Server/Registry/Sections.antt =====
-- The methods of the registry (registry.rs) as they run in several threads: their critical sections
-- in any order that the locks allow. A section that has to wait for a lock changes nothing.
use lock_dis.Prelude.{
  ℕ, suc, ◌-◌, Option, none, some, List, [], ◌∷◌, String, if◌then◌else◌, ltb, same,
}
use lock_dis.Server.Registry.{HeldRegistry, new, early_answer, enter, remove_holder, uncount}

-- The registry, the call of `try_acquire` that is under way and holds the lock on the holders, and
-- for each principal the calls of `release` that have removed a key of it and not yet counted it
-- down.
pub record Shared : Type 0 where
  pub reg : HeldRegistry
  pub admitted : Option (String × String)
  pub leaving : String → ℕ

abbrev pub fresh : Shared
fresh = record { reg = new; admitted = none; leaving = λ _. 0 }

abbrev pub set_leaving : (String → ℕ) → String → ℕ → String → ℕ
set_leaving leaving p n q = if same p q then n else leaving q

-- The two sections of `try_acquire`, and the two of `release`. The second of `try_acquire` sets a
-- holder and then counts it: one step, since the lock on the holders is let go only afterwards.
pub data Section : Type 0 where
  ask : (key principal : String) → Section
  grant : Section
  remove : (key : String) → Section
  settle : (owner : String) → Section

-- A release ends here if the key had no holder.
abbrev pub after_remove : Shared → Option String × HeldRegistry → Shared
after_remove w (none, reg) = w
after_remove w (some owner, reg) = record w {
  reg = reg;
  leaving = set_leaving w.leaving owner (suc (w.leaving owner));
}

unfoldable pub section_step : (String → ℕ) → Shared → Section → Shared
unfolding early_answer remove_holder uncount
section_step max_keys w (Section.ask key principal) = elim w.admitted [
  | some _ ↦ w
  | none ↦ elim (early_answer w.reg key principal (max_keys principal)) [
    | some answer ↦ w
    | none ↦ record w { admitted = some (key, principal) }
  ]
]
section_step max_keys w Section.grant = elim w.admitted [
  | none ↦ w
  | some a ↦ record w { reg = enter w.reg a.0 a.1; admitted = none }
]
section_step max_keys w (Section.remove key) = elim w.admitted [
  | some _ ↦ w
  | none ↦ after_remove w (remove_holder w.reg key)
]
section_step max_keys w (Section.settle owner) =
    if ltb 0 (w.leaving owner)
    then record w {
      reg = (uncount w.reg owner).1;
      leaving = set_leaving w.leaving owner (w.leaving owner - 1);
    }
    else w

abbrev pub serve : (String → ℕ) → Shared → List Section → Shared
serve max_keys w [] = w
serve max_keys w (x ∷ rest) = serve max_keys (section_step max_keys w x) rest
