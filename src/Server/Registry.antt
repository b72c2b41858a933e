-- ===== src/Server/Registry.antt =====
-- crates/server/src/registry.rs: which principal holds which key, and how many keys each holds. Each
-- of the two maps has a lock of its own, and the methods are written by their critical sections:
-- `try_acquire` and `release` are these in a row, and Sections lets other calls run in between. The
-- map of holders is a list of pairs.
pub mod Sections
pub mod Quota
use lock_dis.Prelude.{
  ℕ, zero, suc, ◌+◌, ◌-◌, Bool, true, false, ◌&&◌, Option, none, some, List, [], ◌∷◌, String,
  if◌then◌else◌, ltb, leb, same,
}

-- The number counted, where a missing entry counts 0.
abbrev pub counted : Option ℕ → ℕ
counted none = 0
counted (some n) = n

pub record HeldRegistry : Type 0 where
  pub holders : List (String × String)
  pub counts : String → Option ℕ

abbrev pub new : HeldRegistry
new = record { holders = []; counts = λ _. none }

unfoldable pub holder_of : String → List (String × String) → Option String
holder_of key [] = none
holder_of key ((k, p) ∷ rest) =
    let later = holder_of key rest in if same k key then some p else later

unfoldable pub without : String → List (String × String) → List (String × String)
without key [] = []
without key ((k, p) ∷ rest) =
    let later = without key rest in if same k key then rest else (k, p) ∷ later

abbrev pub recount : (String → Option ℕ) → String → ℕ → String → Option ℕ
recount counts p n q = if same p q then some n else counts q

unfoldable pub at_ceiling : HeldRegistry → String → ℕ → Bool
at_ceiling reg principal max_keys = ltb 0 max_keys && leb max_keys (counted (reg.counts principal))

-- The first section of `try_acquire`, with the lock on the counts inside that on the holders, and its
-- early returns: `false` when the principal is at its ceiling; a key that is tracked already is let
-- through.
unfoldable pub early_answer : HeldRegistry → String → String → ℕ → Option Bool
unfolding at_ceiling
early_answer reg key principal max_keys = elim (holder_of key reg.holders) [
  | some owner ↦ some true
  | none ↦ if at_ceiling reg principal max_keys then some false else none
]

-- The rest of it, still under the lock on the holders
abbrev pub enter : HeldRegistry → String → String → HeldRegistry
enter reg key principal = record {
  holders = (key, principal) ∷ reg.holders;
  counts = recount reg.counts principal (suc (counted (reg.counts principal)));
}

unfoldable pub try_acquire : HeldRegistry → String → String → ℕ → Bool × HeldRegistry
unfolding early_answer
try_acquire reg key principal max_keys = elim (early_answer reg key principal max_keys) [
  | some answer ↦ (answer, reg)
  | none ↦ (true, enter reg key principal)
]

-- The first section of `release`, under the lock on the holders
unfoldable pub remove_holder : HeldRegistry → String → Option String × HeldRegistry
unfolding holder_of without
remove_holder reg key = elim (holder_of key reg.holders) [
  | none ↦ (none, reg)
  | some owner ↦ (some owner, record reg { holders = without key reg.holders })
]

-- The second section, under the lock on the counts, after that on the holders was let go
unfoldable pub uncount : HeldRegistry → String → Option String × HeldRegistry
uncount reg owner = elim (reg.counts owner) [
  | none ↦ (none, reg)
  | some n ↦ (some owner, record reg { counts = recount reg.counts owner (n - 1) })
]

-- Frees the slot under a key and returns the principal that held it.
unfoldable pub release : HeldRegistry → String → Option String × HeldRegistry
unfolding remove_holder uncount
release reg key = elim (remove_holder reg key).0 [
  | none ↦ (none, (remove_holder reg key).1)
  | some owner ↦ uncount (remove_holder reg key).1 owner
]
