-- ===== src/Server/Auth/Permission.antt =====
-- Which requests are let through.
use text.Mathlib.Text.{starts_with}
use text.Mathlib.TextBridge.{IsPrefix}
use text.Mathlib.TextEquality.{starts_with_iff}
use lock_dis.Prelude.{
  ◌≡◌, ◌≢◌, ◌⊎◌, ◌↔◌, inl, inr, List, [], ◌∷◌, String, Bool, true, ok, err, Result, arith,
  Bool-cases, outcome-cases, ◌∙◌, sym,
}
use lock_dis.Server.Auth.{
  PrincipalConfig, make_principal, Status, any_prefix, may, check_ceiling, check_lock, check_unlock,
  check_extend, check_admin,
}

-- Some prefix of the list is one of the key.
abbrev pub Covered : String → List String → Type 0
Covered key [] = ⊥
Covered key (p ∷ ps) = IsPrefix p key ⊎ Covered key ps

any_prefix-Covered : (key : String) (ps : List String) → any_prefix key ps ≡ true → Covered key ps
unfolding any_prefix
any_prefix-Covered key [] e = cc
any_prefix-Covered key (p ∷ ps) e = elim (Bool-cases (starts_with key p)) [
  | inl q ↦ inl ((starts_with_iff key p).0 q)
  | inr q ↦ inr (any_prefix-Covered key ps (rw q at e))
]

Covered-any_prefix : (key : String) (ps : List String) → Covered key ps → any_prefix key ps ≡ true
unfolding any_prefix
Covered-any_prefix key [] c = absurd c
Covered-any_prefix key (p ∷ ps) (inl h) = rw ((starts_with_iff key p).1 h)
Covered-any_prefix key (p ∷ ps) (inr h) = elim (Bool-cases (starts_with key p)) [
  | inl q ↦ rw q
  | inr q ↦ rw q (Covered-any_prefix key ps h)
]

may_granted :
    (cfg : PrincipalConfig) (key : String) (allowed : Bool)
    → may cfg key allowed ≡ ok tt
    → Covered key cfg.key_prefixes × (allowed ≡ true)
unfolding may
may_granted cfg key allowed e = elim (Bool-cases (any_prefix key cfg.key_prefixes)) [
  | inl q ↦ elim (Bool-cases allowed) [
    | inl a ↦ (any_prefix-Covered key cfg.key_prefixes q, a)
    | inr a ↦ absurd (refused (rw (q, a, may) at e))
  ]
  | inr q ↦ absurd (refused (rw (q, may) at e))
]
  where
    refused : {s : Status} → ◌≡◌ {A = Result Status (Unit {0})} (err s) (ok tt) → ⊥
    refused h = cc

may_permits :
    (cfg : PrincipalConfig) (key : String) (allowed : Bool)
    → Covered key cfg.key_prefixes
    → allowed ≡ true
    → may cfg key allowed ≡ ok tt
unfolding may
may_permits cfg key allowed c a = rw (Covered-any_prefix key cfg.key_prefixes c, a)

never_at_ceiling : (cfg : PrincipalConfig) → check_ceiling (make_principal cfg) ≡ ok tt
unfolding check_ceiling make_principal
never_at_ceiling cfg = ground arith

may-denies :
    (cfg : PrincipalConfig) (key : String) (allowed : Bool)
    → may cfg key allowed ≢ err Status.resource_exhausted
unfolding may
may-denies cfg key allowed e = elim (Bool-cases (any_prefix key cfg.key_prefixes)) [
  | inl q ↦ elim (Bool-cases allowed) [
    | inl a ↦ absurd (passed (rw (q, a, may) at e))
    | inr a ↦ absurd (denied (rw (q, a, may) at e))
  ]
  | inr q ↦ absurd (denied (rw (q, may) at e))
]
  where
    passed : ◌≡◌ {A = Result Status (Unit {0})} (ok tt) (err Status.resource_exhausted) → ⊥
    passed h = cc

    denied :
        ◌≡◌ {A = Result Status (Unit {0})}
          (err Status.permission_denied)
          (err Status.resource_exhausted)
        → ⊥
    denied h = cc

check_lock-may :
    (cfg : PrincipalConfig) (key : String)
    → check_lock (make_principal cfg) key ≡ may cfg key cfg.can_lock
unfolding check_lock make_principal
check_lock-may cfg key = elim (outcome-cases (may cfg key cfg.can_lock)) [
  | inl (x, e) ↦ rw e (never_at_ceiling cfg)
  | inr (s, e) ↦ rw e
]

-- A principal's request to lock a key is let through exactly when one of its prefixes is a prefix
-- of the key and it may lock; however low its ceiling, the check never refuses it for having reached
-- the ceiling, since the counter that it reads is the 0 that the principal was made with.
pub check_lock-permits :
    (cfg : PrincipalConfig) (key : String)
    → ((check_lock (make_principal cfg) key ≡ ok tt)
        ↔ (Covered key cfg.key_prefixes × (cfg.can_lock ≡ true)))
      × (check_lock (make_principal cfg) key ≢ err Status.resource_exhausted)
check_lock-permits cfg key =
    let same = check_lock-may cfg key in
    (
      (
        λ e. may_granted cfg key cfg.can_lock (sym same ∙ e),
        λ h. same ∙ may_permits cfg key cfg.can_lock h.0 h.1,
      ),
      λ e. may-denies cfg key cfg.can_lock (sym same ∙ e),
    )

may-permits :
    (cfg : PrincipalConfig) (key : String) (allowed : Bool)
    → (may cfg key allowed ≡ ok tt) ↔ (Covered key cfg.key_prefixes × (allowed ≡ true))
may-permits cfg key allowed =
    (may_granted cfg key allowed, λ h. may_permits cfg key allowed h.0 h.1)

-- A request to unlock, to extend or to administer a key is let through exactly when one of the
-- principal's prefixes is a prefix of the key and the principal has the permission in question.
pub check-permits :
    (cfg : PrincipalConfig) (key : String)
    → ((check_unlock cfg key ≡ ok tt) ↔ (Covered key cfg.key_prefixes × (cfg.can_unlock ≡ true)))
      × ((check_extend cfg key ≡ ok tt) ↔ (Covered key cfg.key_prefixes × (cfg.can_extend ≡ true)))
      × ((check_admin cfg key ≡ ok tt) ↔ (Covered key cfg.key_prefixes × (cfg.can_admin ≡ true)))
unfolding check_unlock check_extend check_admin
check-permits cfg key = (
  may-permits cfg key cfg.can_unlock,
  may-permits cfg key cfg.can_extend,
  may-permits cfg key cfg.can_admin,
)
