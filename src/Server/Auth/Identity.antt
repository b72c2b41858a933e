-- ===== src/Server/Auth/Identity.antt =====
-- Callers are who their tokens say.
use text.Mathlib.TextPositions.{starts_with-append, slice-append_right, len-append}
use Prim.Native.String.{◌++◌}
use mathlib.Core.Bool.{false≢true}
use lock_dis.Prelude.{
  ◌≡◌, refl, sym, ap, ◌∙◌, inl, inr, Bool, true, false, Option, none, some, List, [], ◌∷◌, String,
  if◌then◌else◌, same, same_iff, same_refl, same_ne, Bool-cases, Result, ok, err,
}
use lock_dis.Server.Auth.{PrincipalConfig, Status}
use lock_dis.Server.Auth.Resolve.{
  Principals, Acl, AclError, AuthMode, insert, find_token, load, from_principals, strip_prefix,
  and_strip, or_unauthenticated, resolve_with_header, resolve,
}

-- `Authorization: Bearer <token>`
abbrev pub bearer : String → String
bearer token = "Bearer " ++ token

strip-bearer : (token : String) → strip_prefix (bearer token) "Bearer " ≡ some token
strip-bearer token = rw (
  starts_with-append "Bearer " token,
  len-append "Bearer " token,
  slice-append_right "Bearer " token,
)

find_token-insert :
    (tbl : Principals) (token t : String) (cfg : PrincipalConfig)
    → find_token (insert t cfg tbl) token
      ≡ (if same t token then some cfg else find_token tbl token)
unfolding find_token insert
find_token-insert [] token t cfg = refl
find_token-insert ((u, c) ∷ rest) token t cfg = elim (Bool-cases (same u t)) [
  | inl e ↦
      rw (e, (same_iff u t).0 e) (elim (Bool-cases (same t token)) [ inl q ↦ rw q | inr q ↦ rw q ])
  | inr e ↦ elim (Bool-cases (same u token)) [
    | inl q ↦ rw (e, q, other u t token e ((same_iff u token).0 q))
    | inr q ↦ rw (e, q) (find_token-insert rest token t cfg)
  ]
]
  where
    other : (u t token : String) → same u t ≡ false → u ≡ token → same t token ≡ false
    other u t token e q =
        same_ne t token (λ z. absurd (false≢true (sym e ∙ (rw (q ∙ sym z) (same_refl t)))))

-- The last principal of the document that has the token.
abbrev pub last_with : String → List PrincipalConfig → Option PrincipalConfig
last_with token [] = none
last_with token (c ∷ cs) =
    let later = last_with token cs in
    elim later [ none ↦ (if same c.token token then some c else none) | some d ↦ some d ]

abbrev or_in : Option PrincipalConfig → Option PrincipalConfig → Option PrincipalConfig
or_in none found = found
or_in (some d) found = some d

or_in-none : (o : Option PrincipalConfig) → or_in o none ≡ o
or_in-none none = refl
or_in-none (some d) = refl

find_token-load :
    (cfgs : List PrincipalConfig) (tbl : Principals) (acl : Acl) (token : String)
    → load tbl cfgs ≡ ok acl
    → (find_token acl.by_token token ≡ or_in (last_with token cfgs) (find_token tbl token))
      × (acl.open_access ≡ false)
      × (acl.mode ≡ AuthMode.file)
unfolding load
find_token-load [] tbl acl token h = rw (sym (unwrap h)) (refl, refl, refl)
  where
    unwrap : {x y : Acl} → ◌≡◌ {A = Result AclError Acl} (ok x) (ok y) → x ≡ y
    unwrap q = cc
find_token-load (c ∷ cs) tbl acl token h = elim (Bool-cases (same c.token "")) [
  | inl e ↦ absurd (never (rw e at h))
  | inr e ↦
      let (found, closed, from_file) =
        find_token-load cs (insert c.token c tbl) acl token (rw e at h) in
      (
        found
            ∙ ap (or_in (last_with token cs)) (find_token-insert tbl token c.token c)
            ∙ both (last_with token cs) (same c.token token) c (find_token tbl token),
        closed,
        from_file,
      )
]
  where
    never : {x : AclError} {y : Acl} → ◌≡◌ {A = Result AclError Acl} (err x) (ok y) → ⊥
    never q = cc

    both :
        (later : Option PrincipalConfig) (is : Bool) (c : PrincipalConfig)
        (found : Option PrincipalConfig)
        → or_in later (if is then some c else found)
          ≡ or_in (elim later [ none ↦ (if is then some c else none) | some d ↦ some d ]) found
    both none true c found = refl
    both none false c found = refl
    both (some d) is c found = refl

-- A caller with a bearer token is the last principal of the document that has the token, and no
-- other; a token that no principal has is refused, and so is every header that is no bearer token.
pub resolve-last_with :
    (cfgs : List PrincipalConfig) (acl : Acl) (token : String) (header : Option String)
    → from_principals cfgs ≡ ok acl
    → and_strip header ≡ none
    → (resolve acl (some (bearer token)) ≡ or_unauthenticated (last_with token cfgs))
      × (resolve acl header ≡ err Status.unauthenticated)
unfolding resolve resolve_with_header from_principals find_token
resolve-last_with cfgs acl token header h plain =
    let (found, closed, from_file) = find_token-load cfgs [] acl token h in
    let strip = strip-bearer token in
    rw (from_file, closed, strip, found, plain)
      (ap or_unauthenticated (or_in-none (last_with token cfgs)), refl)
