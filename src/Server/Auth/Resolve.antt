-- ===== src/Server/Auth/Resolve.antt =====
-- Who the caller is (auth.rs): the access list, as it is read from its parsed document, and the
-- resolution of a request's headers. The values of the source's hash map come in no particular
-- order, here in the order of the document.
use text.Mathlib.Text.{starts_with}
use Prim.Native.String.{slice, len}
use lock_dis.Prelude.{
  Bool, true, false, Option, none, some, List, [], ◌∷◌, String, if◌then◌else◌, same, Result, ok,
  err,
}
use lock_dis.Server.Auth.{PrincipalConfig, Status}

pub data AuthMode : Type 0 where
  file trusted_header : AuthMode

abbrev pub Principals : Type 0
Principals = List (String × PrincipalConfig)

pub record Acl : Type 0 where
  pub open_access : Bool
  pub by_token : Principals
  pub mode : AuthMode

-- The error of a document: a principal without a token.
pub data AclError : Type 0 where
  empty_token : (name : String) → AclError

unfoldable pub anonymous : PrincipalConfig
anonymous = record {
  name = "anonymous";
  token = "";
  key_prefixes = "" ∷ [];
  can_lock = true;
  can_unlock = true;
  can_extend = true;
  can_watch = true;
  can_admin = true;
  max_keys = 0;
  max_watchers = 0;
}

-- `Acl::open`
unfoldable pub open_acl : Acl
open_acl = record { open_access = true; by_token = []; mode = AuthMode.file }

unfoldable pub with_mode : Acl → AuthMode → Acl
with_mode acl mode = record acl { mode = mode }

-- `HashMap::insert` and `HashMap::get`
unfoldable pub insert : String → PrincipalConfig → Principals → Principals
insert token cfg [] = (token, cfg) ∷ []
insert token cfg ((t, c) ∷ rest) =
    let others = insert token cfg rest in
    if same t token then (token, cfg) ∷ rest else (t, c) ∷ others

unfoldable pub find_token : Principals → String → Option PrincipalConfig
find_token [] token = none
find_token ((t, c) ∷ rest) token =
    let onward = find_token rest token in if same t token then some c else onward

unfoldable pub by_name : Principals → String → Option PrincipalConfig
by_name [] name = none
by_name ((t, c) ∷ rest) name =
    let onward = by_name rest name in if same c.name name then some c else onward

-- The loop of `Acl::from_json` over the principals that serde has read.
unfoldable pub load : Principals → List PrincipalConfig → Result AclError Acl
unfolding insert
load by_token [] = ok (record { open_access = false; by_token = by_token; mode = AuthMode.file })
load by_token (cfg ∷ cfgs) =
    let rest = load (insert cfg.token cfg by_token) cfgs in
    if same cfg.token "" then err (AclError.empty_token cfg.name) else rest

unfoldable pub from_principals : List PrincipalConfig → Result AclError Acl
unfolding load
from_principals cfgs = load [] cfgs

-- `str::strip_prefix`
abbrev pub strip_prefix : String → String → Option String
strip_prefix text pre =
    if starts_with text pre then some (slice text (len pre) (len text)) else none

abbrev pub and_strip : Option String → Option String
and_strip none = none
and_strip (some h) = strip_prefix h "Bearer "

abbrev pub or_unauthenticated : Option PrincipalConfig → Result Status PrincipalConfig
or_unauthenticated none = err Status.unauthenticated
or_unauthenticated (some p) = ok p

unfoldable pub resolve_with_header :
    Acl → (bearer principal_hdr : Option String) → Result Status PrincipalConfig
unfolding by_name anonymous find_token
resolve_with_header acl bearer principal_hdr = elim acl.mode [
  | AuthMode.trusted_header ↦ elim principal_hdr [
    | none ↦ err Status.unauthenticated
    | some name ↦ or_unauthenticated (by_name acl.by_token name)
  ]
  | AuthMode.file ↦ if acl.open_access then ok anonymous else elim (and_strip bearer) [
    | none ↦ err Status.unauthenticated
    | some token ↦ or_unauthenticated (find_token acl.by_token token)
  ]
]

unfoldable pub resolve : Acl → Option String → Result Status PrincipalConfig
unfolding resolve_with_header
resolve acl bearer = resolve_with_header acl bearer none
