-- ===== src/Token/Permissions.antt =====
-- The permissions of access tokens (backend/internal/service/apitoken.go): the catalog, what a
-- stored text grants, and what may be stored.
use Prim.Native.Char.{code}
use server_cli.Common.{
  ℤ, pos, negsuc, String, str_eq, Bool, true, false, not, ◌&&◌, ◌||◌, if◌then◌else◌, Option, none,
  some, List, [], ◌∷◌, ◌==◌, bad_request, Result, ok, ◌>>=◌, ◌>>◌, guard,
}

-- Constraints are the members of the JSON object, names with the texts of their values.
pub record PermissionGrant : Type 0 where
  pub resource : String
  pub actions : List String
  pub constraints : List (String × String)

pub record PermissionSet : Type 0 where
  pub version : ℤ
  pub grants : List PermissionGrant

-- PermissionCatalog, its resources and actions.
abbrev pub catalog : List (String × String)
catalog =
    ("notifications", "send")
    ∷ ("nodes", "read")
    ∷ ("ai.lease_requests", "create")
    ∷ ("ai.lease_requests", "read")
    ∷ ("ai.leases", "renew")
    ∷ ("ai.leases", "heartbeat")
    ∷ ("ai.leases", "disconnect")
    ∷ ("deployments", "read")
    ∷ ("deployments", "configure")
    ∷ ("deployments", "install")
    ∷ ("deployments", "update")
    ∷ ("deployments", "backup")
    ∷ ("deployments", "rollback")
    ∷ ("deployment_secrets", "manage")
    ∷ ("bootstrap_sessions", "create")
    ∷ ("bootstrap_sessions", "read")
    ∷ ("bootstrap_sessions", "revoke")
    ∷ []

abbrev pub plain_grant : String → List String → PermissionGrant
plain_grant r actions = record { resource = r; actions = actions; constraints = [] }

-- legacyAICredentialGrants.
abbrev pub legacy_grants : List PermissionGrant
legacy_grants =
    plain_grant "nodes" ("read" ∷ [])
    ∷ plain_grant "ai.lease_requests" ("create" ∷ "read" ∷ [])
    ∷ plain_grant "ai.leases" ("renew" ∷ "heartbeat" ∷ "disconnect" ∷ [])
    ∷ []

abbrev pub no_permissions : PermissionSet
no_permissions = record { version = pos 1; grants = [] }

abbrev pub is_version_one : ℤ → Bool
is_version_one (pos n) = n == 1
is_version_one (negsuc n) = false

unfoldable pub has_action : String → List String → Bool
has_action a [] = false
has_action a (b ∷ bs) = str_eq b a || has_action a bs

-- wildcardIn.
unfoldable pub wildcard_in : List PermissionGrant → Bool
wildcard_in [] = false
wildcard_in (g ∷ gs) = str_eq g.resource "*" || has_action "*" g.actions || wildcard_in gs

abbrev pub is_sole_star : List String → Bool
is_sole_star (a ∷ []) = str_eq a "*"
is_sole_star _ = false

abbrev pub is_none : {A : Type 0} → List A → Bool
is_none [] = true
is_none (x ∷ xs) = false

-- isCanonicalWildcard.
abbrev pub is_canonical_wildcard : List PermissionGrant → Bool
is_canonical_wildcard (g ∷ []) =
    str_eq g.resource "*" && is_sole_star g.actions && is_none g.constraints
is_canonical_wildcard _ = false

-- What parsePermissions makes of a decoded set; `none` where it refuses it.
unfoldable pub expand : PermissionSet → Option PermissionSet
expand p =
    if not (is_version_one p.version)
    then none
    else if wildcard_in p.grants
    then if is_canonical_wildcard p.grants
      then some (record { version = pos 1; grants = legacy_grants })
      else none
    else some p

-- The loops of Authorize.
unfoldable pub authorizes : List PermissionGrant → String → String → Bool
authorizes [] r a = false
authorizes (g ∷ gs) r a = (str_eq g.resource r && has_action a g.actions) || authorizes gs r a

-- strings.Contains(s, "*").
unfoldable pub has_star : String → Bool
has_star String.[] = false
has_star (String.◌∷◌ c s) = code c == 42 || has_star s

abbrev pub is_wild : String → Bool
is_wild s = str_eq s "" || has_star s

-- Does the list hold the pair? The code's keys join the two by a zero byte. A pair counts as seen
-- only once it is found in the catalog, none of whose names has one.
unfoldable pub has_pair : String → String → List (String × String) → Bool
has_pair r a [] = false
has_pair r a ((s, b) ∷ ps) = (str_eq s r && str_eq b a) || has_pair r a ps

-- The loop over the actions of a grant, with the pairs seen so far.
unfoldable pub validate_actions :
    String → List String → List (String × String) → Result (List (String × String))
validate_actions r [] seen = ok seen
validate_actions r (a ∷ rest) seen = do
  guard (not (is_wild a)) bad_request
  guard (not (has_pair r a seen)) bad_request
  guard (has_pair r a catalog) bad_request
  validate_actions r rest ((r, a) ∷ seen)

unfoldable pub validate_grants :
    List PermissionGrant → List (String × String) → Result (List (String × String))
validate_grants [] seen = ok seen
validate_grants (g ∷ gs) seen = do
  guard (not (is_wild g.resource)) bad_request
  guard (not (is_none g.actions)) bad_request
  validate_actions g.resource g.actions seen >>= validate_grants gs

-- ValidatePermissionSet.
unfoldable pub validate_permission_set : PermissionSet → Result (Unit {0})
validate_permission_set p = do
  guard (is_version_one p.version) bad_request
  validate_grants p.grants [] >>= λ seen. ok tt
