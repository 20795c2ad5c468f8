-- ===== src/Token/Service.antt =====
-- TokenService of backend/internal/service/apitoken.go, with its statements on tokens
-- (backend/internal/store/apitoken.go): tokens created, resolved, authorized and given permissions.
use text.Mathlib.Text.{starts_with}
use server_cli.Common.{
  ℕ, ◌+◌, ℤ, pos, String, str_eq, join, Bool, false, not, ◌&&◌, ◌||◌, if◌then◌else◌, Option, none,
  some, [], ◌∷◌, ◌++◌, find_row, update_rows, is_some, stamp_before, leb, ◌==◌, add_time, seconds,
  not_found, bad_request, conflict, forbidden, constraint, Result, ok, err, ◌>>=◌, ◌>>◌, guard,
  or_fail,
}
use server_cli.Lease.Model.{AccessToken, Principal, LeaseDb}
use server_cli.Token.Permissions.{
  PermissionSet, no_permissions, expand, authorizes, validate_permission_set,
}

-- What the service calls and that is not modelled: SHA-256, encoding/json on permission sets
-- (`none` where a text does not decode) and strings.TrimSpace; len counts bytes.
pub record TokenExternal : Type 0 where
  pub hash : String → String
  pub marshal : PermissionSet → String
  pub unmarshal : String → Option PermissionSet
  pub trim_space : String → String
  pub byte_length : String → ℕ

abbrev pub token_key : AccessToken → String
token_key t = t.id

unfoldable pub token_by_id : LeaseDb → String → Option AccessToken
token_by_id db id = find_row (λ t. str_eq (token_key t) id) db.tokens

unfoldable pub token_by_hash : LeaseDb → String → Option AccessToken
token_by_hash db h = find_row (λ (t : AccessToken). str_eq t.token_hash h) db.tokens

-- CreateAccessToken: the INSERT fails on a taken id or hash.
unfoldable pub insert_token : LeaseDb → AccessToken → Option LeaseDb
insert_token db t =
    if is_some (token_by_id db t.id) || is_some (token_by_hash db t.token_hash)
    then none
    else some (record db { tokens = db.tokens ++ t ∷ [] })

-- Is the time of an expiry reached?
abbrev pub is_past : ℕ → Option ℕ → Bool
is_past now none = false
is_past now (some e) = leb e now

-- The WHERE clause of UpdateAccessTokenPermissions.
-- The same, of the texts that are stored.
abbrev pub is_past_stored : ℕ → Option ℕ → Bool
is_past_stored now none = false
is_past_stored now (some e) = not (stamp_before now e)

abbrev pub at_revision : ℕ → String → ℕ → AccessToken → Bool
at_revision now id rev t =
    str_eq (token_key t) id
    && t.permission_version == rev
    && not (is_some t.revoked_at)
    && not (is_past_stored now t.expires_at)

abbrev pub with_permissions : String → AccessToken → AccessToken
with_permissions raw t = record t {
  permissions_json = raw;
  permission_version = t.permission_version + 1;
}

-- UpdateAccessTokenPermissions: the tokens after it, and whether a row was changed.
unfoldable pub update_token_permissions : LeaseDb → ℕ → String → ℕ → String → LeaseDb × Bool
update_token_permissions db now id rev raw = (
  record db { tokens = update_rows (at_revision now id rev) (with_permissions raw) db.tokens },
  is_some (find_row (at_revision now id rev) db.tokens),
)

-- tokenTTLDuration, in seconds; `some none` never expires, and `none` is no lifetime.
unfoldable pub lifetime : String → Option (Option ℤ)
lifetime ttl =
    if str_eq ttl "15m"
    then some (some (pos 900))
    else if str_eq ttl "1h"
    then some (some (pos 3600))
    else if str_eq ttl "6h"
    then some (some (pos 21_600))
    else if str_eq ttl "1d"
    then some (some (pos 86_400))
    else if str_eq ttl "1w"
    then some (some (pos 604_800))
    else if str_eq ttl "never"
    then some none
    else none

abbrev pub expiry_after : ℕ → Option ℤ → Option ℕ
expiry_after now none = none
expiry_after now (some s) = some (add_time now (seconds s))

-- defaultPermissionsJSON.
abbrev pub default_permissions_json : String
default_permissions_json = "{\"version\":1,\"grants\":[]}"

-- What Resolve answers: no token, a token that is revoked or expired, or the principal.
pub data Resolved : Type 0 where
  unknown_token : Resolved
  revoked_token expired_token : AccessToken → Resolved
  valid_token : Principal → AccessToken → Resolved

-- Authorize.
unfoldable pub authorize : Principal → String → String → Result (Unit {0})
authorize p r a = guard (authorizes p.permissions.grants r a) forbidden

module _ (ext : TokenExternal) where
  -- parsePermissions; `none` is its error.
  unfoldable pub parse_permissions : String → Option PermissionSet
  parse_permissions raw =
      if str_eq (ext.trim_space raw) ""
      then some no_permissions
      else elim (ext.unmarshal raw) [ none ↦ none | some p ↦ expand p ]

  -- The permissions of a row; a text that does not parse grants nothing.
  unfoldable pub permissions_of : AccessToken → PermissionSet
  permissions_of t = elim (parse_permissions t.permissions_json) [
    | none ↦ no_permissions
    | some p ↦ p
  ]

  abbrev pub principal_of : AccessToken → Principal
  principal_of t = record {
    token_id = t.id;
    name = t.name;
    expires_at = t.expires_at;
    permissions = permissions_of t;
  }

  unfoldable pub judge_token : ℕ → AccessToken → Resolved
  judge_token now t =
      if is_some t.revoked_at
      then revoked_token t
      else if is_past now t.expires_at
      then expired_token t
      else valid_token (principal_of t) t

  -- Resolve.
  unfoldable pub resolve : LeaseDb → ℕ → String → Resolved
  resolve db now plaintext =
      if not (starts_with plaintext "sct_")
      then unknown_token
      else elim (token_by_hash db (ext.hash plaintext)) [
        | none ↦ unknown_token
        | some t ↦ judge_token now t
      ]

  abbrev pub new_token : ℕ → String → String → String → Option ℤ → AccessToken
  new_token now id name plaintext ttl = record {
    id = id;
    name = name;
    token_hash = ext.hash plaintext;
    permission_version = 1;
    permissions_json = default_permissions_json;
    expires_at = expiry_after now ttl;
    revoked_at = none;
    revoked_by = "";
  }

  -- The row that Create inserts; `random` is the text of the random bytes drawn.
  unfoldable pub plan_token : ℕ → String → String → String → String → Result (AccessToken × String)
  plan_token now id random name ttl = do
    guard (not (str_eq (ext.trim_space name) "")) bad_request
    guard (leb (ext.byte_length (ext.trim_space name)) 100) bad_request
    life ← or_fail (lifetime ttl) bad_request
    ok (
      new_token now id (ext.trim_space name) (join ("sct_" ∷ random ∷ [])) life,
      join ("sct_" ∷ random ∷ []),
    )

  -- Create: the token with its plaintext.
  unfoldable pub create_token :
      LeaseDb → ℕ → String → String → String → String → LeaseDb × Result (AccessToken × String)
  create_token db now id random name ttl = elim (plan_token now id random name ttl) [
    | err e ↦ (db, err e)
    | ok (t, plaintext) ↦ elim (insert_token db t) [
      | none ↦ (db, err constraint)
      | some db' ↦ (db', ok (t, plaintext))
    ]
  ]

  -- What UpdatePermissions does once its checks are passed. Revisions are natural numbers, since a
  -- negative one that is expected matches no row.
  unfoldable pub store_permissions :
      LeaseDb → ℕ → String → ℕ → PermissionSet → LeaseDb × Result AccessToken
  store_permissions db now id rev perms =
      let (db', updated) = update_token_permissions db now id rev (ext.marshal perms) in
      if not updated then (db', err conflict) else (db', or_fail (token_by_id db' id) constraint)

  unfoldable pub update_found :
      LeaseDb → ℕ → String → ℕ → PermissionSet → AccessToken → LeaseDb × Result AccessToken
  update_found db now id rev perms t =
      if is_some t.revoked_at || is_past now t.expires_at
      then (db, err conflict)
      else elim (validate_permission_set perms) [
        | err e ↦ (db, err e)
        | ok done ↦ store_permissions db now id rev perms
      ]

  -- UpdatePermissions.
  unfoldable pub update_permissions :
      LeaseDb → ℕ → String → ℕ → PermissionSet → LeaseDb × Result AccessToken
  update_permissions db now id rev perms = elim (token_by_id db id) [
    | none ↦ (db, err not_found)
    | some t ↦ update_found db now id rev perms t
  ]
