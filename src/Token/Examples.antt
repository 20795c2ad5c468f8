-- ===== src/Token/Examples.antt =====
-- A few tokens, on which the theorems about them are applied.
use server_cli.Common.{
  stamp_before, codes_before, after_seconds, fraction, ◌+◌, pos, str_eq, true, ◌≡◌, ◌≢◌, ◌⊎◌, ◌↔◌,
  refl, none, some, [], ◌∷◌, find_row, update_rows, Unique, Error, Result, ok, err,
}
use Prim.Native.String.{len}
use server_cli.Lease.Model.{AccessToken, Principal, LeaseDb, LeaseEnv}
use server_cli.Lease.Admin.{revoke_token_cascade}
use server_cli.Token.Permissions.{
  PermissionSet, plain_grant, has_action, wildcard_in, expand, has_star, has_pair, validate_actions,
  validate_grants, validate_permission_set,
}
use server_cli.Token.Service.{
  TokenExternal, token_key, token_by_id, token_by_hash, update_token_permissions, valid_token,
  parse_permissions, permissions_of, judge_token, resolve, store_permissions, update_found,
  update_permissions,
}
use server_cli.Token.Resolving.{revoked_token_refused}
use server_cli.Token.Gate.{GateDb, Handler, returned}
use server_cli.Token.Passing.{Passed, Refused, token_auth_cases}
use server_cli.Token.Granting.{update_takes_effect, stale_revision_refused}
use server_cli.Token.Storable.{Storable, validate_permission_set_exact}

abbrev wanted : PermissionSet
wanted = record {
  version = pos 1;
  grants = plain_grant "nodes" ("read" ∷ []) ∷ plain_grant "ai.leases" ("renew" ∷ []) ∷ [];
}

-- The one set that the texts of this example decode to.
abbrev texts : TokenExternal
texts = record {
  hash = λ s. s;
  marshal = λ p. "stored";
  unmarshal = λ s. some wanted;
  trim_space = λ s. s;
  byte_length = len;
}

abbrev stored : AccessToken
stored = record {
  id = "k1";
  name = "first";
  token_hash = "sct_1";
  permission_version = 1;
  permissions_json = "stored";
  expires_at = some 100;
  revoked_at = none;
  revoked_by = "";
}

abbrev updated : AccessToken
updated = record stored { permission_version = 2 }

abbrev tokens_db : LeaseDb
tokens_db = record {
  leases = [];
  requests = [];
  lease_events = [];
  sessions = [];
  tokens = stored ∷ record stored { id = "k2"; token_hash = "sct_2" } ∷ [];
  node_ids = [];
  denials = [];
}

abbrev holder : Principal
holder = record { token_id = "k1"; name = "first"; expires_at = some 100; permissions = wanted }

resolution : resolve texts tokens_db 50 "sct_1" ≡ valid_token holder stored
unfolding resolve token_by_hash find_row str_eq judge_token permissions_of parse_permissions expand
    wildcard_in has_action
resolution = refl

abbrev gate_db : GateDb
gate_db = record { leases = tokens_db; usage = []; audit = [] }

abbrev answers : Handler
answers leases p = (leases, returned 200)

token_auth_cases_example :
    Passed texts gate_db 50 "sct_1" "ai.leases" "renew" answers
    ⊎ Refused texts gate_db 50 "sct_1" "ai.leases" "renew" answers
token_auth_cases_example = token_auth_cases texts gate_db 50 "sct_1" "ai.leases" "renew" answers

abbrev at_sixty : LeaseEnv
at_sixty = record {
  now = 60;
  new_id = λ n. "id";
  environment_id = "prod";
  new_requests_enabled = true;
  renewals_enabled = true;
  access_scope = "global";
  default_minutes = pos 60;
  max_hours = pos 24;
  config_max_hours = pos 24;
  grace_seconds = pos 120;
}

revoked_token_refused_example :
    resolve texts (revoke_token_cascade tokens_db at_sixty "k1" "root" "leaked").0 70 "sct_1"
    ≢ valid_token holder stored
revoked_token_refused_example =
    revoked_token_refused texts tokens_db at_sixty "k1" "root" "leaked" 50 70 "sct_1" holder holder
      stored stored resolution refl

token_keys : Unique token_key tokens_db.tokens
unfolding find_row str_eq
token_keys = (refl, (refl, tt))

abbrev update : LeaseDb × Result AccessToken
update = update_permissions texts tokens_db 50 "k1" 1 wanted

update_ok : update ≡ (update.0, ok updated)
unfolding update_permissions token_by_id find_row str_eq update_found validate_permission_set
    validate_grants validate_actions has_star has_pair store_permissions update_token_permissions
    update_rows stamp_before codes_before after_seconds fraction
update_ok = refl

same_token : token_by_hash tokens_db "sct_1" ≡ token_by_id tokens_db "k1"
unfolding token_by_hash token_by_id find_row str_eq
same_token = refl

update_takes_effect_example :
    (p : Principal) × (resolve texts update.0 80 "sct_1" ≡ valid_token p updated)
    × (p.permissions ≡ wanted)
    × (updated.permission_version ≡ 1 + 1)
unfolding str_eq
update_takes_effect_example =
    update_takes_effect texts tokens_db update.0 50 "k1" 1 wanted updated 80 "sct_1" token_keys
      update_ok refl refl refl same_token refl

stale_revision_refused_example :
    ((update_permissions texts update.0 90 "k1" 1 wanted).0.tokens ≡ update.0.tokens)
    × (e : Error) × ((update_permissions texts update.0 90 "k1" 1 wanted).1 ≡ err e)
stale_revision_refused_example =
    stale_revision_refused texts tokens_db update.0 50 "k1" 1 wanted updated 90 wanted token_keys
      update_ok

validate_permission_set_exact_example : (validate_permission_set wanted ≡ ok tt) ↔ Storable wanted
validate_permission_set_exact_example = validate_permission_set_exact wanted
