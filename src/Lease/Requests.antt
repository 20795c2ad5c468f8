-- ===== src/Lease/Requests.antt =====
-- CreateLeaseRequest and newLease of backend/internal/service/lease.go. A handler takes the
-- database and returns it with its result.
use server_cli.Common.{
  ℕ, ℤ, ltb_ℤ, nonpos, int64, scale, seconds, hours, add_time, String, str_eq, Bool, true, false,
  not, ◌&&◌, ◌||◌, if◌then◌else◌, Option, none, some, ltb, not_found, bad_request, disabled,
  constraint, Result, ok, err,
}
use server_cli.Lease.Model.{active, approved, LeaseRequest, Lease, LeaseDb, Principal, LeaseEnv}
use server_cli.Lease.Store.{
  request_by_idempotency, insert_request, insert_lease, lease_by_request_id, append_lease_event,
}
use server_cli.Lease.Keys.{validate_public_key, fingerprint, is_blank, trim_space}

pub record LeaseRequestInput : Type 0 where
  pub node_selector : String
  pub public_key : String
  pub permission_profile : String
  pub requested_duration_secs : ℤ
  pub purpose : String
  pub client_request_id : String
  pub ai_agent_id : String

pub record LeaseRequestResult : Type 0 where
  pub lease_request : LeaseRequest
  pub lease : Option Lease
  pub replayed : Bool

pub record SelectedNode : Type 0 where
  pub id : String
  pub enabled : Bool

-- What the service calls and that is not modelled: SHA-256 in hexadecimal digits, and
-- ResolveNodeSelector.
pub record LeaseExternal : Type 0 where
  pub sha256_hex : String → String
  pub resolve_node_selector : String → Result SelectedNode

abbrev pub is_profile : String → Bool
is_profile s = str_eq s "read-only" || str_eq s "operator" || str_eq s "admin"

-- The seconds asked for, bounded by the default number of minutes, which also replaces none.
unfoldable pub granted_seconds : ℤ → ℤ → ℤ
granted_seconds asked minutes =
    let most = int64 (scale 60 minutes) in if nonpos asked || ltb_ℤ most asked then most else asked

-- The earlier of an instant and a bound, where there is one.
abbrev pub at_most : ℕ → Option ℕ → ℕ
at_most t none = t
at_most t (some bound) = if ltb bound t then bound else t

abbrev pub lifetime_hours : LeaseEnv → ℤ
lifetime_hours env = if nonpos env.max_hours then env.config_max_hours else env.max_hours

unfoldable pub absolute_expiry : LeaseEnv → ℕ
absolute_expiry env = add_time env.now (hours (lifetime_hours env))

unfoldable pub first_expiry : LeaseEnv → ℤ → Option ℕ → ℕ
first_expiry env duration token_expiry =
    let asked = add_time env.now (seconds duration) in
    let capped = at_most asked (some (absolute_expiry env)) in
    let bounded = at_most capped token_expiry in if ltb bounded env.now then env.now else bounded

-- newLease. The renewal token is not modelled: it is stored but never compared.
abbrev pub new_lease : LeaseEnv → LeaseRequest → Option ℕ → Lease
new_lease env r token_expiry = record {
  id = env.new_id 1;
  request_id = r.id;
  access_token_id = r.access_token_id;
  node_id = r.node_id;
  ai_agent_id = r.ai_agent_id;
  permission_profile = r.requested_profile;
  public_key = r.public_key;
  public_key_fingerprint = r.public_key_fingerprint;
  issued_at = env.now;
  expires_at = first_expiry env r.requested_duration_seconds token_expiry;
  absolute_expires_at = absolute_expiry env;
  last_renewed_at = none;
  renew_count = 0;
  status = active;
  revoked_at = none;
  revoke_reason = "";
  renewal_disabled = false;
  active_session_count = 0;
  last_heartbeat_at = none;
  key_installed = false;
  key_installed_at = none;
  is_protected = false;
  protected_at = none;
}

-- issueLease.
unfoldable pub issue_lease :
    LeaseDb → LeaseEnv → LeaseRequest → Principal → LeaseDb × Result LeaseRequestResult
issue_lease db env r p =
    let l = new_lease env r p.expires_at in
    elim (insert_lease db env.now l) [
      | none ↦ (db, err constraint)
      | some db' ↦ (
        append_lease_event db' env.now l.id "issued" "ai" r.ai_agent_id,
        ok (record { lease_request = r; lease = some l; replayed = false }),
      )
    ]

-- resultForRequest.
unfoldable pub result_for_request : LeaseDb → LeaseRequest → LeaseRequestResult
result_for_request db r = record {
  lease_request = r;
  lease = elim r.status [ approved ↦ lease_by_request_id db r.id | _ ↦ none ];
  replayed = true;
}

-- CreateLeaseRequest from the INSERT on.
unfoldable pub approve_request :
    LeaseDb → LeaseEnv → LeaseRequest → Principal → LeaseDb × Result LeaseRequestResult
approve_request db env r p = elim (insert_request db r) [
  | none ↦ (db, err constraint)
  | some db' ↦ issue_lease db' env r p
]

-- The checks of the input that come before the node is looked up.
unfoldable pub is_well_formed : LeaseRequestInput → Bool
is_well_formed inp =
    not (str_eq inp.node_selector "")
    && not (str_eq inp.public_key "")
    && not (is_blank inp.purpose)
    && validate_public_key inp.public_key
    && is_profile inp.permission_profile

-- The answer to a repeated request: another token's is treated as not found.
abbrev pub replay : LeaseDb → LeaseRequest → Principal → LeaseDb × Result LeaseRequestResult
replay db r p =
    if str_eq r.access_token_id p.token_id
    then (db, ok (result_for_request db r))
    else (db, err not_found)

abbrev pub requests_closed : LeaseEnv → Bool
requests_closed env = not env.new_requests_enabled && str_eq env.access_scope "global"

module _ (ext : LeaseExternal) where
  abbrev pub new_request : LeaseEnv → LeaseRequestInput → Principal → SelectedNode → LeaseRequest
  new_request env inp p node = record {
    id = env.new_id 0;
    client_request_id = inp.client_request_id;
    environment_id = env.environment_id;
    access_token_id = p.token_id;
    ai_agent_id = inp.ai_agent_id;
    node_id = node.id;
    requested_profile = inp.permission_profile;
    requested_duration_seconds = granted_seconds inp.requested_duration_secs env.default_minutes;
    public_key = inp.public_key;
    public_key_fingerprint = fingerprint ext.sha256_hex inp.public_key;
    purpose = trim_space inp.purpose;
    status = approved;
    decision_reason = "auto-approved by access token";
    created_at = env.now;
    decided_at = some env.now;
  }

  -- CreateLeaseRequest once no earlier request answers this one.
  unfoldable pub create_new_request :
      LeaseDb → LeaseEnv → LeaseRequestInput → Principal → LeaseDb × Result LeaseRequestResult
  create_new_request db env inp p =
      if is_well_formed inp
      then elim (ext.resolve_node_selector inp.node_selector) [
        | err e ↦ (db, err e)
        | ok node ↦
            if node.enabled
            then approve_request db env (new_request env inp p node) p
            else (db, err disabled)
      ]
      else (db, err bad_request)

  -- CreateLeaseRequest.
  unfoldable pub create_lease_request :
      LeaseDb → LeaseEnv → LeaseRequestInput → Principal → LeaseDb × Result LeaseRequestResult
  create_lease_request db env inp p =
      if requests_closed env
      then (db, err disabled)
      else if str_eq inp.client_request_id ""
      then create_new_request db env inp p
      else elim (request_by_idempotency db env.environment_id inp.client_request_id) [
        | some r ↦ replay db r p
        | none ↦ create_new_request db env inp p
      ]
