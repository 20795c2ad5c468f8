-- ===== src/Lease/Model.antt =====
-- The rows of SSH leases (backend/internal/model/models.go, backend/internal/store/lease.go), and
-- the database as the lists of them.
use server_cli.Token.Permissions.{PermissionSet}
use server_cli.Common.{ℕ, ℤ, String, Bool, true, false, Option, List}

pub data LeaseStatus : Type 0 where
  active disconnected expired revoked failed : LeaseStatus

abbrev pub is_active : LeaseStatus → Bool
is_active active = true
is_active _ = false

pub data RequestStatus : Type 0 where
  pending approved rejected failed cancelled : RequestStatus

-- The access token's id is empty where the column is NULL.
pub record LeaseRequest : Type 0 where
  pub id : String
  pub client_request_id : String
  pub environment_id : String
  pub access_token_id : String
  pub ai_agent_id : String
  pub node_id : String
  pub requested_profile : String
  pub requested_duration_seconds : ℤ
  pub public_key : String
  pub public_key_fingerprint : String
  pub purpose : String
  pub status : RequestStatus
  pub decision_reason : String
  pub created_at : ℕ
  pub decided_at : Option ℕ

pub record Lease : Type 0 where
  pub id : String
  pub request_id : String
  pub access_token_id : String
  pub node_id : String
  pub ai_agent_id : String
  pub permission_profile : String
  pub public_key : String
  pub public_key_fingerprint : String
  pub issued_at : ℕ
  pub expires_at : ℕ
  pub absolute_expires_at : ℕ
  pub last_renewed_at : Option ℕ
  pub renew_count : ℕ
  pub status : LeaseStatus
  pub revoked_at : Option ℕ
  pub revoke_reason : String
  pub renewal_disabled : Bool
  pub active_session_count : ℕ
  pub last_heartbeat_at : Option ℕ
  pub key_installed : Bool
  pub key_installed_at : Option ℕ
  pub is_protected : Bool
  pub protected_at : Option ℕ

-- The details of an event are omitted.
pub record LeaseEvent : Type 0 where
  pub lease_id : String
  pub event_type : String
  pub actor_type : String
  pub actor_id : String
  pub occurred_at : ℕ

pub record SshSession : Type 0 where
  pub id : String
  pub lease_id : String
  pub node_id : String
  pub remote_address : String
  pub connection_id : String
  pub os_pid : ℤ
  pub started_at : ℕ
  pub ended_at : Option ℕ
  pub end_reason : String
  pub exit_code : Option ℤ

pub record AccessToken : Type 0 where
  pub id : String
  pub name : String
  pub token_hash : String
  pub permission_version : ℕ
  pub permissions_json : String
  pub expires_at : Option ℕ
  pub revoked_at : Option ℕ
  pub revoked_by : String

-- A refused renewal as it is handed to the auditor for a row of audit_event, before the summary is
-- redacted; the actor is an AI client.
pub record LeaseDenial : Type 0 where
  pub actor_id : String
  pub node_id : String
  pub action : String
  pub lease_id : String
  pub summary : String

pub record LeaseDb : Type 0 where
  pub leases : List Lease
  pub requests : List LeaseRequest
  pub lease_events : List LeaseEvent
  pub sessions : List SshSession
  pub tokens : List AccessToken
  pub node_ids : List String
  pub denials : List LeaseDenial

-- TokenPrincipal, the access token that a request came with.
pub record Principal : Type 0 where
  pub token_id : String
  pub name : String
  pub expires_at : Option ℕ
  pub permissions : PermissionSet

-- What one call reads of its surroundings: the time, the identifiers that it draws, and the
-- values that the settings and the configuration give.
pub record LeaseEnv : Type 0 where
  pub now : ℕ
  pub new_id : ℕ → String
  pub environment_id : String
  pub new_requests_enabled : Bool
  pub renewals_enabled : Bool
  pub access_scope : String
  pub default_minutes : ℤ
  pub max_hours : ℤ
  pub config_max_hours : ℤ
  pub grace_seconds : ℤ

-- UpdateLease's columns.
abbrev pub write_lease : Lease → Lease → Lease
write_lease l r = record r {
  expires_at = l.expires_at;
  last_renewed_at = l.last_renewed_at;
  renew_count = l.renew_count;
  status = l.status;
  revoked_at = l.revoked_at;
  revoke_reason = l.revoke_reason;
  renewal_disabled = l.renewal_disabled;
  active_session_count = l.active_session_count;
  last_heartbeat_at = l.last_heartbeat_at;
  key_installed = l.key_installed;
  key_installed_at = l.key_installed_at;
  is_protected = l.is_protected;
  protected_at = l.protected_at;
}
