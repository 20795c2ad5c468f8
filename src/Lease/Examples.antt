-- ===== src/Lease/Examples.antt =====
-- A few leases, on which the theorems about leases are applied.
use Prim.Native.Nat.{zero, suc}
use server_cli.Token.Permissions.{no_permissions}
use server_cli.Common.{
  List, select_rows, update_rows, ℕ, ◌≤◌, second_of, pos, String, str_eq, str_eq_iff, ap, sym, ◌∙◌,
  some_inj, true, false, ◌≡◌, ◌≢◌, refl, none, some, [], ◌∷◌, All, find_row, arith, Unique, ok, err,
  not_found, seconds, int64,
}
use server_cli.Lease.Model.{active, is_active, Lease, LeaseRequest, LeaseDb, LeaseEnv, Principal}
use server_cli.Lease.Store.{
  update_lease, append_lease_event, active_leases, lease_key, lease_by_id, request_by_idempotency,
  insert_request, insert_lease, lease_by_request_id, latest_lease, request_by_id, active_of_token,
  as_revoked,
}
use server_cli.Lease.Keys.{validate_public_key, fields, fields_from, every, is_key_type, is_blank}
use server_cli.Lease.Requests.{
  LeaseRequestInput, LeaseRequestResult, LeaseExternal, create_lease_request, create_new_request,
  approve_request, issue_lease, result_for_request, is_well_formed, granted_seconds, new_request,
  new_lease,
}
use server_cli.Lease.Holder.{
  renew, heartbeat, disconnect, by_holder, auth_lease, carry_out, judge_renewal, next_expiry,
  writes, renewed,
}
use server_cli.Lease.Admin.{revoke_all, revoke_each, revoke, change_active, revoke_token_cascade}
use server_cli.Lease.Nodes.{
  AgentLeaseEventInput, agent_lease_event, expire_stale_leases, grace_cutoff,
}
use server_cli.Lease.Operations.{renews, revokes, sweeps_leases, lease_run}
use server_cli.Lease.Moves.{Moves}
use server_cli.Lease.History.{lease_run-Moves}
use server_cli.Lease.Renewal.{Renewal, renew_extends, denied_to_stranger, strangers_refused}
use server_cli.Lease.Races.{renewal_undoes_revocation}
use server_cli.Lease.Issue.{HasLifetime, LeaseOutcome, lease_outcome}
use server_cli.Lease.Replays.{lease_request_idempotent, unnamed_requests_collide}
use server_cli.Lease.Cascade.{cascade_exact}
use server_cli.Lease.Confined.{lease_reports_confined}
use server_cli.Lease.RevokeAll.{is_meant, revoke_all_ends}
use server_cli.Lease.Staleness.{is_stale_lease, is_lost, sweep_leaves_none_stale}

abbrev no_hash : LeaseExternal
no_hash = record {
  sha256_hex = λ s. "00";
  resolve_node_selector = λ s. ok (record { id = "n1"; enabled = true });
}

abbrev lease_of : String → String → ℕ → Lease
lease_of id token expires = record {
  id = id;
  request_id = id;
  access_token_id = token;
  node_id = "n1";
  ai_agent_id = "agent";
  permission_profile = "read-only";
  public_key = "ssh-ed25519 AAAAC3NzaC1lZDI1";
  public_key_fingerprint = "sha256:00";
  issued_at = 0;
  expires_at = expires;
  absolute_expires_at = 86_400_000_000_000;
  last_renewed_at = none;
  renew_count = 0;
  status = active;
  revoked_at = none;
  revoke_reason = "";
  renewal_disabled = false;
  active_session_count = 0;
  last_heartbeat_at = none;
  key_installed = true;
  key_installed_at = some 5;
  is_protected = false;
  protected_at = none;
}

abbrev leases_db : LeaseDb
leases_db = record {
  leases =
      lease_of "l1" "k1" 3_600_000_000_000
      ∷ lease_of "l2" "k2" 3_600_000_000_000
      ∷ lease_of "l3" "k1" 7
      ∷ [];
  requests = [];
  lease_events = [];
  sessions = [];
  tokens =
      record {
        id = "k1";
        name = "k1";
        token_hash = "";
        permission_version = 1;
        permissions_json = "";
        expires_at = none;
        revoked_at = none;
        revoked_by = "";
      }
      ∷ [];
  node_ids = "n1" ∷ [];
  denials = [];
}

abbrev at_minute : LeaseEnv
at_minute = record {
  now = 60_000_000_000;
  new_id = λ n. elim n [ zero ↦ "new-request" | suc m ↦ "new-lease" ];
  environment_id = "prod";
  new_requests_enabled = true;
  renewals_enabled = true;
  access_scope = "global";
  default_minutes = pos 60;
  max_hours = pos 24;
  config_max_hours = pos 24;
  grace_seconds = pos 120;
}

abbrev principal : String → Principal
principal token = record {
  token_id = token;
  name = token;
  expires_at = none;
  permissions = no_permissions;
}

lease_keys : Unique lease_key leases_db.leases
unfolding find_row str_eq
lease_keys = (refl, (refl, (refl, tt)))

l1_stands : lease_by_id leases_db "l1" ≡ some (lease_of "l1" "k1" 3_600_000_000_000)
unfolding lease_by_id find_row str_eq
l1_stands = refl

lease_run-Moves_example :
    (s : Lease) × (lease_by_id
        (lease_run no_hash leases_db (
          (at_minute, renews "l1" (principal "k1") (pos 600))
          ∷ (at_minute, sweeps_leases)
          ∷ (at_minute, revokes "l1" "admin" "done")
          ∷ []))
        "l1"
      ≡ some s)
    × Moves (lease_of "l1" "k1" 3_600_000_000_000) s
lease_run-Moves_example =
    lease_run-Moves no_hash leases_db
      ((at_minute, renews "l1" (principal "k1") (pos 600))
        ∷ (at_minute, sweeps_leases)
        ∷ (at_minute, revokes "l1" "admin" "done")
        ∷ [])
      "l1" (lease_of "l1" "k1" 3_600_000_000_000) lease_keys l1_stands

abbrev l1_renewed : Lease
l1_renewed = renewed at_minute 3_660_000_000_000 (lease_of "l1" "k1" 3_600_000_000_000)

l1_renewal : (renew leases_db at_minute "l1" (principal "k1") (pos 3600)).1 ≡ ok l1_renewed
unfolding renew by_holder auth_lease lease_by_id find_row str_eq carry_out judge_renewal next_expiry
    granted_seconds seconds int64
l1_renewal = refl

renew_extends_example :
    (l : Lease) × (lease_by_id leases_db "l1" ≡ some l)
    × Renewal at_minute (principal "k1") (pos 3600) l l1_renewed
    × (lease_by_id (renew leases_db at_minute "l1" (principal "k1") (pos 3600)).0 "l1"
        ≡ some l1_renewed)
renew_extends_example =
    renew_extends leases_db at_minute "l1" (principal "k1") (pos 3600) l1_renewed l1_renewal

k1_not_k2 : (principal "k1").token_id ≢ (principal "k2").token_id
unfolding str_eq
k1_not_k2 h =
    let differ : str_eq "k1" "k2" ≡ false = refl in
    ground (arith, differ, (str_eq_iff "k1" "k2").1 h)

l1_not_k2 : (l : Lease) → lease_by_id leases_db "l1" ≡ some l → l.access_token_id ≢ "k2"
l1_not_k2 l e h =
    k1_not_k2 (ap (λ (x : Lease). x.access_token_id) (some_inj (sym l1_stands ∙ e)) ∙ h)

strangers_refused_example :
    (renew leases_db at_minute "l1" (principal "k2") (pos 60)
      ≡ (denied_to_stranger leases_db "l1" (principal "k2"), err not_found))
    × (heartbeat leases_db at_minute "l1" (principal "k2") ≡ (leases_db, err not_found))
    × (disconnect leases_db at_minute "l1" (principal "k2") ≡ (leases_db, err not_found))
strangers_refused_example =
    strangers_refused leases_db at_minute "l1" (principal "k2") (pos 60) l1_not_k2

l1_judged :
    judge_renewal at_minute (lease_of "l1" "k1" 3_600_000_000_000) (principal "k1") (pos 3600)
    ≡ writes l1_renewed
unfolding judge_renewal next_expiry granted_seconds seconds int64 str_eq
l1_judged = refl

abbrev l1_revoked : Lease
l1_revoked = as_revoked 60_000_000_000 "lost" (lease_of "l1" "k1" 3_600_000_000_000)

l1_revocation : (revoke leases_db at_minute "l1" "admin" "lost").1 ≡ ok l1_revoked
unfolding revoke change_active lease_by_id find_row str_eq
l1_revocation = refl

renewal_undoes_revocation_example :
    let after = (revoke leases_db at_minute "l1" "admin" "lost").0 in
    let l = lease_of "l1" "k1" 3_600_000_000_000 in
    (lease_by_id after "l1" ≡ some l1_revoked)
    × (is_active l1_revoked.status ≡ false)
    × ((s : Lease) × (lease_by_id
            (carry_out after at_minute l "renew_denied" "renewed"
              (judge_renewal at_minute l (principal "k1") (pos 3600))).0
            "l1"
          ≡ some s)
        × (is_active s.status ≡ true)
        × (s.revoked_at ≡ none))
renewal_undoes_revocation_example =
    renewal_undoes_revocation leases_db at_minute at_minute "l1" "admin" "lost" (principal "k1")
      (pos 3600) (lease_of "l1" "k1" 3_600_000_000_000) l1_renewed l1_revoked l1_stands l1_judged
      l1_revocation

abbrev application : String → LeaseRequestInput
application client = record {
  node_selector = "n1";
  public_key = "ssh-ed25519 AAAAC3NzaC1lZDI1NTE5";
  permission_profile = "operator";
  requested_duration_secs = pos 600;
  purpose = "deploy";
  client_request_id = client;
  ai_agent_id = "agent";
}

abbrev approved_request : LeaseRequest
approved_request =
    new_request no_hash at_minute (application "c1") (principal "k2")
      (record { id = "n1"; enabled = true })

abbrev issued : LeaseRequestResult
issued = record {
  lease_request = approved_request;
  lease = some (new_lease at_minute approved_request none);
  replayed = false;
}

lifetime : HasLifetime at_minute
lifetime = (24, refl, ground arith, ground arith)

application_granted :
    (create_lease_request no_hash leases_db at_minute (application "c1") (principal "k2")).1
    ≡ ok issued
unfolding create_lease_request create_new_request approve_request issue_lease insert_request
    insert_lease lease_by_request_id latest_lease request_by_id request_by_idempotency lease_by_id
    find_row str_eq is_well_formed validate_public_key fields fields_from every is_key_type is_blank
application_granted = refl

lease_outcome_example :
    LeaseOutcome no_hash leases_db at_minute
      (application "c1")
      (principal "k2")
      (create_lease_request no_hash leases_db at_minute (application "c1") (principal "k2"))
lease_outcome_example =
    lease_outcome no_hash leases_db at_minute (application "c1") (principal "k2") lifetime

named : str_eq "c1" "" ≡ false
unfolding str_eq
named = refl

lease_request_idempotent_example :
    let after =
      (create_lease_request no_hash leases_db at_minute (application "c1") (principal "k2")).0 in
    ((principal "k1").token_id ≡ (principal "k2").token_id
      → create_lease_request no_hash after at_minute (application "c1") (principal "k1")
        ≡ (after, ok (result_for_request after approved_request)))
    × ((principal "k1").token_id ≢ (principal "k2").token_id
        → create_lease_request no_hash after at_minute (application "c1") (principal "k1")
          ≡ (after, err not_found))
lease_request_idempotent_example =
    lease_request_idempotent no_hash leases_db at_minute at_minute (application "c1")
      (application "c1") (principal "k2") (principal "k1") issued lifetime application_granted named
      refl refl refl

abbrev unnamed_db : LeaseDb
unnamed_db = record leases_db { requests = record approved_request { client_request_id = "" } ∷ [] }

unnamed_taken :
    request_by_idempotency unnamed_db "prod" ""
    ≡ some (record approved_request { client_request_id = "" })
unfolding request_by_idempotency find_row str_eq
unnamed_taken = refl

unnamed_requests_collide_example :
    (create_lease_request no_hash unnamed_db at_minute (application "") (principal "k2")).1
    ≢ ok issued
unnamed_requests_collide_example =
    unnamed_requests_collide no_hash unnamed_db at_minute (application "") (principal "k2")
      (record approved_request { client_request_id = "" }) issued refl unnamed_taken

cascade_exact_example :
    let after = (revoke_token_cascade leases_db at_minute "k1" "admin" "lost").0 in
    All (λ l. active_of_token "k1" l ≡ false) after.leases
    × ((id : String) (x : Lease)
        → lease_by_id leases_db id ≡ some x
        → x.access_token_id ≢ "k1"
        → lease_by_id after id ≡ some x)
    × ((revoke_token_cascade after at_minute "k1" "admin" "lost").1 ≡ [])
cascade_exact_example = cascade_exact leases_db at_minute at_minute "k1" "admin" "lost" lease_keys

sweep_leaves_none_stale_example :
    let after = (expire_stale_leases leases_db at_minute).0 in
    All (λ l. is_stale_lease 60_000_000_000 l ≡ false) after.leases
    × All (λ l. is_active l.status ≡ true → 60 ≤ second_of l.expires_at) after.leases
    × All (λ l. is_lost (grace_cutoff at_minute) l ≡ false) after.leases
sweep_leaves_none_stale_example = sweep_leaves_none_stale leases_db at_minute lease_keys

abbrev install_report : AgentLeaseEventInput
install_report = record {
  event_type = "install_failed";
  message = "no disk";
  session_id = "";
  remote_address = "";
  connection_id = "";
  os_pid = pos 0;
  exit_code = none;
}

n1_not_n2 : (lease_of "l1" "k1" 3_600_000_000_000).node_id ≢ "n2"
unfolding str_eq
n1_not_n2 h =
    let differ : str_eq "n1" "n2" ≡ false = refl in
    ground (arith, differ, (str_eq_iff "n1" "n2").1 h)

lease_reports_confined_example :
    lease_by_id (agent_lease_event leases_db at_minute "n2" "l1" install_report).0 "l1"
    ≡ some (lease_of "l1" "k1" 3_600_000_000_000)
lease_reports_confined_example =
    lease_reports_confined leases_db at_minute "n2" "l1" "l1" install_report
      (lease_of "l1" "k1" 3_600_000_000_000) l1_stands n1_not_n2

abbrev all_revoked : List Lease
all_revoked =
    as_revoked 60_000_000_000 "lost" (lease_of "l1" "k1" 3_600_000_000_000)
    ∷ as_revoked 60_000_000_000 "lost" (lease_of "l2" "k2" 3_600_000_000_000)
    ∷ as_revoked 60_000_000_000 "lost" (lease_of "l3" "k1" 7)
    ∷ []

all_revocation : (revoke_all leases_db at_minute "n1" "admin" "lost").1 ≡ ok all_revoked
unfolding revoke_all revoke_each active_leases revoke change_active lease_by_id find_row select_rows
    update_rows update_lease append_lease_event str_eq
all_revocation = refl

revoke_all_ends_example :
    All (λ x. is_meant "n1" x ≡ false) (revoke_all leases_db at_minute "n1" "admin" "lost").0.leases
revoke_all_ends_example =
    revoke_all_ends leases_db at_minute "n1" "admin" "lost" all_revoked lease_keys all_revocation
