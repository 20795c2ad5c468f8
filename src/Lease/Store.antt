-- ===== src/Lease/Store.antt =====
-- The statements of backend/internal/store/lease.go, and those on leases of store/apitoken.go.
use server_cli.Common.{
  ℕ, String, str_eq, Bool, true, false, ◌&&◌, ◌||◌, not, if◌then◌else◌, Option, none, some, List,
  [], ◌∷◌, ◌++◌, stamp_before, find_row, select_rows, update_rows, is_some, keyed,
}
use server_cli.Lease.Model.{
  active, expired, revoked, is_active, pending, rejected, LeaseRequest, Lease, SshSession,
  AccessToken, LeaseDb, write_lease,
}

abbrev pub lease_key : Lease → String
lease_key l = l.id

unfoldable pub lease_by_id : LeaseDb → String → Option Lease
lease_by_id db id = find_row (keyed lease_key id) db.leases

abbrev pub request_slot : String → String → LeaseRequest → Bool
request_slot environment client r =
    str_eq r.environment_id environment && str_eq r.client_request_id client

unfoldable pub request_by_id : LeaseDb → String → Option LeaseRequest
request_by_id db id = find_row (λ (r : LeaseRequest). str_eq r.id id) db.requests

unfoldable pub request_by_idempotency : LeaseDb → String → String → Option LeaseRequest
request_by_idempotency db environment client =
    find_row (request_slot environment client) db.requests

-- CreateLeaseRequest: the INSERT fails on a taken id or (environment_id, client_request_id).
unfoldable pub insert_request : LeaseDb → LeaseRequest → Option LeaseDb
insert_request db r =
    if is_some (request_by_id db r.id)
      || is_some (request_by_idempotency db r.environment_id r.client_request_id)
    then none
    else some (record db { requests = db.requests ++ r ∷ [] })

-- LeaseByRequestID: the latest by issued_at.
unfoldable pub latest_lease : String → List Lease → Option Lease
latest_lease request [] = none
latest_lease request (l ∷ ls) =
    let later = latest_lease request ls in
    if str_eq l.request_id request
    then elim later [
      | none ↦ some l
      | some m ↦ if stamp_before l.issued_at m.issued_at then some m else some l
    ]
    else later

unfoldable pub lease_by_request_id : LeaseDb → String → Option Lease
lease_by_request_id db request = latest_lease request db.leases

-- CreateLease: the INSERT fails on a taken id, or on a second lease of the request (the unique index
-- of backend/internal/db/migrations/0004_auto_approval_and_parameter_history.sql).
unfoldable pub insert_lease : LeaseDb → ℕ → Lease → Option LeaseDb
insert_lease db now l =
    if is_some (lease_by_id db l.id) || is_some (lease_by_request_id db l.request_id)
    then none
    else some
        (record db { leases = db.leases ++ record l { status = active; issued_at = now } ∷ [] })

unfoldable pub update_lease : LeaseDb → Lease → LeaseDb
update_lease db l = record db {
  leases = update_rows (keyed lease_key l.id) (write_lease l) db.leases;
}

abbrev pub active_with_id : String → Lease → Bool
active_with_id id l = keyed lease_key id l && is_active l.status

abbrev pub as_expired : Lease → Lease
as_expired l = record l { status = expired }

-- ExpireLease, and the test that it changed a row.
unfoldable pub expire_lease : LeaseDb → String → LeaseDb × Bool
expire_lease db id = (
  record db { leases = update_rows (active_with_id id) as_expired db.leases },
  is_some (find_row (active_with_id id) db.leases),
)

-- ListLeases with the status active, on one node or, for an empty name, on all. The rows stand in
-- the order of the table, where the query has the latest issued first.
unfoldable pub active_leases : LeaseDb → String → List Lease
active_leases db node =
    select_rows (λ (l : Lease). (str_eq node "" || str_eq l.node_id node) && is_active l.status)
      db.leases

-- ExpiredLeases.
unfoldable pub expired_leases : LeaseDb → ℕ → List Lease
expired_leases db before =
    select_rows (λ (l : Lease). is_active l.status && stamp_before l.expires_at before) db.leases

unfoldable pub append_lease_event : LeaseDb → ℕ → String → String → String → String → LeaseDb
append_lease_event db now lease_id event_type actor_type actor_id = record db {
  lease_events =
      db.lease_events
      ++ record {
        lease_id = lease_id;
        event_type = event_type;
        actor_type = actor_type;
        actor_id = actor_id;
        occurred_at = now;
      }
        ∷ [];
}

unfoldable pub create_ssh_session : LeaseDb → SshSession → LeaseDb
create_ssh_session db s = record db { sessions = db.sessions ++ s ∷ [] }

abbrev pub is_open : String → SshSession → Bool
is_open id s = str_eq s.id id && not (is_some s.ended_at)

-- EndSSHSession.
unfoldable pub end_ssh_session : LeaseDb → String → (SshSession → SshSession) → LeaseDb
end_ssh_session db id ended = record db { sessions = update_rows (is_open id) ended db.sessions }

abbrev pub unrevoked_token : String → AccessToken → Bool
unrevoked_token id t = str_eq t.id id && not (is_some t.revoked_at)

-- The lease is active and of this token, which is a stored one: its identifier is not empty, as a
-- lease without a token has it.
abbrev pub active_of_token : String → Lease → Bool
active_of_token token l = str_eq l.access_token_id token && is_active l.status

abbrev pub as_revoked : ℕ → String → Lease → Lease
as_revoked now reason l = record l {
  status = revoked;
  revoked_at = some now;
  revoke_reason = reason;
}

-- The loop of RevokeAccessTokenAndLeases over the rows that its SELECT read.
unfoldable pub revoke_rows : ℕ → String → List Lease → List Lease → List Lease
revoke_rows now reason [] rows = rows
revoke_rows now reason (l ∷ ls) rows =
    revoke_rows now reason ls (update_rows (active_with_id l.id) (as_revoked now reason) rows)

-- RevokeAccessTokenAndLeases.
unfoldable pub revoke_token_and_leases :
    LeaseDb → ℕ → String → String → String → LeaseDb × List Lease
revoke_token_and_leases db now token by reason =
    let affected = select_rows (active_of_token token) db.leases in
    (
      record db {
        tokens =
            update_rows (unrevoked_token token)
              (λ t. record t { revoked_at = some now; revoked_by = by }) db.tokens;
        leases = revoke_rows now reason affected db.leases;
      },
      affected,
    )

abbrev pub is_pending : LeaseRequest → Bool
is_pending r = elim r.status [ pending ↦ true | _ ↦ false ]

-- RejectLegacyPendingRequests.
unfoldable pub reject_pending_requests : LeaseDb → ℕ → String → LeaseDb
reject_pending_requests db now reason = record db {
  requests =
      update_rows is_pending
        (λ r. record r { status = rejected; decision_reason = reason; decided_at = some now })
        db.requests;
}

abbrev pub is_untokenized : Lease → Bool
is_untokenized l = is_active l.status && str_eq l.access_token_id ""

-- RevokeLegacyUntokenizedLeases.
unfoldable pub revoke_untokenized : LeaseDb → ℕ → String → LeaseDb
revoke_untokenized db now reason = record db {
  leases = update_rows is_untokenized (as_revoked now reason) db.leases;
}

abbrev pub is_overdue : ℕ → Lease → Bool
is_overdue now l =
    is_active l.status && not (str_eq l.access_token_id "") && not (stamp_before now l.expires_at)

-- ExpireLeasesBeforeAccessToken.
unfoldable pub expire_overdue : LeaseDb → ℕ → LeaseDb
expire_overdue db now = record db { leases = update_rows (is_overdue now) as_expired db.leases }
