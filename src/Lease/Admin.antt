-- ===== src/Lease/Admin.antt =====
-- What an administrator may do with leases: Revoke, RevokeAll, RevokeTokenCascade, DisableRenewal,
-- ProtectLease and MigrateLegacyApprovalFlow of backend/internal/service/lease.go.
use server_cli.Common.{
  String, str_eq, Bool, true, if◌then◌else◌, none, some, List, [], ◌∷◌, find_row, is_some,
  not_found, terminal, Result, ok, err,
}
use server_cli.Lease.Model.{is_active, Lease, LeaseDb, LeaseEnv}
use server_cli.Lease.Store.{
  lease_by_id, update_lease, append_lease_event, active_leases, as_revoked, revoke_token_and_leases,
  reject_pending_requests, revoke_untokenized, expire_overdue,
}

-- What Revoke and DisableRenewal write to an active lease.
unfoldable pub change_active :
    LeaseDb → LeaseEnv → String → String → String → (Lease → Lease) → LeaseDb × Result Lease
change_active db env id admin event change = elim (lease_by_id db id) [
  | none ↦ (db, err not_found)
  | some l ↦
      if is_active l.status
      then (
        append_lease_event (update_lease db (change l)) env.now l.id event "admin" admin,
        ok (change l),
      )
      else (db, err terminal)
]

-- Revoke.
unfoldable pub revoke : LeaseDb → LeaseEnv → String → String → String → LeaseDb × Result Lease
revoke db env id admin reason = change_active db env id admin "revoked" (as_revoked env.now reason)

abbrev pub without_renewal : Lease → Lease
without_renewal l = record l { renewal_disabled = true }

-- DisableRenewal.
unfoldable pub disable_renewal : LeaseDb → LeaseEnv → String → String → LeaseDb × Result Lease
disable_renewal db env id admin = change_active db env id admin "renewal_disabled" without_renewal

-- ProtectLease.
unfoldable pub protect_lease : LeaseDb → LeaseEnv → String → String → LeaseDb × Result Lease
protect_lease db env id admin = elim (lease_by_id db id) [
  | none ↦ (db, err not_found)
  | some l ↦
      let l' = record l { is_protected = true; protected_at = some env.now } in
      (append_lease_event (update_lease db l') env.now l.id "protected" "admin" admin, ok l')
]

-- The loop of RevokeAll: the leases that were revoked, in the order of the rows.
unfoldable pub revoke_each :
    LeaseDb → LeaseEnv → String → String → List Lease → LeaseDb × List Lease
revoke_each db env admin reason [] = (db, [])
revoke_each db env admin reason (l ∷ ls) =
    let (db', result) = revoke db env l.id admin reason in
    let (last, done) = revoke_each db' env admin reason ls in
    (last, elim result [ ok r ↦ r ∷ done | err e ↦ done ])

abbrev pub knows_node : LeaseDb → String → Bool
knows_node db node = is_some (find_row (λ id. str_eq id node) db.node_ids)

-- RevokeAll, on one node or, for an empty name, everywhere.
unfoldable pub revoke_all :
    LeaseDb → LeaseEnv → String → String → String → LeaseDb × Result (List Lease)
revoke_all db env node admin reason =
    let (db', done) = revoke_each db env admin reason (active_leases db node) in
    if str_eq node ""
    then (db', ok done)
    else if knows_node db node
    then (db', ok done)
    else (db, err not_found)

-- The loop of RevokeTokenCascade over the leases that the transaction revoked.
unfoldable pub log_revoked : LeaseDb → LeaseEnv → String → List Lease → LeaseDb
log_revoked db env admin [] = db
log_revoked db env admin (l ∷ ls) =
    log_revoked (append_lease_event db env.now l.id "revoked" "admin" admin) env admin ls

-- RevokeTokenCascade.
unfoldable pub revoke_token_cascade :
    LeaseDb → LeaseEnv → String → String → String → LeaseDb × List Lease
revoke_token_cascade db env token admin reason =
    let (db', affected) = revoke_token_and_leases db env.now token admin reason in
    (log_revoked db' env admin affected, affected)

-- MigrateLegacyApprovalFlow.
unfoldable pub migrate_legacy : LeaseDb → LeaseEnv → LeaseDb
migrate_legacy db env =
    expire_overdue
      (revoke_untokenized (reject_pending_requests db env.now "legacy manual approval flow retired")
        env.now "legacy lease without access token revoked after token migration")
      env.now
