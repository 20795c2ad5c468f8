-- ===== src/Lease/History.antt =====
-- Every history of operations on leases.
use server_cli.Common.{◌≡◌, some, List, [], ◌∷◌, String, Unique}
use server_cli.Lease.Model.{Lease, LeaseDb, LeaseEnv}
use server_cli.Lease.Store.{lease_key, lease_by_id}
use server_cli.Lease.Requests.{LeaseExternal}
use server_cli.Lease.Operations.{
  LeaseOperation, requests_lease, renews, beats, disconnects, revokes, disables_renewal, protects,
  revokes_all, revokes_token, migrates, reports_lease, sweeps_leases, lease_step, lease_run,
}
use server_cli.Lease.Moves.{Moves, LeasesGrow, LeasesGrow-refl, LeasesGrow-trans}
use server_cli.Lease.Holding.{renew-Grows, heartbeat-Grows, disconnect-Grows}
use server_cli.Lease.Administering.{
  revoke-Grows, disable_renewal-Grows, protect_lease-Grows, revoke_all-Grows,
  revoke_token_cascade-Grows, migrate_legacy-Grows,
}
use server_cli.Lease.Reports.{agent_lease_event-Grows}
use server_cli.Lease.Sweeping.{expire_stale_leases-Grows}
use server_cli.Lease.Requesting.{create_lease_request-Grows}

lease_step-Grows :
    (ext : LeaseExternal) (db : LeaseDb) (env : LeaseEnv) (o : LeaseOperation)
    → Unique lease_key db.leases
    → LeasesGrow db.leases (lease_step ext db env o).leases
unfolding lease_step
lease_step-Grows ext db env (requests_lease inp p) u = create_lease_request-Grows ext db env inp p
lease_step-Grows ext db env (renews id p asked) u = renew-Grows db env id p asked
lease_step-Grows ext db env (beats id p) u = heartbeat-Grows db env id p
lease_step-Grows ext db env (disconnects id p) u = disconnect-Grows db env id p
lease_step-Grows ext db env (revokes id admin reason) u = revoke-Grows db env id admin reason
lease_step-Grows ext db env (disables_renewal id admin) u = disable_renewal-Grows db env id admin
lease_step-Grows ext db env (protects id admin) u = protect_lease-Grows db env id admin
lease_step-Grows ext db env (revokes_all node admin reason) u =
    revoke_all-Grows db env node admin reason
lease_step-Grows ext db env (revokes_token token admin reason) u =
    revoke_token_cascade-Grows db env token admin reason
lease_step-Grows ext db env migrates u = migrate_legacy-Grows db env
lease_step-Grows ext db env (reports_lease node id inp) u =
    agent_lease_event-Grows db env node id inp
lease_step-Grows ext db env sweeps_leases u = expire_stale_leases-Grows db env u

lease_run-Grows :
    (ext : LeaseExternal) (os : List (LeaseEnv × LeaseOperation)) (db : LeaseDb)
    → Unique lease_key db.leases
    → LeasesGrow db.leases (lease_run ext db os).leases
unfolding lease_run
lease_run-Grows ext [] db u = LeasesGrow-refl db.leases
lease_run-Grows ext (o ∷ os) db u =
    let g = lease_step-Grows ext db o.0 o.1 u in
    LeasesGrow-trans db.leases _ _ g (lease_run-Grows ext os (lease_step ext db o.0 o.1) (g.1 u))

-- Through any history of operations, run one after another on a table whose identifiers are
-- distinct, a lease keeps its row; once it is not active its status never changes again; its
-- expiry only moves later, at most to the absolute expiry that it was issued with, and not at all
-- once it has ended or its renewal is disabled; and its token, node, key and profile stay.
pub lease_run-Moves :
    (ext : LeaseExternal) (db : LeaseDb) (os : List (LeaseEnv × LeaseOperation)) (id : String)
    (r : Lease)
    → Unique lease_key db.leases
    → lease_by_id db id ≡ some r
    → (s : Lease) × (lease_by_id (lease_run ext db os) id ≡ some s) × Moves r s
unfolding lease_by_id
lease_run-Moves ext db os id r u e = (lease_run-Grows ext os db u).0 id r e
