-- ===== src/Lease/Operations.antt =====
-- Every operation that changes a lease row, as one step on the database, and histories as
-- sequences of them.
use server_cli.Common.{ℤ, String, List, [], ◌∷◌}
use server_cli.Lease.Model.{LeaseDb, LeaseEnv, Principal}
use server_cli.Lease.Requests.{LeaseRequestInput, LeaseExternal, create_lease_request}
use server_cli.Lease.Holder.{renew, heartbeat, disconnect}
use server_cli.Lease.Admin.{
  revoke, disable_renewal, protect_lease, revoke_all, revoke_token_cascade, migrate_legacy,
}
use server_cli.Lease.Nodes.{AgentLeaseEventInput, agent_lease_event, expire_stale_leases}

pub data LeaseOperation : Type 0 where
  requests_lease : LeaseRequestInput → Principal → LeaseOperation
  renews : String → Principal → ℤ → LeaseOperation
  beats : String → Principal → LeaseOperation
  disconnects : String → Principal → LeaseOperation
  revokes : String → String → String → LeaseOperation
  disables_renewal : String → String → LeaseOperation
  protects : String → String → LeaseOperation
  revokes_all : String → String → String → LeaseOperation
  revokes_token : String → String → String → LeaseOperation
  migrates : LeaseOperation
  reports_lease : String → String → AgentLeaseEventInput → LeaseOperation
  sweeps_leases : LeaseOperation

module _ (ext : LeaseExternal) where
  unfoldable pub lease_step : LeaseDb → LeaseEnv → LeaseOperation → LeaseDb
  lease_step db env (requests_lease inp p) = (create_lease_request ext db env inp p).0
  lease_step db env (renews id p asked) = (renew db env id p asked).0
  lease_step db env (beats id p) = (heartbeat db env id p).0
  lease_step db env (disconnects id p) = (disconnect db env id p).0
  lease_step db env (revokes id admin reason) = (revoke db env id admin reason).0
  lease_step db env (disables_renewal id admin) = (disable_renewal db env id admin).0
  lease_step db env (protects id admin) = (protect_lease db env id admin).0
  lease_step db env (revokes_all node admin reason) = (revoke_all db env node admin reason).0
  lease_step db env (revokes_token token admin reason) =
      (revoke_token_cascade db env token admin reason).0
  lease_step db env migrates = migrate_legacy db env
  lease_step db env (reports_lease node id inp) = (agent_lease_event db env node id inp).0
  lease_step db env sweeps_leases = (expire_stale_leases db env).0

  unfoldable pub lease_run : LeaseDb → List (LeaseEnv × LeaseOperation) → LeaseDb
  lease_run db [] = db
  lease_run db (o ∷ os) = lease_run (lease_step db o.0 o.1) os
