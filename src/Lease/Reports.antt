-- ===== src/Lease/Reports.antt =====
-- An agent's reports move leases only as `Moves` says, and only its own node's.
use server_cli.Common.{
  String, str_eq, str_eq_iff, ◌≡◌, inl, inr, some, Option-cases, if_cases, arith, Result, err,
  not_found,
}
use server_cli.Lease.Model.{is_active, Lease, LeaseDb, LeaseEnv, write_lease}
use server_cli.Lease.Store.{
  lease_by_id, update_lease, append_lease_event, create_ssh_session, end_ssh_session,
}
use server_cli.Lease.Nodes.{
  AgentLeaseEventInput, LeaseEventKind, installed, install_failed, removed, session_started,
  session_ended, session_activity, unlisted, lease_event_kind, reported, apply_lease_event,
  agent_lease_event,
}
use server_cli.Lease.Moves.{Moves, LeasesGrow, LeasesGrow-refl, update_lease-Grows}

reported-Moves :
    (env : LeaseEnv) (k : LeaseEventKind) (l : Lease) → Moves l (write_lease (reported env k l) l)
reported-Moves env k l = ground arith

reported-Grows :
    (db : LeaseDb) (env : LeaseEnv) (id : String) (l : Lease) (k : LeaseEventKind)
    → lease_by_id db id ≡ some l
    → LeasesGrow db.leases (update_lease db (reported env k l)).leases
reported-Grows db env id l k e =
    update_lease-Grows db id l (reported env k l) e (same k) (reported-Moves env k l)
  where
    same : (k : LeaseEventKind) → (reported env k l).id ≡ l.id
    same k = ground arith

apply_lease_event-Grows :
    (db : LeaseDb) (env : LeaseEnv) (node id : String) (l : Lease) (inp : AgentLeaseEventInput)
    (k : LeaseEventKind)
    → lease_by_id db id ≡ some l
    → LeasesGrow db.leases (apply_lease_event db env node id l inp k).0.leases
unfolding apply_lease_event append_lease_event create_ssh_session end_ssh_session lease_by_id
apply_lease_event-Grows db env node id l inp installed e = reported-Grows db env id l installed e
apply_lease_event-Grows db env node id l inp install_failed e =
    if_cases (λ (d : LeaseDb). LeasesGrow db.leases d.leases) (is_active l.status)
      (λ h. reported-Grows db env id l install_failed e) (λ h. LeasesGrow-refl db.leases)
apply_lease_event-Grows db env node id l inp removed e = reported-Grows db env id l removed e
apply_lease_event-Grows db env node id l inp session_started e =
    reported-Grows (create_ssh_session db _) env id l session_started e
apply_lease_event-Grows db env node id l inp session_ended e =
    if_cases (λ (d : LeaseDb). LeasesGrow db.leases d.leases) (str_eq inp.session_id "")
      (λ h. reported-Grows db env id l session_ended e)
      (λ h. reported-Grows db env id l session_ended e)
apply_lease_event-Grows db env node id l inp session_activity e = LeasesGrow-refl db.leases
apply_lease_event-Grows db env node id l inp unlisted e = LeasesGrow-refl db.leases

-- An agent's report is refused with the database unchanged, or applied to a lease of its node.
pub agent_lease_event_cases {ℓ} :
    (P : LeaseDb × Result (Unit {0}) → Type ℓ) (db : LeaseDb) (env : LeaseEnv) (node id : String)
    (inp : AgentLeaseEventInput)
    → P (db, err not_found)
    → ((l : Lease)
        → lease_by_id db id ≡ some l
        → l.node_id ≡ node
        → P (apply_lease_event db env node id l inp (lease_event_kind inp.event_type)))
    → P (agent_lease_event db env node id inp)
unfolding agent_lease_event
agent_lease_event_cases P db env node id inp refuse accept =
    elim (Option-cases (lease_by_id db id)) [
      | inl e ↦ rw (e, agent_lease_event) refuse
      | inr (l, e) ↦
          rw (e, agent_lease_event)
            (if_cases P (str_eq l.node_id node)
              (λ own. accept l e ((str_eq_iff l.node_id node).0 own)) (λ h. refuse))
    ]

pub agent_lease_event-Grows :
    (db : LeaseDb) (env : LeaseEnv) (node id : String) (inp : AgentLeaseEventInput)
    → LeasesGrow db.leases (agent_lease_event db env node id inp).0.leases
agent_lease_event-Grows db env node id inp =
    agent_lease_event_cases (λ r. LeasesGrow db.leases r.0.leases) db env node id inp
      (LeasesGrow-refl db.leases)
      (λ l e own. apply_lease_event-Grows db env node id l inp (lease_event_kind inp.event_type) e)
