-- ===== src/Lease/Confined.antt =====
-- What an agent reports of leases reaches those of its own node only.
use mathlib.Core.Option
use server_cli.Common.{
  String, str_eq, str_eq_iff, false, ◌≡◌, ◌≢◌, refl, sym, subst, ap, ◌∙◌, inl, inr, some, some_inj,
  find_row, find_row_holds, find_row-update_rows, Bool-cases, if_cases, keyed,
}
use server_cli.Lease.Model.{is_active, Lease, LeaseDb, LeaseEnv, write_lease}
use server_cli.Lease.Store.{
  lease_key, lease_by_id, update_lease, append_lease_event, create_ssh_session, end_ssh_session,
}
use server_cli.Lease.Nodes.{
  AgentLeaseEventInput, LeaseEventKind, installed, install_failed, removed, session_started,
  session_ended, session_activity, unlisted, lease_event_kind, reported, apply_lease_event,
  agent_lease_event,
}
use server_cli.Lease.Reports.{agent_lease_event_cases}

-- An UPDATE of a lease leaves a lease of another node as it is.
update_lease_elsewhere :
    (db : LeaseDb) (id other : String) (l new x : Lease)
    → lease_by_id db id ≡ some l
    → new.id ≡ l.id
    → lease_by_id db other ≡ some x
    → x.node_id ≢ l.node_id
    → lease_by_id (update_lease db new) other ≡ some x
unfolding lease_by_id update_lease
update_lease_elsewhere db id other l new x e same f apart =
    find_row-update_rows (keyed lease_key other) (keyed lease_key new.id) (write_lease new)
      db.leases (λ y. refl)
    ∙ rw (f, Option.map, miss) refl
  where
    at_id : l.id ≡ id
    at_id = (str_eq_iff l.id id).0 (find_row_holds (keyed lease_key id) db.leases l e)

    at_other : x.id ≡ other
    at_other = (str_eq_iff x.id other).0 (find_row_holds (keyed lease_key other) db.leases x f)

    miss : keyed lease_key new.id x ≡ false
    miss = elim (Bool-cases (str_eq x.id new.id)) [
      | inr h ↦ h
      | inl h ↦
          let keys : other ≡ id = sym at_other ∙ (str_eq_iff x.id new.id).0 h ∙ same ∙ at_id in
          let one : x ≡ l =
            some_inj
              (sym f ∙ subst (λ k. find_row (keyed lease_key k) db.leases ≡ some l) (sym keys) e) in
          absurd (apart (ap (λ (y : Lease). y.node_id) one))
    ]

-- The lease stands under the identifier.
abbrev pub Stands : LeaseDb → String → Lease → Type 0
Stands db id x = lease_by_id db id ≡ some x

apply_elsewhere :
    (db : LeaseDb) (env : LeaseEnv) (node id other : String) (l x : Lease)
    (inp : AgentLeaseEventInput) (k : LeaseEventKind)
    → lease_by_id db id ≡ some l
    → lease_by_id db other ≡ some x
    → x.node_id ≢ l.node_id
    → Stands (apply_lease_event db env node id l inp k).0 other x
unfolding apply_lease_event append_lease_event create_ssh_session end_ssh_session lease_by_id
    update_lease
apply_elsewhere db env node id other l x inp installed e f apart =
    update_lease_elsewhere db id other l (reported env installed l) x e refl f apart
apply_elsewhere db env node id other l x inp install_failed e f apart =
    if_cases (λ (d : LeaseDb). Stands d other x) (is_active l.status)
      (λ h. update_lease_elsewhere db id other l (reported env install_failed l) x e refl f apart)
      (λ h. f)
apply_elsewhere db env node id other l x inp removed e f apart =
    update_lease_elsewhere db id other l (reported env removed l) x e refl f apart
apply_elsewhere db env node id other l x inp session_started e f apart =
    update_lease_elsewhere db id other l (reported env session_started l) x e refl f apart
apply_elsewhere db env node id other l x inp session_ended e f apart =
    let stands =
      update_lease_elsewhere db id other l (reported env session_ended l) x e refl f apart in
    if_cases (λ (d : LeaseDb). Stands d other x) (str_eq inp.session_id "") (λ h. stands)
      (λ h. stands)
apply_elsewhere db env node id other l x inp session_activity e f apart = f
apply_elsewhere db env node id other l x inp unlisted e f apart = f

-- Whatever an agent reports, and of whatever lease, each lease of another node stands as it stood.
pub lease_reports_confined :
    (db : LeaseDb) (env : LeaseEnv) (node id other : String) (inp : AgentLeaseEventInput)
    (x : Lease)
    → lease_by_id db other ≡ some x
    → x.node_id ≢ node
    → lease_by_id (agent_lease_event db env node id inp).0 other ≡ some x
lease_reports_confined db env node id other inp x f apart =
    agent_lease_event_cases (λ r. Stands r.0 other x) db env node id inp f
      (λ l e own.
        apply_elsewhere db env node id other l x inp (lease_event_kind inp.event_type) e f
          (λ h. apart (h ∙ own)))
