-- ===== src/Lease/Nodes.antt =====
-- What nodes report of leases, and the scheduled sweep: AgentLeaseEvent and ExpireStaleLeases of
-- backend/internal/service/lease.go.
use server_cli.Common.{
  ℕ, ◌+◌, ◌-◌, ℤ, seconds, pos_part, neg_part, String, str_eq, Bool, true, false, if◌then◌else◌,
  Option, none, some, List, [], ◌∷◌, ◌++◌, ltb, not_found, bad_request, Result, ok, err,
}
use server_cli.Lease.Model.{
  active, disconnected, failed, is_active, Lease, LeaseDb, LeaseEnv, SshSession,
}
use server_cli.Lease.Store.{
  lease_by_id, update_lease, expire_lease, append_lease_event, active_leases, expired_leases,
  create_ssh_session, end_ssh_session,
}

pub record AgentLeaseEventInput : Type 0 where
  pub event_type : String
  pub message : String
  pub session_id : String
  pub remote_address : String
  pub connection_id : String
  pub os_pid : ℤ
  pub exit_code : Option ℤ

-- The cases of the switch on the event type.
pub data LeaseEventKind : Type 0 where
  installed install_failed removed session_started session_ended session_activity : LeaseEventKind
  unlisted : LeaseEventKind

unfoldable pub lease_event_kind : String → LeaseEventKind
lease_event_kind s =
    if str_eq s "installed"
    then installed
    else if str_eq s "install_failed"
    then install_failed
    else if str_eq s "removed"
    then removed
    else if str_eq s "session_started"
    then session_started
    else if str_eq s "session_ended"
    then session_ended
    else if str_eq s "session_activity"
    then session_activity
    else unlisted

-- The row as the switch leaves it.
abbrev pub reported : LeaseEnv → LeaseEventKind → Lease → Lease
reported env installed l = record l { key_installed = true; key_installed_at = some env.now }
reported env install_failed l = record l { status = elim l.status [ active ↦ failed | s ↦ s ] }
reported env removed l = record l { key_installed = false; key_installed_at = some env.now }
reported env session_started l = record l { active_session_count = l.active_session_count + 1 }
reported env session_ended l = record l { active_session_count = l.active_session_count - 1 }
reported env _ l = l

abbrev pub new_session : LeaseEnv → String → String → AgentLeaseEventInput → SshSession
new_session env node lease_id inp = record {
  id = env.new_id 0;
  lease_id = lease_id;
  node_id = node;
  remote_address = inp.remote_address;
  connection_id = inp.connection_id;
  os_pid = inp.os_pid;
  started_at = env.now;
  ended_at = none;
  end_reason = "";
  exit_code = none;
}

abbrev pub ended_session : LeaseEnv → AgentLeaseEventInput → SshSession → SshSession
ended_session env inp s = record s {
  ended_at = some env.now;
  end_reason = inp.message;
  exit_code = inp.exit_code;
}

-- The switch of AgentLeaseEvent.
unfoldable pub apply_lease_event :
    LeaseDb
    → LeaseEnv
    → String
    → String
    → Lease
    → AgentLeaseEventInput
    → LeaseEventKind
    → LeaseDb × Result (Unit {0})
apply_lease_event db env node id l inp installed = (
  append_lease_event (update_lease db (reported env installed l)) env.now l.id "installed" "node"
      node,
  ok tt,
)
apply_lease_event db env node id l inp install_failed = (
  append_lease_event
      (if is_active l.status then update_lease db (reported env install_failed l) else db) env.now
      l.id "install_failed" "node" node,
  ok tt,
)
apply_lease_event db env node id l inp removed = (
  append_lease_event (update_lease db (reported env removed l)) env.now l.id "removed" "node" node,
  ok tt,
)
apply_lease_event db env node id l inp session_started = (
  append_lease_event
      (update_lease (create_ssh_session db (new_session env node id inp))
        (reported env session_started l))
      env.now l.id "session_started" "node" node,
  ok tt,
)
apply_lease_event db env node id l inp session_ended =
    let db' = update_lease db (reported env session_ended l) in
    (
      if str_eq inp.session_id ""
          then db'
          else end_ssh_session db' inp.session_id (ended_session env inp),
      ok tt,
    )
apply_lease_event db env node id l inp session_activity = (db, ok tt)
apply_lease_event db env node id l inp unlisted = (db, err bad_request)

-- AgentLeaseEvent.
unfoldable pub agent_lease_event :
    LeaseDb → LeaseEnv → String → String → AgentLeaseEventInput → LeaseDb × Result (Unit {0})
agent_lease_event db env node id inp = elim (lease_by_id db id) [
  | none ↦ (db, err not_found)
  | some l ↦
      if str_eq l.node_id node
      then apply_lease_event db env node id l inp (lease_event_kind inp.event_type)
      else (db, err not_found)
]

-- The first loop of ExpireStaleLeases.
unfoldable pub expire_each : LeaseDb → LeaseEnv → List Lease → LeaseDb × List String
expire_each db env [] = (db, [])
expire_each db env (l ∷ ls) =
    let (db', changed) = expire_lease db l.id in
    let logged =
      if changed then append_lease_event db' env.now l.id "expired" "system" "scheduler" else db' in
    let (last, affected) = expire_each logged env ls in
    (last, if changed then l.id ∷ affected else affected)

-- The instant before which a heartbeat is too old: now minus the grace period.
abbrev pub grace_cutoff : LeaseEnv → ℕ
grace_cutoff env =
    let grace = seconds env.grace_seconds in env.now + neg_part grace - pos_part grace

abbrev pub is_silent : ℕ → Lease → Bool
is_silent cutoff l = elim l.last_heartbeat_at [ none ↦ false | some at ↦ ltb at cutoff ]

abbrev pub as_disconnected : Lease → Lease
as_disconnected l = record l { status = disconnected }

-- The second loop of ExpireStaleLeases.
unfoldable pub disconnect_each : LeaseDb → LeaseEnv → List Lease → LeaseDb × List String
disconnect_each db env [] = (db, [])
disconnect_each db env (l ∷ ls) =
    let silent = is_silent (grace_cutoff env) l in
    let db' =
      if silent
      then append_lease_event (update_lease db (as_disconnected l)) env.now l.id "disconnected"
          "system" "scheduler"
      else db in
    let (last, affected) = disconnect_each db' env ls in
    (last, if silent then l.id ∷ affected else affected)

-- ExpireStaleLeases.
unfoldable pub expire_stale_leases : LeaseDb → LeaseEnv → LeaseDb × List String
expire_stale_leases db env =
    let (db', lapsed) = expire_each db env (expired_leases db env.now) in
    let (last, silent) = disconnect_each db' env (active_leases db' "") in (last, lapsed ++ silent)
