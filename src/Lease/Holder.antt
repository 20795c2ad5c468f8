-- ===== src/Lease/Holder.antt =====
-- What the access token that owns a lease may do with it: Renew, Heartbeat and Disconnect of
-- backend/internal/service/lease.go.
use server_cli.Common.{
  ℕ, ◌+◌, ℤ, seconds, add_time, String, str_eq, Bool, false, not, ◌&&◌, if◌then◌else◌, none, some,
  [], ◌∷◌, ◌++◌, ltb, Error, not_found, forbidden, terminal, Result, ok, err,
}
use server_cli.Lease.Model.{disconnected, is_active, Lease, LeaseDb, Principal, LeaseEnv}
use server_cli.Lease.Store.{lease_by_id, update_lease, expire_lease, append_lease_event}
use server_cli.Lease.Requests.{granted_seconds, at_most}

-- authLeaseForPrincipal: a lease of another token is not found.
unfoldable pub auth_lease : LeaseDb → String → Principal → Result Lease
auth_lease db id p = elim (lease_by_id db id) [
  | none ↦ err not_found
  | some l ↦ if str_eq l.access_token_id p.token_id then ok l else err not_found
]

-- Denied of the auditor, for a renewal. The other audit rows of the service are not modelled.
unfoldable pub audit_denied : LeaseDb → String → String → String → String → String → LeaseDb
audit_denied db actor_id node_id action lease_id summary = record db {
  denials =
      db.denials
      ++ record {
        actor_id = actor_id;
        node_id = node_id;
        action = action;
        lease_id = lease_id;
        summary = summary;
      }
        ∷ [];
}

-- What became of a request to change a lease: refused without an event, or denied with one and, for
-- a summary that is not empty, with an audit row; found to be over; or the row to be written.
pub data Verdict : Type 0 where
  refuses : Error → Verdict
  denies : Error → String → Verdict
  lapses : Verdict
  writes : Lease → Verdict

-- The instant up to which a renewal extends a lease.
unfoldable pub next_expiry : LeaseEnv → Lease → Principal → ℤ → ℕ
next_expiry env l p asked =
    at_most
      (at_most (add_time env.now (seconds (granted_seconds asked env.default_minutes)))
        (some l.absolute_expires_at))
      p.expires_at

abbrev pub renewed : LeaseEnv → ℕ → Lease → Lease
renewed env expiry l = record l {
  expires_at = expiry;
  last_renewed_at = some env.now;
  renew_count = l.renew_count + 1;
  last_heartbeat_at = some env.now;
  key_installed = false;
  key_installed_at = none;
}

abbrev pub renewals_closed : LeaseEnv → Bool
renewals_closed env = not env.renewals_enabled && str_eq env.access_scope "global"

-- The guards of Renew.
unfoldable pub judge_renewal : LeaseEnv → Lease → Principal → ℤ → Verdict
judge_renewal env l p asked =
    if not (is_active l.status)
    then denies terminal ""
    else if l.renewal_disabled
    then denies forbidden "renewal denied: disabled"
    else if renewals_closed env
    then denies forbidden "renewal denied: global gate"
    else if not (ltb env.now l.expires_at)
    then lapses
    else if not (ltb env.now l.absolute_expires_at)
    then lapses
    else if ltb l.expires_at (next_expiry env l p asked)
    then writes (renewed env (next_expiry env l p asked) l)
    else denies forbidden ""

-- The guards of Heartbeat.
unfoldable pub judge_heartbeat : LeaseEnv → Lease → Verdict
judge_heartbeat env l =
    if not (is_active l.status)
    then refuses terminal
    else if not (ltb env.now l.expires_at)
    then lapses
    else writes (record l { last_heartbeat_at = some env.now })

-- The guards of Disconnect.
unfoldable pub judge_disconnection : LeaseEnv → Lease → Verdict
judge_disconnection env l =
    if not (is_active l.status)
    then refuses terminal
    else writes (record l { status = disconnected; last_heartbeat_at = some env.now })

-- The statements of a verdict. The events are those of the operation: where it is denied, and
-- where it is done (none for an empty name).
unfoldable pub carry_out :
    LeaseDb → LeaseEnv → Lease → String → String → Verdict → LeaseDb × Result Lease
carry_out db env l denied done (refuses e) = (db, err e)
carry_out db env l denied done (denies e summary) =
    let db' = append_lease_event db env.now l.id denied "ai" l.ai_agent_id in
    (
      if str_eq summary ""
          then db'
          else audit_denied db' "" l.node_id "ai.lease_renew_denied" l.id summary,
      err e,
    )
carry_out db env l denied done lapses = (
  append_lease_event (expire_lease db l.id).0 env.now l.id "expired" "system" "scheduler",
  err terminal,
)
carry_out db env l denied done (writes l') = (
  if str_eq done ""
      then update_lease db l'
      else append_lease_event (update_lease db l') env.now l.id done "ai" l.ai_agent_id,
  ok l',
)

-- An operation of a principal on a lease: the lease must be its token's own, else `stranger` is what
-- it does.
unfoldable pub by_holder :
    LeaseDb
    → LeaseEnv
    → String
    → Principal
    → (LeaseDb → LeaseDb)
    → String
    → String
    → (Lease → Verdict)
    → LeaseDb × Result Lease
by_holder db env id p stranger denied done judge = elim (auth_lease db id p) [
  | err e ↦ (stranger db, err e)
  | ok l ↦ carry_out db env l denied done (judge l)
]

-- Renew.
unfoldable pub renew : LeaseDb → LeaseEnv → String → Principal → ℤ → LeaseDb × Result Lease
renew db env id p asked =
    by_holder db env id p
      (λ d. audit_denied d p.name "" "ai.lease_renew" id "renewal denied: token does not own lease")
      "renew_denied" "renewed" (λ l. judge_renewal env l p asked)

-- Heartbeat.
unfoldable pub heartbeat : LeaseDb → LeaseEnv → String → Principal → LeaseDb × Result Lease
heartbeat db env id p = by_holder db env id p (λ d. d) "" "" (judge_heartbeat env)

-- Disconnect.
unfoldable pub disconnect : LeaseDb → LeaseEnv → String → Principal → LeaseDb × Result Lease
disconnect db env id p = by_holder db env id p (λ d. d) "" "disconnected" (judge_disconnection env)
