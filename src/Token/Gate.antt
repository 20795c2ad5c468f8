-- ===== src/Token/Gate.antt =====
-- tokenAuth of backend/internal/api/middleware_tokens.go, the way of every request with an access
-- token to its handler: the token is resolved and authorized, its use is logged, and a refusal is
-- audited. Requests with the hooks of tokenAuthWith are not modelled, nor are TouchAccessToken and
-- the columns of the log and of the audit rows that repeat the request or are constant.
use Prim.Native.String.{◌++◌ as join}
use server_cli.Common.{
  ℕ, String, str_eq, ◌&&◌, if◌then◌else◌, List, [], ◌∷◌, ◌++◌, leb, ltb, ok, err,
}
use server_cli.Lease.Model.{AccessToken, Principal, LeaseDb}
use server_cli.Token.Service.{
  TokenExternal, Resolved, unknown_token, revoked_token, expired_token, valid_token, authorize,
  resolve,
}

pub data UsageOutcome : Type 0 where
  success denied failure : UsageOutcome

pub data TokenState : Type 0 where
  in_force expired revoked : TokenState

-- A row of api_token_usage_log.
pub record Usage : Type 0 where
  pub token_id : String
  pub resource : String
  pub action : String
  pub status_code : ℕ
  pub outcome : UsageOutcome
  pub token_state : TokenState

-- A refusal as it is handed to the auditor for a row of audit_event, before the summary is redacted;
-- the actor is an AI client, and the risk is high.
pub record Denial : Type 0 where
  pub actor_id : String
  pub action : String
  pub summary : String

pub record GateDb : Type 0 where
  pub leases : LeaseDb
  pub usage : List Usage
  pub audit : List Denial

-- How a handler ends, with the status written until then: it returns, or it panics.
pub data Served : Type 0 where
  returned panicked : ℕ → Served

abbrev pub Handler : Type 0
Handler = LeaseDb → Principal → LeaseDb × Served

-- What the request is answered with; a panic is passed on.
pub data Answer : Type 0 where
  unauthenticated lacks_permission : Answer
  handled : Served → Answer

-- recordTokenUsage.
unfoldable pub record_token_usage : GateDb → Usage → GateDb
record_token_usage db u = record db { usage = db.usage ++ u ∷ [] }

-- Denied of the auditor.
unfoldable pub record_denied : GateDb → String → String → String → GateDb
record_denied db actor_id action summary = record db {
  audit = db.audit ++ record { actor_id = actor_id; action = action; summary = summary } ∷ [];
}

abbrev no_token : String
no_token = "access token required"

abbrev failed_token : String
failed_token = "access token authentication failed"

abbrev pub lacking_text : String → String → String
lacking_text r a = join "access token lacks permission: " (join r (join ":" a))

abbrev pub usage_of : AccessToken → String → String → ℕ → UsageOutcome → TokenState → Usage
usage_of t r a code outcome s = record {
  token_id = t.id;
  resource = r;
  action = a;
  status_code = code;
  outcome = outcome;
  token_state = s;
}

abbrev pub outcome_of : ℕ → UsageOutcome
outcome_of code =
    if leb 400 code && ltb code 500 then denied else if leb 500 code then failure else success

-- The use that is logged of a handler: a panic is a failure of the server.
abbrev pub usage_served : AccessToken → String → String → Served → Usage
usage_served t r a (returned code) = usage_of t r a code (outcome_of code) in_force
usage_served t r a (panicked code) =
    usage_of t r a (if ltb code 500 then 500 else code) failure in_force

-- What follows the handler.
unfoldable pub log_served :
    GateDb → AccessToken → String → String → LeaseDb × Served → GateDb × Answer
log_served db t r a (leases, served) =
    (record_token_usage (record db { leases = leases }) (usage_served t r a served), handled served)

unfoldable pub admit : GateDb → String → String → Handler → Resolved → GateDb × Answer
admit db r a handler unknown_token =
    (record_denied db "" "api_token.auth" failed_token, unauthenticated)
admit db r a handler (revoked_token t) =
    let used = record_token_usage db (usage_of t r a 401 denied revoked) in
    (record_denied used "" "api_token.auth" failed_token, unauthenticated)
admit db r a handler (expired_token t) =
    let used = record_token_usage db (usage_of t r a 401 denied expired) in
    (record_denied used "" "api_token.auth" failed_token, unauthenticated)
admit db r a handler (valid_token p t) = elim (authorize p r a) [
  | err e ↦
      let used = record_token_usage db (usage_of t r a 403 denied in_force) in
      (record_denied used p.name "api_token.denied" (lacking_text r a), lacks_permission)
  | ok done ↦ log_served db t r a (handler db.leases p)
]

-- tokenAuth; the text is "" where the request has no bearer token.
unfoldable pub token_auth :
    TokenExternal → GateDb → ℕ → String → String → String → Handler → GateDb × Answer
token_auth ext db now plaintext r a handler =
    if str_eq plaintext ""
    then (record_denied db "" "api_token.auth" no_token, unauthenticated)
    else admit db r a handler (resolve ext db.leases now plaintext)
