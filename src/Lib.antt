-- ===== src/Lib.antt =====
-- ServerCLI: the control plane of a cluster of servers, with an agent on each node. The control
-- plane queues commands as tasks, hands them to the agents that poll for them, and stores what they
-- report; it grants access tokens short SSH leases on nodes; it deploys features to targets on the
-- nodes by operations that a scheduler carries out with tasks; and it locks out who fails to sign in
-- too often. This library models the task service, the lease service, the permissions of access tokens
-- and the operations of deployments, with the statements that they run, the check of arguments, and
-- the limiter of sign-ins, and proves what their states can become.
--
-- Parts, and the files that model them (paths from the repository's root):
--   Task      backend/internal/service/task.go, backend/internal/store/task.go and, for the history
--             of parameters, store/taskparam.go. Model has the rows; Store the SQL statements
--             (ClaimNextTask is claim_next_task); Service CreateTask, GetTask and CancelTask; Dispatch
--             PollTask and CancelledTasks; Agent RecordEvent and RecordResult; Operations one step per
--             operation, and runs of them. Advance, Lifecycle, Creation, Claims, Results,
--             Events, Scope and Payloads hold the theorems (Claims/Oldest which task a claim finds),
--             Examples the concrete runs.
--   Lease     backend/internal/service/lease.go, backend/internal/store/lease.go and the statements on
--             leases of store/apitoken.go. Model has the rows; Store the SQL statements; Keys
--             validatePublicKey and fingerprint; Requests CreateLeaseRequest, newLease and issueLease;
--             Holder Renew, Heartbeat and Disconnect; Admin Revoke, RevokeAll, RevokeTokenCascade,
--             DisableRenewal, ProtectLease and MigrateLegacyApprovalFlow; Nodes AgentLeaseEvent and
--             ExpireStaleLeases; Operations one step per operation, and runs of them. Moves, Holding,
--             Administering, Reports, Sweeping, Requesting and History follow a lease through any
--             run; Renewal, Races, Issue, Replays, Cascade, RevokeAll, Staleness and Confined hold
--             the other theorems, Examples the concrete runs.
--   Limits    backend/internal/security/ratelimit.go. Login has the buckets and LoginLimiter's methods;
--             Lockout, Enough and Idle the theorems; Examples the concrete runs.
--   Schema    backend/internal/validate/schema.go. Validate has the schemas, the values and the check;
--             Objects and Shapes the theorems; Examples the concrete values.
--   Deploy    backend/internal/service/deployment_ops.go and deployment_scheduler.go, and the statements
--             on operations, targets, steps and backups of store/deployment_store.go. Model has the
--             rows; Store the SQL statements; Freeze the secret references that are frozen; Service
--             CreateOperation, CancelOperation and ContinueOperation; Backups RunBackupsForNode; Exec the
--             scheduler's state; Steps one agent task of an operation, from its step to the wait for its
--             end; Targets executeTarget; Scheduler executeOperation and Tick. Tasks are created and
--             cancelled by Task's create_task and cancel_task, on the same database. Rows, Works, Outcomes and
--             Rollouts follow the rows through an execution; Planning, Creating, Verdicts, Secrets,
--             Claims, Cancelling and Finishing hold the theorems, Examples the concrete runs. Larger
--             files pass on the names of a child: Store/Reads, Service/Checks, Steps/Waits,
--             Targets/Marks, Scheduler/Counts and Planning/Checked; Cancelling/Kept holds lemmas.
--   Token     backend/internal/service/apitoken.go and the statements on tokens of store/apitoken.go, on
--             Lease's database, and the middleware backend/internal/api/middleware_tokens.go.
--             Permissions has the catalog, parsing, and the loops of Authorize and
--             ValidatePermissionSet; Service Create, Resolve, Authorize and UpdatePermissions; Gate
--             tokenAuth; Resolving, Passing, Granting and Storable the theorems; Examples the concrete
--             runs.
--   Common    what they share: tables as lists of rows with the selections and updates of SQL (Rows),
--             tables with a primary key and how they grow (Keyed), rows read and written back in a
--             loop (Snapshots), 64-bit integers and instants (Ints), the order of the stored texts of
--             instants (Stamps), texts, errors and tests.
--
-- How the model stands to the code:
--   - A database is a record of lists, one per table; a statement is a function on it. A method
--     returns the database with its result, where a sentinel error of service/errors.go is a value
--     of Error. A statement that a constraint of the schema refuses returns the error `constraint`;
--     other failures of the database are not modelled.
--   - The instants that one call reads are one instant, `now`; the identifiers that it draws are
--     `new_id 0`, `new_id 1` and so on. No theorem assumes that drawn identifiers are fresh: a taken
--     one makes the INSERT fail.
--   - An instant is a number of nanoseconds since Go's zero time. The code compares instants as such.
--     The database stores them as RFC3339Nano texts, which drop the zeros at the end of the fraction,
--     and statements compare the texts: `stamp_before` of Common/Stamps is that order, byte by byte
--     and for years of four digits. Within one second it differs from the order in time. Durations
--     wrap around at 64 bits as in Go.
--   - Methods run one after another, except where a theorem interleaves them: a claim takes a list of
--     what other connections commit between its statements, one entry for each round that it has to
--     repeat, the scheduler a list of what others commit while it waits for a task, one entry for each
--     wait, with the time after it, and Races runs a revocation between the read and the write of a
--     renewal.
--   - Lists of rows stand in the order of insertion. What the code sorts is sorted in the model, but
--     for the active leases that RevokeAll and the sweep go through, latest issued first in the code:
--     their order shows only in the order of events and of the leases returned.
--   - Audit rows are modelled for tasks, where an operation writes them on success (`audit`), for the
--     refusals of tokenAuth (`audit` of Gate) and for the refused renewals of a lease (`denials`), as
--     they are handed to the auditor, whose redaction of the summary is left out. The audit rows of
--     the other operations on leases and of those on tokens and deployments are not modelled.
--   - Identifiers of audit and event rows, and their details, are left out, as are listings, log
--     output and Dispatcher.Wait. A wake-up of a node's poller is an entry of `woken`.
--   - A column that is NULL for an empty text, as the token of a lease, is the empty text here. The
--     statements on the leases of one token are called with the identifier of a stored token.
--
-- Parameters of the model: encoding/json, the hashes, the redactor (backend/internal/secret/redact.go)
-- and the check of arguments are fields of `External`; SHA-256 and ResolveNodeSelector
-- (backend/internal/service/node.go) are fields of `LeaseExternal`; the values of settings are fields of
-- `LeaseEnv`; ResolveConfig (backend/internal/service/deployment_service.go), the redactors, the hash of
-- secret references, the HTTP probe of the control plane and texts of dates and errors are fields of
-- `DeployExternal`; encoding/json on permission sets, SHA-256 and the trimming of texts are fields of
-- `TokenExternal`; the float64 numbers and the encoder that Schema uses are `Numbers`. The redactor,
-- ResolveNodeSelector and the settings are code of this repository that is not modelled. The check of
-- arguments is Schema's `validate` behind the decoding of the schema; Task leaves it open.
--
-- Every function is total by structural recursion; no fuel is used. The length of the list of
-- interferences of a claim bounds its rounds, and the last round always runs uncontested. A wait for a
-- task has as many rounds as its list, past which the deadline has passed, as pollTask gives up at
-- its own.
--
-- Not modelled: passwords and sessions, enrolment and node state, notifications and their hooks in the
-- middleware of tokens, clean-up, the upkeep of features, releases, profiles and secrets
-- (deployment_service.go), release packages, and the agent's own processes. The web pages and scripts
-- are no part of the model.
pub mod Common
pub mod Task
pub mod Lease
pub mod Limits
pub mod Schema
pub mod Deploy
pub mod Token
