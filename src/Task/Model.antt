-- ===== src/Task/Model.antt =====
-- The rows that the task service reads and writes (backend/internal/model/models.go), and the
-- database as the lists of them.
use server_cli.Common.{ℕ, ℤ, String, Bool, true, false, Option, List}

pub data Status : Type 0 where
  queued dispatched running succeeded failed timed_out cancelled : Status
  node_unreachable result_unknown : Status

-- IsTaskTerminal.
abbrev pub is_terminal : Status → Bool
is_terminal succeeded = true
is_terminal failed = true
is_terminal timed_out = true
is_terminal cancelled = true
is_terminal node_unreachable = true
is_terminal result_unknown = true
is_terminal _ = false

pub record Task : Type 0 where
  pub id : String
  pub node_id : String
  pub command_id : String
  pub command_version : String
  pub requested_by : String
  pub idempotency_key : String
  pub arguments_json : String
  pub status : Status
  pub queued_at : ℕ
  pub started_at : Option ℕ
  pub finished_at : Option ℕ
  pub timeout_seconds : ℤ
  pub exit_code : Option ℤ
  pub error_code : String
  pub error_message : String
  pub is_protected : Bool

-- A status that the code leaves empty is `none`.
pub record TaskEvent : Type 0 where
  pub task_id : String
  pub sequence : ℤ
  pub event_type : String
  pub status : Option Status
  pub message : String
  pub occurred_at : ℕ
  pub source : String

pub record TaskOutput : Type 0 where
  pub task_id : String
  pub stdout_text : String
  pub stderr_text : String
  pub stdout_bytes : ℕ
  pub stderr_bytes : ℕ
  pub truncated : Bool
  pub redaction_count : ℕ

pub data NodeStatus : Type 0 where
  pending online degraded offline disabled rejected : NodeStatus

pub record Node : Type 0 where
  pub id : String
  pub environment_id : String
  pub enabled : Bool
  pub status : NodeStatus

pub record NodeCommand : Type 0 where
  pub node_id : String
  pub command_id : String
  pub command_version : String
  pub parameter_schema_json : String
  pub timeout_seconds : ℤ
  pub max_output_bytes : ℤ
  pub enabled : Bool

pub record Enrollment : Type 0 where
  pub id : String
  pub node_id : String

pub record ParameterHistory : Type 0 where
  pub id : String
  pub node_id : String
  pub command_id : String
  pub command_version : String
  pub arguments_json : String
  pub arguments_hash : String
  pub last_task_id : String
  pub first_used_at : ℕ
  pub last_used_at : ℕ
  pub use_count : ℕ

pub record AuditEntry : Type 0 where
  pub actor_type : String
  pub actor_id : String
  pub node_id : String
  pub action : String
  pub task_id : String

-- `woken` lists the nodes whose pollers the dispatcher was asked to wake, the latest first.
pub record Db : Type 0 where
  pub tasks : List Task
  pub events : List TaskEvent
  pub outputs : List TaskOutput
  pub nodes : List Node
  pub commands : List NodeCommand
  pub enrollments : List Enrollment
  pub histories : List ParameterHistory
  pub audit : List AuditEntry
  pub woken : List String

-- What one call reads of its surroundings: the time, and the identifiers that it draws.
pub record Env : Type 0 where
  pub now : ℕ
  pub new_id : ℕ → String

-- The code that the service calls and that is not modelled: the JSON and hash packages, and the
-- redactor and the schema validator.
pub data ArgumentCheck : Type 0 where
  accepted rejected invalid : ArgumentCheck

pub record Payload : Type 0 where
  pub task_id : String
  pub node_id : String
  pub command_id : String
  pub command_version : String
  pub arguments : String
  pub created_at : ℕ
  pub not_before : ℕ
  pub deadline : ℕ
  pub idempotency_key : String
  pub attempt : ℕ
  pub timeout_seconds : ℤ
  pub max_output_bytes : ℤ
  pub payload_hash : String
  pub signature : String

pub record External (Args : Type 0) : Type 0 where
  pub check_arguments : String → Args → ArgumentCheck
  pub marshal : Args → Option String
  pub canonical_arguments : String → Option (String × String)
  pub credential : String → String
  pub payload_hash : Payload → String
  pub hmac_hex : String → String → String
  pub redact : String → String
  pub redactions : String → ℕ
  pub byte_length : String → ℕ
