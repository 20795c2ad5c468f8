-- ===== src/Deploy/Model.antt =====
-- The rows of the deployment tables (backend/internal/model/models.go), and the database as the
-- lists of them beside the task service's.
use server_cli.Common.{ℕ, ℤ, String, Bool, true, false, Option, List, Error}
use server_cli.Task.Model.{Db, Task}

-- The DeploymentAction constants.
pub data Action : Type 0 where
  install update backup rollback health_check restore : Action

-- The DeploymentStatus constants.
pub data Status : Type 0 where
  draft validated awaiting_confirmation queued running succeeded partial_failed failed : Status
  cancelled rolled_back rollback_failed skipped : Status

-- isOperationTargetTerminal.
abbrev pub is_terminal : Status → Bool
is_terminal succeeded = true
is_terminal failed = true
is_terminal skipped = true
is_terminal cancelled = true
is_terminal rolled_back = true
is_terminal rollback_failed = true
is_terminal _ = false

-- The TargetStatus constants.
pub data TargetStatus : Type 0 where
  pending installing running healthy unhealthy error : TargetStatus

pub record Feature : Type 0 where
  pub id : String
  pub feature_key : String
  pub backup_mode : String
  pub rollback_capability : String

pub record Release : Type 0 where
  pub id : String
  pub feature_id : String
  pub version : String

pub record Target : Type 0 where
  pub id : String
  pub feature_id : String
  pub node_id : String
  pub config_profile_id : String
  pub desired_release_id : String
  pub current_release_id : String
  pub last_healthy_release_id : String
  pub actual_status : TargetStatus
  pub last_health_check_at : Option ℕ
  pub config_revision : ℕ
  pub enabled : Bool

pub record Operation : Type 0 where
  pub id : String
  pub action : Action
  pub feature_id : String
  pub release_id : String
  pub status : Status
  pub requested_by : String
  pub reason : String
  pub environment_id : String
  pub frozen_config_hash : String
  pub backup_id : String
  pub force_delete : Bool
  pub created_at : ℕ
  pub started_at : Option ℕ
  pub finished_at : Option ℕ

pub record OperationTarget : Type 0 where
  pub id : String
  pub operation_id : String
  pub target_id : String
  pub node_id : String
  pub status : Status
  pub desired_release_id : String
  pub frozen_config_hash : String
  pub frozen_secret_hash : String
  pub error_message : String
  pub finished_at : Option ℕ

pub record Step : Type 0 where
  pub id : String
  pub operation_id : String
  pub operation_target_id : String
  pub node_id : String
  pub step_type : String
  pub status : Status
  pub command_id : String
  pub task_id : String
  pub message : String
  pub started_at : Option ℕ
  pub finished_at : Option ℕ

pub record Backup : Type 0 where
  pub id : String
  pub operation_id : String
  pub target_id : String
  pub node_id : String
  pub feature_id : String
  pub backup_mode : String
  pub object_key : String
  pub size : ℤ
  pub sha256 : String
  pub status : Status

pub record SecretReference : Type 0 where
  pub id : String
  pub feature_id : String
  pub scope_type : String
  pub scope_id : String
  pub object_key : String
  pub version : String
  pub content_hash : String
  pub encryption_mode : String

pub record ConfigProfile : Type 0 where
  pub id : String
  pub content_json : String

-- The addresses of all nodes, each node's in the order of NodeAddresses, the preferred one first.
pub record NodeAddress : Type 0 where
  pub node_id : String
  pub address : String

pub record DeployDb : Type 0 where
  pub features : List Feature
  pub releases : List Release
  pub targets : List Target
  pub operations : List Operation
  pub op_targets : List OperationTarget
  pub steps : List Step
  pub backups : List Backup
  pub secret_references : List SecretReference
  pub config_profiles : List ConfigProfile
  pub node_addresses : List NodeAddress
  pub core : Db

-- What a backup task reports in its result summary.
pub record BackupResult : Type 0 where
  pub object_key : String
  pub size : ℤ
  pub sha256 : String
  pub backup_mode : String

-- The backup fields that taskArguments adds for a restore.
pub record BackupArguments : Type 0 where
  pub backup_id : String
  pub backup_object_key : String
  pub backup_sha256 : String
  pub backup_size : ℤ

-- The arguments that taskArguments hands to the agent; `restore` holds what only a restore has.
pub record TaskArguments : Type 0 where
  pub operation_id : String
  pub target_id : String
  pub release_id : String
  pub feature_key : String
  pub node_id : String
  pub config_hash : String
  pub release_version : Option String
  pub restore_from : Option BackupArguments
  pub force_delete : Option Bool
  pub secret_refs : List SecretReference

-- The port and the health path of a stored configuration.
pub record HealthConfig : Type 0 where
  pub port : ℤ
  pub health_path : String

-- What the deployment code calls and that is not modelled: ResolveConfig, the redactors, JSON,
-- the hash of the secret references, the texts of dates and errors, and the HTTP probe at an
-- instant, which answers with a status code or not at all.
pub record DeployExternal (Args : Type 0) : Type 0 where
  pub is_production : Bool
  pub resolve_config : DeployDb → String → Target → Option String
  pub hash_refs : List SecretReference → String
  pub equal_fold : String → String → Bool
  pub redact : String → String
  pub sanitize : String → String
  pub arguments : TaskArguments → Args
  pub parse_config : String → Option HealthConfig
  pub backup_result : Task → Option BackupResult
  pub date_path : ℕ → String
  pub trim_space : String → String
  pub trim_slash : String → String
  pub health_text : Option ℕ → String
  pub mentions_manual_rollback : String → Bool
  pub error_text : Error → String
  pub http_get : ℕ → String → ℤ → String → Option ℕ
