-- ===== src/Deploy/Store/Reads.antt =====
-- The SELECT statements of backend/internal/store/deployment_store.go on operations, their targets and
-- steps, and what the partial indexes count.

use server_cli.Common.{
  String, str_eq, Bool, true, false, ◌&&◌, ◌||◌, Option, List, find_row, select_rows,
}
use server_cli.Deploy.Model.{
  Status, queued, running, awaiting_confirmation, Feature, Release, Target, Operation,
  OperationTarget, Step, Backup, SecretReference, DeployDb,
}

abbrev pub is_queued : Status → Bool
is_queued queued = true
is_queued _ = false

-- The statuses of the partial index uq_deployment_op_active_feature.
abbrev pub is_active : Status → Bool
is_active queued = true
is_active running = true
is_active awaiting_confirmation = true
is_active _ = false

-- The statuses of the partial index uq_deployment_optarget_active_node.
abbrev pub holds_node : Status → Bool
holds_node queued = true
holds_node running = true
holds_node _ = false

abbrev pub operation_key : Operation → String
operation_key o = o.id

abbrev pub op_target_key : OperationTarget → String
op_target_key t = t.id

abbrev pub step_key : Step → String
step_key s = s.id

abbrev pub target_key : Target → String
target_key t = t.id

unfoldable pub feature_by_id : DeployDb → String → Option Feature
feature_by_id db id = find_row (λ (f : Feature). str_eq f.id id) db.features

unfoldable pub release_by_id : DeployDb → String → Option Release
release_by_id db id = find_row (λ (r : Release). str_eq r.id id) db.releases

unfoldable pub target_by_id : DeployDb → String → Option Target
target_by_id db id = find_row (λ t. str_eq (target_key t) id) db.targets

unfoldable pub targets_by_feature : DeployDb → String → List Target
targets_by_feature db id = select_rows (λ t. str_eq t.feature_id id) db.targets

unfoldable pub operation_by_id : DeployDb → String → Option Operation
operation_by_id db id = find_row (λ o. str_eq (operation_key o) id) db.operations

unfoldable pub backup_by_id : DeployDb → String → Option Backup
backup_by_id db id = find_row (λ (b : Backup). str_eq b.id id) db.backups

abbrev pub of_operation : String → OperationTarget → Bool
of_operation id t = str_eq t.operation_id id

-- ListDeploymentOperationTargetsByOperation: the rows in the order of creation.
unfoldable pub op_targets_of : DeployDb → String → List OperationTarget
op_targets_of db id = select_rows (of_operation id) db.op_targets

unfoldable pub steps_of : DeployDb → String → List Step
steps_of db id = select_rows (λ s. str_eq s.operation_id id) db.steps

abbrev pub active_for : String → Operation → Bool
active_for feature_id o = str_eq o.feature_id feature_id && is_active o.status

-- ActiveDeploymentOperationForFeature. Only whether there is one is read.
unfoldable pub active_operation : DeployDb → String → Option Operation
active_operation db feature_id = find_row (active_for feature_id) db.operations

-- ListDeploymentSecretReferences; an empty scope_id is no condition.
unfoldable pub secret_references_of : DeployDb → String → String → String → List SecretReference
secret_references_of db feature_id scope_type scope_id =
    select_rows
      (λ (r : SecretReference).
        (str_eq feature_id "" || str_eq r.feature_id feature_id)
        && (str_eq scope_type "" || str_eq r.scope_type scope_type)
        && (str_eq scope_id "" || str_eq r.scope_id scope_id))
      db.secret_references
