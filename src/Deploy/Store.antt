-- ===== src/Deploy/Store.antt =====
-- The statements of backend/internal/store/deployment_store.go on operations, their targets and
-- steps, on targets and on backups.
mod Reads
unfoldable pub use Reads.*
use Prim.Native.String.{compare as compare_text}
use Prim.Native.Nat.{Ordering}
use server_cli.Common.{
  ℕ, String, str_eq, Bool, true, false, not, ◌&&◌, ◌||◌, if◌then◌else◌, Option, none, some, List,
  [], ◌∷◌, ◌++◌, stamp_before, ◌==◌, find_row, select_rows, update_rows, is_some, conflict,
  constraint, Result, ok, err, ◌>>=◌,
}
use server_cli.Deploy.Model.{
  Status, queued, running, awaiting_confirmation, Feature, Release, Target, Operation,
  OperationTarget, Step, Backup, SecretReference, DeployDb,
}

-- An INSERT of an operation is refused on a taken id or a second active one of the feature.
unfoldable pub insert_operation : DeployDb → Operation → Result DeployDb
insert_operation db o =
    if is_some (operation_by_id db o.id)
      || (is_active o.status && is_some (active_operation db o.feature_id))
    then err conflict
    else ok (record db { operations = db.operations ++ o ∷ [] })

abbrev pub same_target : OperationTarget → OperationTarget → Bool
same_target t r = str_eq r.operation_id t.operation_id && str_eq r.target_id t.target_id

abbrev pub holds_same_node : OperationTarget → OperationTarget → Bool
holds_same_node t r = str_eq r.node_id t.node_id && holds_node r.status

-- An INSERT of an operation target is refused on a taken id, a second row for the target, or a
-- node that another queued or running row holds.
unfoldable pub insert_op_target :
    List OperationTarget → OperationTarget → Result (List OperationTarget)
insert_op_target rows t =
    if is_some (find_row (λ r. str_eq (op_target_key r) t.id) rows)
      || is_some (find_row (same_target t) rows)
      || (holds_node t.status && is_some (find_row (holds_same_node t) rows))
    then err conflict
    else ok (rows ++ t ∷ [])

unfoldable pub insert_op_targets :
    List OperationTarget → List OperationTarget → Result (List OperationTarget)
insert_op_targets [] rows = ok rows
insert_op_targets (t ∷ ts) rows = insert_op_target rows t >>= insert_op_targets ts

unfoldable pub insert_step : List Step → Step → Result (List Step)
insert_step rows s =
    if is_some (find_row (λ r. str_eq (step_key r) s.id) rows)
    then err constraint
    else ok (rows ++ s ∷ [])

unfoldable pub insert_steps : List Step → List Step → Result (List Step)
insert_steps [] rows = ok rows
insert_steps (s ∷ ss) rows = insert_step rows s >>= insert_steps ss

-- CreateDeploymentOperationBundle: all rows or none.
unfoldable pub create_bundle :
    DeployDb → Operation → List OperationTarget → List Step → Result DeployDb
create_bundle db o ts ss = insert_operation db o >>= λ with_op.
    insert_op_targets ts with_op.op_targets >>= λ rows.
    insert_steps ss with_op.steps >>= λ step_rows.
    ok (record with_op { op_targets = rows; steps = step_rows })

-- CreateDeploymentStep.
unfoldable pub create_step_row : DeployDb → Step → Result DeployDb
create_step_row db s = insert_step db.steps s >>= λ rows. ok (record db { steps = rows })

-- The columns that UpdateDeploymentOperation writes.
abbrev pub write_operation : Operation → Operation → Operation
write_operation o r = record r {
  action = o.action;
  release_id = o.release_id;
  status = o.status;
  requested_by = o.requested_by;
  reason = o.reason;
  environment_id = o.environment_id;
  frozen_config_hash = o.frozen_config_hash;
  backup_id = o.backup_id;
  force_delete = o.force_delete;
  started_at = o.started_at;
  finished_at = o.finished_at;
}

-- Would the row, made active, be the second active one of its feature?
unfoldable pub clashes : DeployDb → Operation → Bool
clashes db o =
    is_active o.status
    && is_some (operation_by_id db o.id)
    && is_some (
        find_row (λ r. not (str_eq (operation_key r) o.id) && active_for o.feature_id r)
          db.operations)

-- UpdateDeploymentOperation; `none` where the index refuses it.
unfoldable pub update_operation : DeployDb → Operation → Option DeployDb
update_operation db o =
    if clashes db o
    then none
    else some (record db {
      operations =
          update_rows (λ r. str_eq (operation_key r) o.id) (write_operation o) db.operations;
    })

-- The columns that UpdateDeploymentOperationTarget writes.
abbrev pub write_op_target : OperationTarget → OperationTarget → OperationTarget
write_op_target t r = record r {
  status = t.status;
  desired_release_id = t.desired_release_id;
  frozen_config_hash = t.frozen_config_hash;
  frozen_secret_hash = t.frozen_secret_hash;
  error_message = t.error_message;
  finished_at = t.finished_at;
}

unfoldable pub node_clashes : DeployDb → OperationTarget → Bool
node_clashes db t =
    holds_node t.status
    && is_some (find_row (λ r. str_eq (op_target_key r) t.id) db.op_targets)
    && is_some
        (find_row (λ r. not (str_eq (op_target_key r) t.id) && holds_same_node t r) db.op_targets)

-- UpdateDeploymentOperationTarget; `none` where the index refuses it.
unfoldable pub update_op_target : DeployDb → OperationTarget → Option DeployDb
update_op_target db t =
    if node_clashes db t
    then none
    else some (record db {
      op_targets =
          update_rows (λ r. str_eq (op_target_key r) t.id) (write_op_target t) db.op_targets;
    })

-- UpdateDeploymentTarget.
unfoldable pub update_target : DeployDb → Target → DeployDb
update_target db t = record db {
  targets =
      update_rows (λ r. str_eq (target_key r) t.id)
        (λ r. record r {
          config_profile_id = t.config_profile_id;
          desired_release_id = t.desired_release_id;
          current_release_id = t.current_release_id;
          last_healthy_release_id = t.last_healthy_release_id;
          actual_status = t.actual_status;
          last_health_check_at = t.last_health_check_at;
          config_revision = t.config_revision;
          enabled = t.enabled;
        })
        db.targets;
}

-- UpdateDeploymentStep.
unfoldable pub update_step : DeployDb → Step → DeployDb
update_step db s = record db {
  steps =
      update_rows (λ r. str_eq (step_key r) s.id)
        (λ r. record r {
          status = s.status;
          command_id = s.command_id;
          task_id = s.task_id;
          message = s.message;
          started_at = s.started_at;
          finished_at = s.finished_at;
        })
        db.steps;
}

-- CreateDeploymentBackup; a taken id refuses it.
unfoldable pub create_backup : DeployDb → Backup → Option DeployDb
create_backup db b =
    if is_some (backup_by_id db b.id)
    then none
    else some (record db { backups = db.backups ++ b ∷ [] })

-- ORDER BY created_at, id.
unfoldable pub created_before : Operation → Operation → Bool
created_before o p =
    stamp_before o.created_at p.created_at
    || (o.created_at == p.created_at
        && (elim (compare_text o.id p.id) [ Ordering.lt ↦ true | _ ↦ false ]))

unfoldable pub next_queued : List Operation → Option Operation
next_queued [] = none
next_queued (o ∷ os) =
    let later = next_queued os in
    if is_queued o.status
    then elim later [ none ↦ some o | some p ↦ if created_before p o then some p else some o ]
    else later

abbrev pub as_running : ℕ → Operation → Operation
as_running now o = record o { status = running; started_at = some now }

-- ClaimQueuedDeploymentOperation: one UPDATE, so no other connection comes in between.
unfoldable pub claim_queued : DeployDb → ℕ → DeployDb × Option Operation
claim_queued db now = elim (next_queued db.operations) [
  | none ↦ (db, none)
  | some o ↦
      let db' = record db {
        operations =
            update_rows (λ r. str_eq (operation_key r) o.id) (as_running now) db.operations;
      } in
      (db', operation_by_id db' o.id)
]
