-- ===== src/Deploy/Service.antt =====
-- The administrator's side of backend/internal/service/deployment_ops.go: operations created,
-- continued and cancelled. A handler takes the database and returns it with its result.
mod Checks
unfoldable pub use Checks.*
use server_cli.Common.{
  ℕ, ◌+◌, ◌*◌, String, str_eq, Bool, true, false, not, ◌&&◌, ◌||◌, if◌then◌else◌, Option, none,
  some, List, [], ◌∷◌, map, select_rows, is_some, not_found, bad_request, conflict, offline,
  terminal, constraint, Result, ok, err, ◌>>=◌, ◌>>◌, guard, or_fail, suc,
}
use server_cli.Task.Model.{Node, NodeStatus, Env}
use server_cli.Task.Service.{node_by_id, cancel_task, is_unreachable}
use server_cli.Task.Model as TaskModel
use server_cli.Task.Store.{task_by_id}
use server_cli.Deploy.Model.{
  Action, install, update, rollback, restore, Status, queued, running, awaiting_confirmation,
  succeeded, partial_failed, failed, cancelled, is_terminal, Target, Operation, OperationTarget,
  Step, Backup, DeployDb, DeployExternal,
}
use server_cli.Deploy.Store.{
  feature_by_id, release_by_id, target_by_id, targets_by_feature, operation_by_id, backup_by_id,
  op_targets_of, steps_of, active_operation, create_bundle, update_operation, update_op_target,
}
use server_cli.Deploy.Freeze.{secret_refs, canonical_refs_hash}

module _ {Args : Type 0} (ext : DeployExternal Args) where
  -- The row of a checked target, its configuration and secret references frozen. The
  -- operation's identifier is the call's first; each target draws one and one for its step.
  unfoldable pub freeze_target :
      DeployDb → Env → CreateOperationInput → ℕ → Target → Result OperationTarget
  freeze_target db env inp k t = do
    cfg ← or_fail (ext.resolve_config db inp.feature_id t) constraint
    ok (record {
      id = env.new_id (1 + 2 * k);
      operation_id = env.new_id 0;
      target_id = t.id;
      node_id = t.node_id;
      status = queued;
      desired_release_id = inp.release_id;
      frozen_config_hash = cfg;
      frozen_secret_hash = canonical_refs_hash ext (secret_refs db inp.feature_id t.node_id);
      error_message = "";
      finished_at = none;
    })

  unfoldable pub freeze_targets :
      DeployDb
      → Env
      → CreateOperationInput
      → ℕ
      → List (Target × Node)
      → Result (List OperationTarget)
  freeze_targets db env inp k [] = ok []
  freeze_targets db env inp k ((t, n) ∷ cs) = freeze_target db env inp k t >>= λ row.
      freeze_targets db env inp (suc k) cs >>= λ rows. ok (row ∷ rows)

  abbrev pub preflight_step : Env → ℕ → OperationTarget → Step
  preflight_step env k t = record {
    id = env.new_id (2 + 2 * k);
    operation_id = t.operation_id;
    operation_target_id = t.id;
    node_id = t.node_id;
    step_type = "preflight";
    status = queued;
    command_id = "";
    task_id = "";
    message = "";
    started_at = none;
    finished_at = none;
  }

  unfoldable pub preflight_steps : Env → ℕ → List OperationTarget → List Step
  preflight_steps env k [] = []
  preflight_steps env k (t ∷ ts) = preflight_step env k t ∷ preflight_steps env (suc k) ts

  abbrev pub first_status : Action → Status
  first_status a =
      if ext.is_production && needs_confirmation a then awaiting_confirmation else queued

  -- The checks of the request by itself.
  unfoldable pub check_request : CreateOperationInput → Result Action
  check_request inp = do
    action ← or_fail inp.action bad_request
    guard (not (str_eq inp.feature_id "")) bad_request
    guard (not (requires_release action && str_eq inp.release_id "")) bad_request
    guard (not (is_restore action && str_eq inp.backup_id "")) bad_request
    guard (not (ext.is_production && str_eq (ext.redact inp.reason) "")) bad_request
    ok action

  -- The checks against the rows, up to the feature's active operation.
  unfoldable pub check_rows : DeployDb → CreateOperationInput → Action → Result (Option Backup)
  check_rows db inp action = do
    f ← or_fail (feature_by_id db inp.feature_id) not_found
    check_release db inp
    guard (not (is_empty (resolve_targets db inp))) bad_request
    b ← restore_backup db action inp
    guard (not (is_some (active_operation db inp.feature_id))) conflict
    ok b

  abbrev pub new_operation :
      Env
      → String
      → CreateOperationInput
      → Action
      → List (Target × Node)
      → List OperationTarget
      → Operation
  new_operation env actor_id inp action checked rows = record {
    id = env.new_id 0;
    action = action;
    feature_id = inp.feature_id;
    release_id = inp.release_id;
    status = first_status action;
    requested_by = actor_id;
    reason = ext.redact inp.reason;
    environment_id = environment_of "" "" checked;
    frozen_config_hash = first_hash rows;
    backup_id = inp.backup_id;
    force_delete = inp.force_delete;
    created_at = env.now;
    started_at = none;
    finished_at = none;
  }

  -- The operation on the targets once they are checked and frozen.
  unfoldable pub plan_targets :
      DeployDb
      → Env
      → String
      → CreateOperationInput
      → Action
      → Option Backup
      → Result (Operation × List OperationTarget)
  plan_targets db env actor_id inp action b = do
    checked ← check_targets db inp b (resolve_targets db inp)
    rows ← freeze_targets db env inp 0 checked
    ok (new_operation env actor_id inp action checked rows, rows)

  -- The operation that CreateOperation writes, with its targets.
  unfoldable pub plan_operation :
      DeployDb → Env → String → CreateOperationInput → Result (Operation × List OperationTarget)
  plan_operation db env actor_id inp = do
    action ← check_request inp
    b ← check_rows db inp action
    plan_targets db env actor_id inp action b

  -- CreateOperation.
  unfoldable pub create_operation :
      DeployDb → Env → String → CreateOperationInput → DeployDb × Result Operation
  create_operation db env actor_id inp = elim (plan_operation db env actor_id inp) [
    | err e ↦ (db, err e)
    | ok (o, ts) ↦ elim (create_bundle db o ts (preflight_steps env 0 ts)) [
      | err e ↦ (db, err e)
      | ok db' ↦ (db', ok o)
    ]
  ]

  -- The operations that can be cancelled.
  abbrev pub is_cancellable : Status → Bool
  is_cancellable queued = true
  is_cancellable running = true
  is_cancellable awaiting_confirmation = true
  is_cancellable partial_failed = true
  is_cancellable _ = false

  abbrev pub cancelled_target : ℕ → OperationTarget → OperationTarget
  cancelled_target now t = record t { status = cancelled; finished_at = some now }

  -- A target that has not ended is written with an ended status, which no index refuses.
  unfoldable pub cancel_one : DeployDb → ℕ → OperationTarget → DeployDb
  cancel_one db now t =
      if is_terminal t.status
      then db
      else elim (update_op_target db (cancelled_target now t)) [ none ↦ db | some db' ↦ db' ]

  -- The loop over the targets read.
  unfoldable pub cancel_targets : DeployDb → ℕ → List OperationTarget → DeployDb
  cancel_targets db now [] = db
  cancel_targets db now (t ∷ ts) = cancel_targets (cancel_one db now t) now ts

  -- CancelTask is called for a task that is there and not ended.
  unfoldable pub cancel_step_task : DeployDb → Env → String → String → DeployDb
  cancel_step_task db env actor_id id = elim (task_by_id db.core id) [
    | none ↦ db
    | some t ↦
        if TaskModel.is_terminal t.status
        then db
        else record db { core = (cancel_task db.core env "" id "admin" actor_id).0 }
  ]

  -- The loop over the steps read, each task once.
  unfoldable pub cancel_tasks : DeployDb → Env → String → List String → List Step → DeployDb
  cancel_tasks db env actor_id seen [] = db
  cancel_tasks db env actor_id seen (s ∷ ss) =
      let again = str_eq s.task_id "" || is_listed s.task_id seen in
      cancel_tasks (if again then db else cancel_step_task db env actor_id s.task_id) env actor_id
        (if again then seen else s.task_id ∷ seen) ss

  abbrev pub cancelled_operation : Env → String → Operation → Operation
  cancelled_operation env reason o = record o {
    status = cancelled;
    reason = ext.redact reason;
    finished_at = some env.now;
  }

  -- The targets of a cancelled operation, then the tasks of its steps.
  unfoldable pub cancel_work : DeployDb → Env → String → String → DeployDb
  cancel_work db env actor_id id =
      let db1 = cancel_targets db env.now (op_targets_of db id) in
      cancel_tasks db1 env actor_id [] (steps_of db1 id)

  -- CancelOperation.
  unfoldable pub cancel_operation :
      DeployDb → Env → String → String → String → DeployDb × Result Operation
  cancel_operation db env actor_id id reason = elim (operation_by_id db id) [
    | none ↦ (db, err not_found)
    | some o ↦
        if not (is_cancellable o.status)
        then (db, err terminal)
        else elim (update_operation db (cancelled_operation env reason o)) [
          | none ↦ (db, err constraint)
          | some db1 ↦ (cancel_work db1 env actor_id o.id, ok (cancelled_operation env reason o))
        ]
  ]

abbrev pub is_continuable : Status → Bool
is_continuable awaiting_confirmation = true
is_continuable failed = true
is_continuable partial_failed = true
is_continuable _ = false

unfoldable pub has_pending : List OperationTarget → Bool
has_pending [] = false
has_pending (t ∷ ts) = not (is_terminal t.status) || has_pending ts

-- ContinueOperation.
unfoldable pub continue_operation : DeployDb → String → DeployDb × Result Operation
continue_operation db id = elim (operation_by_id db id) [
  | none ↦ (db, err not_found)
  | some o ↦
      if not (is_continuable o.status) || not (has_pending (op_targets_of db o.id))
      then (db, err terminal)
      else let o' = record o { status = queued; finished_at = none } in
        elim (update_operation db o') [ none ↦ (db, err constraint) | some db' ↦ (db', ok o') ]
]
