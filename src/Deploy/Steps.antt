-- ===== src/Deploy/Steps.antt =====
-- One step of the scheduler of backend/internal/service/deployment_scheduler.go on one target: its
-- row, its agent task, the arguments of the task and the wait for its end.
mod Waits
unfoldable pub use Waits.*
use Prim.Native.String.{compare as compare_text}
use Prim.Native.Nat.{Ordering}
use server_cli.Common.{
  ℕ, ◌+◌, String, str_eq, join, Bool, true, false, not, ◌&&◌, ◌||◌, if◌then◌else◌, Option, none,
  some, List, [], ◌∷◌, overdue, not_found, Result, ok, err,
}
use server_cli.Task.Model as TaskModel
use server_cli.Task.Model.{Task, NodeCommand, External, Env}
use server_cli.Task.Service.{create_task}
use server_cli.Task.Store.{task_by_id}
use server_cli.Deploy.Model.{
  Action, install, update, backup, rollback, health_check, restore, Status, queued, running,
  succeeded, failed, cancelled, Feature, Release, Operation, OperationTarget, Step, TaskArguments,
  BackupArguments, SecretReference, DeployDb, DeployExternal,
}
use server_cli.Deploy.Exec.{Round, Exec, ◌▷◌}
use server_cli.Deploy.Store.{
  target_by_id, operation_by_id, backup_by_id, create_step_row, update_operation, update_op_target,
  update_step,
}
use server_cli.Deploy.Service.{is_restore}
use server_cli.Deploy.Freeze.{secret_refs, canonical_refs_hash}

module _ {Args : Type 0} (ext : DeployExternal Args) (tasks : External Args)
    (ids : ℕ → String) where
  abbrev pub new_step : Exec → String → String → Step
  new_step x step_type command_id = record {
    id = ids x.drawn;
    operation_id = x.op.id;
    operation_target_id = x.t.id;
    node_id = x.t.node_id;
    step_type = step_type;
    status = queued;
    command_id = command_id;
    task_id = "";
    message = "";
    started_at = none;
    finished_at = none;
  }

  -- createStep.
  unfoldable pub create_step : Exec → String → String → Exec × Result Step
  create_step x step_type command_id =
      let s = new_step x step_type command_id in
      elim (create_step_row x.db s) [
        | err e ↦ (record x { drawn = x.drawn + 1 }, err e)
        | ok db ↦ (record x { db = db; drawn = x.drawn + 1; step = s }, ok s)
      ]

  -- markStepOK and failStep, which differ in the status.
  unfoldable pub end_step : Status → String → Exec → Exec
  end_step status msg x =
      let s = record x.step {
        status = status;
        message = ext.sanitize msg;
        started_at = or_else x.step.started_at x.now;
        finished_at = some x.now;
      } in
      record x { db = update_step x.db s; step = s }

  abbrev pub save_step : Exec → Step → Exec
  save_step x s = record x { db = update_step x.db s; step = s }

  abbrev pub frozen_config_hash : Exec → String
  frozen_config_hash x =
      if str_eq x.op.frozen_config_hash "" then x.t.frozen_config_hash else x.op.frozen_config_hash

  -- freezeConfigHash.
  unfoldable pub freeze_config_hash : Exec → Exec × String
  freeze_config_hash x =
      if not (str_eq (frozen_config_hash x) "")
      then (x, frozen_config_hash x)
      else elim (target_by_id x.db x.t.target_id) [
        | none ↦ (x, "")
        | some tg ↦ elim (ext.resolve_config x.db x.op.feature_id tg) [
          | none ↦ (x, "")
          | some hash ↦ if str_eq hash "" then (x, "") else (
            try_op_target (try_operation x (record x.op { frozen_config_hash = hash }))
                (record x.t { frozen_config_hash = hash }),
            hash,
          )
        ]
      ]

  abbrev pub backup_arguments : DeployDb → Operation → Option BackupArguments
  backup_arguments db o =
      if not (is_restore o.action) || str_eq o.backup_id ""
      then none
      else elim (backup_by_id db o.backup_id) [
        | none ↦ none
        | some b ↦ some (record {
          backup_id = b.id;
          backup_object_key = b.object_key;
          backup_sha256 = b.sha256;
          backup_size = b.size;
        })
      ]

  abbrev pub version_of : Option Release → Option String
  version_of none = none
  version_of (some r) = some r.version

  abbrev pub task_record :
      Exec → Feature → Option Release → String → List SecretReference → TaskArguments
  task_record x f r hash refs = record {
    operation_id = x.op.id;
    target_id = x.t.id;
    release_id = x.op.release_id;
    feature_key = f.feature_key;
    node_id = x.t.node_id;
    config_hash = hash;
    release_version = version_of r;
    restore_from = backup_arguments x.db x.op;
    force_delete = if is_restore x.op.action then some x.op.force_delete else none;
    secret_refs = refs;
  }

  -- taskArguments; `none` where the secret references are not those that were frozen.
  unfoldable pub task_arguments : Exec → Feature → Option Release → Exec × Option TaskArguments
  task_arguments x0 f r =
      let (x, hash) = freeze_config_hash x0 in
      let refs = secret_refs x.db x.op.feature_id x.t.node_id in
      let refs_hash = canonical_refs_hash ext refs in
      let args = task_record x f r hash refs in
      if str_eq x.t.frozen_secret_hash ""
      then (try_op_target x (record x.t { frozen_secret_hash = refs_hash }), some args)
      else if ext.equal_fold x.t.frozen_secret_hash refs_hash
      then (x, some args)
      else (x, none)

  -- What runTaskStep makes of the ended task.
  unfoldable pub judge_task : Exec → Task → Exec × Result (Bool × String)
  judge_task x t =
      if task_succeeded t.status
      then (end_step succeeded "ok" x, ok (true, ""))
      else let msg =
          if str_eq t.error_message ""
          then join ("deployment task " ∷ task_status_text t.status ∷ [])
          else t.error_message in
        (end_step failed msg x, ok (false, ext.sanitize msg))

  -- What runTaskStep does once the arguments are there.
  unfoldable pub run_task : Exec → NodeCommand → TaskArguments → Exec × Result (Bool × String)
  run_task x cmd args =
      let (core, made) =
        create_task tasks x.db.core (record { now = x.now; new_id = λ i. ids (x.drawn + i) })
          x.t.node_id (join ("deployment:" ∷ x.op.id ∷ [])) "system"
          (join (x.op.id ∷ "-" ∷ x.t.id ∷ "-" ∷ x.step.step_type ∷ []))
          (record {
            command_id = cmd.command_id;
            command_version = cmd.command_version;
            arguments = ext.arguments args;
            timeout_seconds = cmd.timeout_seconds;
          }) in
      (record x { db = record x.db { core = core }; drawn = x.drawn + 2 }, made)
      ▷ (λ x1 t. poll_task (save_step x1 (record x1.step { task_id = t.id })) t.id)
      ▷ judge_task

  unfoldable pub run_with :
      NodeCommand → Exec × Option TaskArguments → Exec × Result (Bool × String)
  run_with cmd (x, none) = (x, ok (false, ext.sanitize "secret references changed after freeze"))
  run_with cmd (x, some args) = run_task x cmd args

  -- runTaskStep: did the step pass, and with what message not?
  unfoldable pub run_task_step :
      Exec → Feature → Option Release → String → Exec × Result (Bool × String)
  run_task_step x f r command_id =
      elim (newest_command x.t.node_id command_id none x.db.core.commands) [
        | none ↦ (x, ok (false, join ("agent command missing: " ∷ command_id ∷ [])))
        | some cmd ↦
            let x1 = save_step x (record x.step {
              status = running;
              command_id = command_id;
              started_at = some x.now;
            }) in
            run_with cmd (task_arguments x1 f r)
      ]
