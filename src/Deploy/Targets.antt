-- ===== src/Deploy/Targets.antt =====
-- executeTarget of backend/internal/service/deployment_scheduler.go: the steps of an operation on
-- one target, and the target's end.
mod Marks
unfoldable pub use Marks.*
use text.Mathlib.Text.{starts_with}
use server_cli.Common.{
  ℕ, ◌+◌, nonpos, String, str_eq, join, Bool, true, false, not, ◌&&◌, if◌then◌else◌, Option, none,
  some, List, [], ◌∷◌, find_row, update_rows, leb, ltb, Result, ok, err,
}
use server_cli.Task.Model.{External}
use server_cli.Task.Store.{task_by_id}
use server_cli.Deploy.Model.{
  Action, install, update, backup, rollback, health_check, restore, Status, queued, succeeded,
  failed, cancelled, skipped, healthy, Feature, Release, Target, Step, Backup, BackupResult,
  HealthConfig, NodeAddress, ConfigProfile, DeployDb, DeployExternal,
}
use server_cli.Deploy.Exec.{Exec, ◌▷◌}
use server_cli.Deploy.Store.{target_by_id, release_by_id, update_target, create_backup}
use server_cli.Deploy.Steps.{
  command_for, step_name, op_cancelled, create_step, end_step, try_op_target, run_task_step,
}

module _ {Args : Type 0} (ext : DeployExternal Args) (tasks : External Args)
    (ids : ℕ → String) where
  -- failTarget.
  abbrev pub fail_target : String → Exec → Exec
  fail_target msg = end_target failed (ext.sanitize msg)

  -- skipTarget. The step's creation may fail, and is then left out.
  unfoldable pub skip_target : String → Exec → Exec
  skip_target msg x =
      let (x1, made) = create_step ext tasks ids x "skip" "" in
      let x2 : Exec = elim made [ err e ↦ x1 | ok s ↦ end_step ext tasks ids succeeded msg x1 ] in
      try_op_target x2 (record x2.t { status = skipped; finished_at = some x2.now })

  -- The step of a run that broke off fails with the error's text.
  unfoldable pub fail_on_error : Exec × Result (Bool × String) → Exec × Result (Bool × String)
  fail_on_error (x, err e) = (end_step ext tasks ids failed (ext.error_text e) x, err e)
  fail_on_error (x, ok a) = (x, ok a)

  unfoldable pub judge_step : Exec → Bool × String → Exec × Result StepEnd
  judge_step x (true, msg) = (x, ok passed)
  judge_step x (false, msg) =
      let x1 = end_step ext tasks ids failed msg x in
      (x1, ok (if op_cancelled x1.db x1.op.id then interrupted else broken msg))

  -- One task-backed step, from its row to its end.
  unfoldable pub run_step :
      Exec → Feature → Option Release → String → String → Exec × Result StepEnd
  run_step x f r name command_id =
      create_step ext tasks ids x name command_id
      ▷ (λ x1 s. fail_on_error (run_task_step ext tasks ids x1 f r command_id))
      ▷ judge_step

  -- backupObjectKey.
  unfoldable pub backup_object_key : Exec → Feature → String → String
  backup_object_key x f rel =
      if starts_with rel "backups/"
      then rel
      else join (
          "backups/"
          ∷ (if str_eq x.op.environment_id "" then "default" else x.op.environment_id)
          ∷ "/"
          ∷ f.feature_key
          ∷ "/"
          ∷ x.t.node_id
          ∷ "/"
          ∷ ext.date_path x.now
          ∷ "/"
          ∷ x.op.id
          ∷ "/"
          ∷ ext.trim_slash rel
          ∷ [])

  abbrev pub backup_of : Exec → Feature → BackupResult → Backup
  backup_of x f b = record {
    id = ids x.drawn;
    operation_id = x.op.id;
    target_id = x.t.target_id;
    node_id = x.t.node_id;
    feature_id = x.op.feature_id;
    backup_mode = if str_eq b.backup_mode "" then f.backup_mode else b.backup_mode;
    object_key = backup_object_key x f b.object_key;
    size = b.size;
    sha256 = b.sha256;
    status = succeeded;
  }

  -- recordBackupFromTask.
  unfoldable pub record_backup : Exec → Feature → Exec
  record_backup x f = elim (task_by_id x.db.core x.step.task_id) [
    | none ↦ x
    | some t ↦ elim (ext.backup_result t) [
      | none ↦ x
      | some b ↦ if str_eq b.object_key "" then x else elim (create_backup x.db (backup_of x f b)) [
        | none ↦ record x { drawn = x.drawn + 1 }
        | some db ↦ record x { db = db; drawn = x.drawn + 1 }
      ]
    ]
  ]

  -- The planned steps in turn, up to the first that does not pass.
  unfoldable pub run_plan : List Action → Exec → Feature → Option Release → Exec × Result StepEnd
  run_plan [] x f r = (x, ok passed)
  run_plan (a ∷ plan) x f r = run_step x f r (step_name a) (command_for a) ▷ λ x1 e.
      go_on x1 e (run_plan plan (if is_backup a then record_backup x1 f else x1) f r)

  -- targetConfig, of which the port and the path are read.
  unfoldable pub target_config : Exec → Option HealthConfig
  target_config x = elim (target_by_id x.db x.t.target_id) [
    | none ↦ none
    | some tg ↦
        if str_eq tg.config_profile_id ""
        then none
        else elim (find_row (λ (p : ConfigProfile). str_eq p.id tg.config_profile_id)
            x.db.config_profiles) [
              | none ↦ none
              | some p ↦ if str_eq p.content_json "" then none else ext.parse_config p.content_json
            ]
  ]

  -- controlPlaneHealthCheck.
  unfoldable pub control_plane_health : Exec → Bool × String
  control_plane_health x = elim (target_config x) [
    | none ↦ (true, "control plane health check skipped: port not configured")
    | some c ↦
        if nonpos c.port
        then (true, "control plane health check skipped: port not configured")
        else if str_eq (node_address x.db x.t.node_id) ""
        then (false, "control plane health check failed: no node address available")
        else elim (ext.http_get x.now (node_address x.db x.t.node_id) c.port
            (if str_eq c.health_path "" then "/health" else c.health_path)) [
              | none ↦ (false, ext.health_text none)
              | some code ↦ (leb 200 code && ltb code 300, ext.health_text (some code))
            ]
  ]

  -- The probe, and the end of its step.
  unfoldable pub probe : Exec → Step → Exec × Result StepEnd
  probe x s =
      let (healthy_now, msg) = control_plane_health x in
      if healthy_now
      then (end_step ext tasks ids succeeded msg x, ok passed)
      else (end_step ext tasks ids failed msg x, ok (broken msg))

  unfoldable pub probe_after : Exec → StepEnd → Exec × Result StepEnd
  probe_after x passed = create_step ext tasks ids x "control-plane-health" "" ▷ probe
  probe_after x interrupted = (x, ok interrupted)
  probe_after x (broken msg) = (x, ok (broken msg))

  -- The health checks that end an installing operation: the node's task, then the probe.
  unfoldable pub run_health : Exec → Feature → Option Release → Exec × Result StepEnd
  run_health x f r = run_step x f r "health-check" "deployment.health-check" ▷ probe_after

  -- The result of a target that failed its health checks: an update asks for a rollback.
  unfoldable pub health_failed : Exec → TargetResult
  health_failed x =
      if is_update x.op.action
      then elim (target_by_id x.db x.t.target_id) [
        | none ↦ target_failed
        | some tg ↦ record target_failed {
          rollback_target = tg.id;
          rollback_release = tg.last_healthy_release_id;
        }
      ]
      else target_failed

  abbrev pub plan_of : Exec → Feature → List Action
  plan_of x f =
      if is_update x.op.action && has_backup_mode f
      then backup ∷ x.op.action ∷ []
      else x.op.action ∷ []

  unfoldable pub after_health : Exec → StepEnd → Exec × Result TargetResult
  after_health x passed = (succeed_target x, ok target_done)
  after_health x interrupted = (cancel_target x, ok target_interrupted)
  after_health x (broken msg) = (fail_target msg x, ok (health_failed (fail_target msg x)))

  -- What executeTarget does after the plan.
  unfoldable pub after_plan : Feature → Option Release → Exec → StepEnd → Exec × Result TargetResult
  after_plan f r x passed =
      if checks_health x.op.action
      then run_health x f r ▷ after_health
      else (succeed_target x, ok target_done)
  after_plan f r x interrupted = (cancel_target x, ok target_interrupted)
  after_plan f r x (broken msg) = (fail_target msg x, ok target_failed)

  unfoldable pub run_target : Exec → Feature → Option Release → Exec × Result TargetResult
  run_target x f r = run_plan (plan_of x f) x f r ▷ after_plan f r

  unfoldable pub run_unless_skipped : Exec → Feature → Option Release → Exec × Result TargetResult
  run_unless_skipped x f r = elim (skips x) [
    | some reason ↦ (skip_target reason x, ok target_done)
    | none ↦ run_target x f r
  ]

  -- executeTarget.
  unfoldable pub execute_target : Exec → Feature → Option Release → Exec × Result TargetResult
  execute_target x0 f r0 =
      let x = mark_preflight_done x0 in
      let r = release_for x r0 in
      if lacks_release x r
      then (fail_target "no current release installed; cannot run health-check" x, ok target_failed)
      else run_unless_skipped x f r
