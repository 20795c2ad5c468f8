-- ===== src/Deploy/Scheduler/Counts.antt =====
-- What executeOperation of backend/internal/service/deployment_scheduler.go counts, and the final
-- status that the counts call for.
use server_cli.Common.{
  ℕ, ◌+◌, String, Bool, true, false, ◌&&◌, ◌||◌, if◌then◌else◌, Option, none, some, ltb, ◌==◌,
  constraint, Result, ok, err,
}
use server_cli.Deploy.Model.{
  Status, succeeded, partial_failed, failed, cancelled, OperationTarget, Step, DeployDb, running,
  queued,
}
use server_cli.Deploy.Exec.{Exec}
use server_cli.Deploy.Store.{operation_by_id, update_operation}
use server_cli.Deploy.Service.{is_succeeded}
use server_cli.Deploy.Steps.{is_cancelled}

-- What the loop over the targets counts, and the rollback that it asks for.
pub record Tally : Type 0 where
  pub succeeded : ℕ
  pub failed : ℕ
  pub terminal_failed : ℕ
  pub cancelled_any : Bool
  pub rollback_target : String
  pub rollback_release : String

abbrev pub no_targets : Tally
no_targets = record {
  succeeded = 0;
  failed = 0;
  terminal_failed = 0;
  cancelled_any = false;
  rollback_target = "";
  rollback_release = "";
}

-- The count of a target that had ended before.
abbrev pub count_ended : Status → Tally → Tally
count_ended s n =
    if is_succeeded s
    then record n { succeeded = n.succeeded + 1 }
    else record n { terminal_failed = n.terminal_failed + 1 }

abbrev pub count_failed : Tally → Tally
count_failed n = record n { failed = n.failed + 1 }

-- The status that the counts call for; `none` where the operation is left running. `current` is
-- the status of the operation's row after the loop.
unfoldable pub final_status : Status → ℕ → Tally → Option Status
final_status current total n =
    if is_cancelled current || n.cancelled_any
    then some cancelled
    else if ltb 0 n.failed || ltb 0 n.terminal_failed
    then some (if ltb 0 n.succeeded then partial_failed else failed)
    else if (n.succeeded == total) && ltb 0 n.succeeded
    then some succeeded
    else none

-- The row's status, "running" where the row is gone.
unfoldable pub current_status : DeployDb → String → Status
current_status db id = elim (operation_by_id db id) [ none ↦ running | some o ↦ o.status ]

-- finishOperation.
unfoldable pub finish_operation : Exec → Status → Exec × Result (Unit {0})
finish_operation x s =
    let o = record x.op { status = s; finished_at = some x.now } in
    elim (update_operation x.db o) [
      | none ↦ (record x { op = o }, err constraint)
      | some db ↦ (record x { db = db; op = o }, ok tt)
    ]

abbrev pub is_failed : Status → Bool
is_failed failed = true
is_failed _ = false

-- The blank row that stands for a target before the loop has one.
abbrev pub no_target : OperationTarget
no_target = record {
  id = "";
  operation_id = "";
  target_id = "";
  node_id = "";
  status = queued;
  desired_release_id = "";
  frozen_config_hash = "";
  frozen_secret_hash = "";
  error_message = "";
  finished_at = none;
}

abbrev pub no_step : Step
no_step = record {
  id = "";
  operation_id = "";
  operation_target_id = "";
  node_id = "";
  step_type = "";
  status = queued;
  command_id = "";
  task_id = "";
  message = "";
  started_at = none;
  finished_at = none;
}
