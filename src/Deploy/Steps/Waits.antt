-- ===== src/Deploy/Steps/Waits.antt =====
-- What a step of the scheduler of backend/internal/service/deployment_scheduler.go reads: its command,
-- the state of its task, and the waits for the task's end.
use Prim.Native.String.{compare as compare_text}
use Prim.Native.Nat.{Ordering}
use server_cli.Common.{
  ℕ, String, str_eq, Bool, true, false, ◌&&◌, if◌then◌else◌, Option, none, some, List, [], ◌∷◌,
  overdue, not_found, Result, ok, err,
}
use server_cli.Task.Model as TaskModel
use server_cli.Task.Model.{Task, NodeCommand, External, Env}
use server_cli.Task.Store.{task_by_id}
use server_cli.Deploy.Model.{
  Action, install, update, backup, rollback, health_check, restore, Status, cancelled, Operation,
  OperationTarget, DeployDb,
}
use server_cli.Deploy.Exec.{Round, Exec}
use server_cli.Deploy.Store.{operation_by_id, update_operation, update_op_target}

-- commandForAction.
abbrev pub command_for : Action → String
command_for install = "deployment.install"
command_for update = "deployment.update"
command_for backup = "deployment.backup"
command_for rollback = "deployment.rollback"
command_for health_check = "deployment.health-check"
command_for restore = "deployment.restore"

-- The step type of a planned action; only the health check's is spelled otherwise.
abbrev pub step_name : Action → String
step_name install = "install"
step_name update = "update"
step_name backup = "backup"
step_name rollback = "rollback"
step_name health_check = "health-check"
step_name restore = "restore"

abbrev pub task_status_text : TaskModel.Status → String
task_status_text TaskModel.Status.queued = "queued"
task_status_text TaskModel.Status.dispatched = "dispatched"
task_status_text TaskModel.Status.running = "running"
task_status_text TaskModel.Status.succeeded = "succeeded"
task_status_text TaskModel.Status.failed = "failed"
task_status_text TaskModel.Status.timed_out = "timed_out"
task_status_text TaskModel.Status.cancelled = "cancelled"
task_status_text TaskModel.Status.node_unreachable = "node_unreachable"
task_status_text TaskModel.Status.result_unknown = "result_unknown"

abbrev pub task_succeeded : TaskModel.Status → Bool
task_succeeded TaskModel.Status.succeeded = true
task_succeeded _ = false

abbrev pub is_cancelled : Status → Bool
is_cancelled cancelled = true
is_cancelled _ = false

abbrev pub or_else : Option ℕ → ℕ → Option ℕ
or_else none n = some n
or_else (some m) n = some m

-- resolveCommand: the node's enabled command of the latest version, the first of equal ones.
unfoldable pub newest_command :
    String → String → Option NodeCommand → List NodeCommand → Option NodeCommand
newest_command node_id id best [] = best
newest_command node_id id best (c ∷ cs) =
    newest_command node_id id
      (if str_eq c.node_id node_id && str_eq c.command_id id && c.enabled
        then elim best [
          | none ↦ some c
          | some b ↦ elim (compare_text c.command_version b.command_version) [
            | Ordering.gt ↦ some c
            | _ ↦ some b
          ]
        ]
        else best)
      cs

-- Has the operation's row been cancelled?
unfoldable pub op_cancelled : DeployDb → String → Bool
op_cancelled db id = elim (operation_by_id db id) [ none ↦ false | some o ↦ is_cancelled o.status ]

abbrev pub wait : Exec → Round → Exec
wait x r = record x { db = r.commit x.db; now = r.later }

-- pollTask: each round reads the task, and waits if it has not ended. Past the last wait the
-- deadline has passed.
unfoldable pub poll_rounds : Exec → String → List Round → Exec × Result Task
poll_rounds x id [] = elim (task_by_id x.db.core id) [
  | none ↦ (x, err not_found)
  | some t ↦ if TaskModel.is_terminal t.status then (x, ok t) else (x, err overdue)
]
poll_rounds x id (r ∷ rs) = elim (task_by_id x.db.core id) [
  | none ↦ (x, err not_found)
  | some t ↦ elim (TaskModel.is_terminal t.status) [
    | true ↦ (x, ok t)
    | false ↦ poll_rounds (wait x r) id rs
  ]
]

unfoldable pub poll_with : List (List Round) → Exec → String → Exec × Result Task
poll_with [] x id = poll_rounds x id []
poll_with (rs ∷ polls) x id = poll_rounds (record x { polls = polls }) id rs

unfoldable pub poll_task : Exec → String → Exec × Result Task
poll_task x id = poll_with x.polls x id

-- A write whose refusal is only logged.
unfoldable pub try_operation : Exec → Operation → Exec
try_operation x o = elim (update_operation x.db o) [
  | none ↦ record x { op = o }
  | some db ↦ record x { db = db; op = o }
]

unfoldable pub try_op_target : Exec → OperationTarget → Exec
try_op_target x t = elim (update_op_target x.db t) [
  | none ↦ record x { t = t }
  | some db ↦ record x { db = db; t = t }
]
