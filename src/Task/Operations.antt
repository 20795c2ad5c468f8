-- ===== src/Task/Operations.antt =====
-- Every operation of the task service and of the task store that changes a task row, as one step
-- on the database, and histories as sequences of them. A claim is uncontested here: the steps are
-- what the database runs one after another.
use server_cli.Common.{ℕ, String, List, [], ◌∷◌}
use server_cli.Task.Model.{Db, Env, External}
use server_cli.Task.Store.{queue_tasks_for_retry}
use server_cli.Task.Service.{CreateTaskInput, create_task, cancel_task}
use server_cli.Task.Dispatch.{poll_task}
use server_cli.Task.Agent.{EventInput, ResultInput, record_event, record_result}

pub data Operation (Args : Type 0) : Type 0 where
  creates : Env → String → String → String → String → CreateTaskInput Args → Operation Args
  cancels : Env → String → String → String → String → Operation Args
  polls : Env → String → Operation Args
  reports : Env → String → String → EventInput → Operation Args
  concludes : Env → String → String → ResultInput → Operation Args
  sweeps : String → ℕ → Operation Args

module _ {Args : Type 0} (ext : External Args) where
  unfoldable pub step : Db → Operation Args → Db
  step db (creates env node_id requested_by actor_type key inp) =
      (create_task ext db env node_id requested_by actor_type key inp).0
  step db (cancels env scope id actor_type actor_id) =
      (cancel_task db env scope id actor_type actor_id).0
  step db (polls env node_id) = (poll_task ext db env node_id []).0
  step db (reports env node_id task_id inp) = (record_event ext db env node_id task_id inp).0
  step db (concludes env node_id task_id inp) = (record_result ext db env node_id task_id inp).0
  step db (sweeps node_id before) = (queue_tasks_for_retry db node_id before).0

  unfoldable pub run : Db → List (Operation Args) → Db
  run db [] = db
  run db (o ∷ os) = run (step db o) os
