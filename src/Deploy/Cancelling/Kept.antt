-- ===== src/Deploy/Cancelling/Kept.antt =====
-- What CancelOperation does to the targets and the tasks leaves the rows of operations alone
-- (backend/internal/service/deployment_ops.go).
use server_cli.Common.{ℕ, String, str_eq, ◌||◌, if_cases, ◌≡◌, refl, ◌∙◌, List, [], ◌∷◌, arith}
use server_cli.Task.Model.{Env}
use server_cli.Deploy.Model.{OperationTarget, Step, DeployDb, DeployExternal}
use server_cli.Deploy.Store.{op_targets_of, update_op_target, steps_of}
use server_cli.Deploy.Service.{
  is_listed, cancel_one, cancel_targets, cancel_step_task, cancel_tasks, cancel_work,
}

module _ {Args : Type 0} (ext : DeployExternal Args) where
  cancel_one_operations :
      (db : DeployDb) (now : ℕ) (t : OperationTarget)
      → (cancel_one ext db now t).operations ≡ db.operations
  unfolding cancel_one update_op_target
  cancel_one_operations db now t = ground arith

  cancel_targets_operations :
      (ts : List OperationTarget) (db : DeployDb) (now : ℕ)
      → (cancel_targets ext db now ts).operations ≡ db.operations
  unfolding cancel_targets
  cancel_targets_operations [] db now = refl
  cancel_targets_operations (t ∷ ts) db now =
      cancel_targets_operations ts (cancel_one ext db now t) now ∙ cancel_one_operations db now t

  cancel_step_task_operations :
      (db : DeployDb) (env : Env) (actor_id id : String)
      → (cancel_step_task ext db env actor_id id).operations ≡ db.operations
  unfolding cancel_step_task
  cancel_step_task_operations db env actor_id id = ground arith

  cancel_tasks_operations :
      (ss : List Step) (db : DeployDb) (env : Env) (actor_id : String) (seen : List String)
      → (cancel_tasks ext db env actor_id seen ss).operations ≡ db.operations
  unfolding cancel_tasks
  cancel_tasks_operations [] db env actor_id seen = refl
  cancel_tasks_operations (s ∷ ss) db env actor_id seen =
      cancel_tasks_operations ss _ env actor_id _
      ∙ if_cases (λ (d : DeployDb). d.operations ≡ db.operations)
          (str_eq s.task_id "" || is_listed s.task_id seen) (λ h. refl)
          (λ h. cancel_step_task_operations db env actor_id s.task_id)

  pub cancel_work_operations :
      (db : DeployDb) (env : Env) (actor_id id : String)
      → (cancel_work ext db env actor_id id).operations ≡ db.operations
  unfolding cancel_work
  cancel_work_operations db env actor_id id =
      let db1 = cancel_targets ext db env.now (op_targets_of db id) in
      cancel_tasks_operations (steps_of db1 id) db1 env actor_id []
      ∙ cancel_targets_operations (op_targets_of db id) db env.now
