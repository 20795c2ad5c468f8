-- ===== src/Deploy/Works.antt =====
-- What the scheduler's work on one target leaves as it was: the row that it works on aside, what
-- has ended stays as it ended, whatever others commit during its waits.
mod Waiting
pub use Waiting.*
use server_cli.Common.{
  ℕ, String, str_eq, str_eq_refl, Bool, true, false, not, if_cases, ◌≡◌, refl, sym, ap, subst, ◌∙◌,
  Option, none, some, Option-cases, inl, inr, List, [], ◌∷◌, All, arith, Result, ok, err,
  Result-cases,
}
use server_cli.Task.Model as TaskModel
use server_cli.Task.Model.{Task, NodeCommand, External}
use server_cli.Task.Store.{task_by_id}
use server_cli.Deploy.Model.{
  Status, running, Feature, Release, Operation, OperationTarget, Step, TaskArguments, DeployDb,
  DeployExternal,
}
use server_cli.Deploy.Store.{
  update_operation, update_op_target, create_step_row, insert_step, update_step, target_by_id,
}
use server_cli.Deploy.Service.{is_listed}
use server_cli.Deploy.Exec.{Round, Exec, ◌▷◌}
use server_cli.Deploy.Steps.{
  wait, poll_rounds, poll_with, poll_task, try_operation, try_op_target, create_step, end_step,
  save_step, new_step, frozen_config_hash, task_succeeded, freeze_config_hash, task_arguments,
  judge_task, run_task, run_with, run_task_step, newest_command,
}
use server_cli.Deploy.Rows.{
  TargetsGrow, TargetsGrow-refl, TargetsGrow-trans, TargetsGrow-widen, update_op_target-Grow,
  same_operations,
}

module _ {Args : Type 0} (ext : DeployExternal Args) (tasks : External Args)
    (ids : ℕ → String) where
  create_step_row_targets :
      (db db' : DeployDb) (s : Step)
      → create_step_row db s ≡ ok db'
      → db'.op_targets ≡ db.op_targets
  unfolding create_step_row insert_step
  create_step_row_targets db db' s h = ground arith

  create_step_row_operations :
      (db db' : DeployDb) (s : Step)
      → create_step_row db s ≡ ok db'
      → db'.operations ≡ db.operations
  unfolding create_step_row insert_step
  create_step_row_operations db db' s h = ground arith

  pub create_step-Works :
      (x : Exec) (name command_id : String)
      → Works x (create_step ext tasks ids x name command_id).0
  unfolding create_step
  create_step-Works x name command_id =
      elim (Result-cases (create_step_row x.db (new_step ext tasks ids x name command_id))) [
        | inl (e, h) ↦ rw (h, create_step) (quiet x _ refl refl refl refl refl (λ id h. h))
        | inr (db, h) ↦
            rw (h, create_step)
              (quiet x _ refl refl refl refl (create_step_row_targets x.db db _ h) (
                same_operations x.db.operations db.operations
                  (create_step_row_operations x.db db _ h)))
      ]

  pub end_step-Works :
      (x : Exec) (s : Status) (msg : String) → Works x (end_step ext tasks ids s msg x)
  unfolding end_step update_step
  end_step-Works x s msg = quiet x _ refl refl refl refl refl (λ id h. h)

  freeze_config_hash-Works : (x : Exec) → Works x (freeze_config_hash ext tasks ids x).0
  unfolding freeze_config_hash
  freeze_config_hash-Works x =
      if_cases (λ (m : Exec × String). Works x m.0)
        (not (str_eq (frozen_config_hash ext tasks ids x) "")) (λ h. Works-refl x)
        (λ h. elim (Option-cases (target_by_id x.db x.t.target_id)) [
          | inl e ↦ rw e (Works-refl x)
          | inr (tg, e) ↦ rw e (elim (Option-cases (ext.resolve_config x.db x.op.feature_id tg)) [
            | inl e' ↦ rw e' (Works-refl x)
            | inr (hash, e') ↦ rw e' (
                if_cases (λ (m : Exec × String). Works x m.0) (str_eq hash "") (λ k. Works-refl x)
                  (λ k. frozen hash))
          ])
        ])
    where
      frozen :
          (hash : String)
          → Works x (
              try_op_target
                (try_operation x (record x.op { frozen_config_hash = hash }))
                (record x.t { frozen_config_hash = hash }))
      frozen hash =
          let x1 = try_operation x (record x.op { frozen_config_hash = hash }) in
          Works-trans x x1 _ (try_operation-Works x _ refl refl) (
            try_op_target-Works x1 _
              (sym (ap (λ (t : OperationTarget). t.id) (try_operation_target x _))))

  task_arguments-Works :
      (x : Exec) (f : Feature) (r : Option Release) → Works x (task_arguments ext tasks ids x f r).0
  unfolding task_arguments
  task_arguments-Works x f r =
      let x1 = (freeze_config_hash ext tasks ids x).0 in
      Works-trans x x1 (task_arguments ext tasks ids x f r).0 (freeze_config_hash-Works x) (
        if_cases (λ (m : Exec × Option TaskArguments). Works x1 m.0)
          (str_eq x1.t.frozen_secret_hash "") (λ h. try_op_target-Works x1 _ refl)
          (λ h.
            if_cases (λ (m : Exec × Option TaskArguments). Works x1 m.0) _ (λ k. Works-refl x1)
              (λ k. Works-refl x1)))

  judge_task-Works : (x : Exec) (t : Task) → Works x (judge_task ext tasks ids x t).0
  unfolding judge_task
  judge_task-Works x t =
      if_cases (λ (m : Exec × Result (Bool × String)). Works x m.0) (task_succeeded t.status)
        (λ h. end_step-Works x _ _) (λ h. end_step-Works x _ _)

  save_step-Works : (x : Exec) (s : Step) → Works x (save_step ext tasks ids x s)
  unfolding update_step
  save_step-Works x s = quiet x _ refl refl refl refl refl (λ id h. h)

  run_task-Works :
      (x : Exec) (cmd : NodeCommand) (args : TaskArguments)
      → Works x (run_task ext tasks ids x cmd args).0
  unfolding run_task
  run_task-Works x cmd args =
      ▷-Works x _ (judge_task ext tasks ids)
        (▷-Works {A = Task} x _ _ (quiet x _ refl refl refl refl refl (λ id h. h)) (λ y t.
          Works-trans y (save_step ext tasks ids y (record y.step { task_id = t.id })) _
            (save_step-Works y _) (poll_task-Works _ t.id)))
        judge_task-Works

  run_with-Works :
      (cmd : NodeCommand) (m : Exec × Option TaskArguments)
      → Works m.0 (run_with ext tasks ids cmd m).0
  unfolding run_with
  run_with-Works cmd (x, none) = Works-refl x
  run_with-Works cmd (x, some args) = run_task-Works x cmd args

  pub run_task_step-Works :
      (x : Exec) (f : Feature) (r : Option Release) (command_id : String)
      → Works x (run_task_step ext tasks ids x f r command_id).0
  unfolding run_task_step
  run_task_step-Works x f r command_id =
      elim (Option-cases (newest_command x.t.node_id command_id none x.db.core.commands)) [
        | inl e ↦ rw (e, run_task_step) (Works-refl x)
        | inr (cmd, e) ↦
            rw (e, run_task_step)
              (let x1 = save_step ext tasks ids x (record x.step {
                status = running;
                command_id = command_id;
                started_at = some x.now;
              }) in
                Works-trans x x1 _ (save_step-Works x _) (
                  Works-trans x1 (task_arguments ext tasks ids x1 f r).0 _
                    (task_arguments-Works x1 f r)
                    (run_with-Works cmd (task_arguments ext tasks ids x1 f r))))
      ]
