-- ===== src/Deploy/Outcomes.antt =====
-- What executeTarget leaves of the row that it works on: the result that it returns is the status
-- that the row ends with.
mod Endings
pub use Endings.*
use server_cli.Common.{
  ℕ, String, str_eq, Bool, true, false, not, ◌&&◌, if◌then◌else◌, if_cases, ◌≡◌, refl, sym, subst,
  Option, some, Option-cases, inl, inr, List, [], ◌∷◌, find_row, keyed, arith, Error, Result, ok,
  err, ok_inj, Result-cases,
}
use server_cli.Task.Model.{External}
use server_cli.Task.Store.{task_by_id}
use server_cli.Deploy.Model.{
  Action, Status, succeeded, failed, cancelled, skipped, Feature, Release, OperationTarget, Step,
  Backup, DeployDb, DeployExternal,
}
use server_cli.Deploy.Store.{
  op_target_key, holds_node, target_by_id, update_target, write_op_target, create_backup,
}
use server_cli.Deploy.Exec.{Exec, ◌▷◌}
use server_cli.Deploy.Steps.{step_name, command_for, create_step, end_step, try_op_target}
use server_cli.Deploy.Targets.{
  TargetResult, StepEnd, passed, interrupted, broken, end_target, fail_target, skip_target,
  succeed_target, mark_preflight_done, release_for, skips, is_backup, fail_on_error, judge_step,
  run_step, record_backup, go_on, run_plan, probe, probe_after, run_health, after_health,
  after_plan, run_target, run_unless_skipped, execute_target, backup_of, lacks_release,
  checks_health, health_failed, plan_of, target_done, target_interrupted, target_failed,
  control_plane_health,
}
use server_cli.Deploy.Rows.{update_op_target-found, ended_written}
use server_cli.Deploy.Rows.{same_operations}
use server_cli.Deploy.Works.{
  Peaceful, Works, Works-refl, Works-trans, quiet, ▷-Works, try_op_target-Works, create_step-Works,
  end_step-Works, run_task_step-Works,
}

module _ {Args : Type 0} (ext : DeployExternal Args) (tasks : External Args)
    (ids : ℕ → String) where
  skip_target-Ends :
      (msg : String) (x : Exec) → Ends x (skip_target ext tasks ids msg x, ok target_done)
  unfolding skip_target
  skip_target-Ends msg x =
      let x1 = (create_step ext tasks ids x "skip" "").0 in
      Ends-after x x1 _ (create_step-Works ext tasks ids x "skip" "")
        (elim (Result-cases (create_step ext tasks ids x "skip" "").1) [
          | inl (e, h) ↦
              rw (h, skip_target)
                (end_target-Ends skipped x1.t.error_message x1 target_done refl refl)
          | inr (st, h) ↦
              rw (h, skip_target)
                (let x2 = end_step ext tasks ids succeeded msg x1 in
                  Ends-after x1 x2 _ (end_step-Works ext tasks ids x1 succeeded msg)
                    (end_target-Ends skipped x2.t.error_message x2 target_done refl refl))
        ])

  fail_target-Ends :
      (msg : String) (x : Exec) (res : TargetResult)
      → fits res failed ≡ true
      → Ends x (fail_target ext tasks ids msg x, ok res)
  fail_target-Ends msg x res = end_target-Ends failed (ext.sanitize msg) x res refl

  health_failed-fits : (x : Exec) → fits (health_failed ext tasks ids x) failed ≡ true
  unfolding health_failed
  health_failed-fits x = ground arith

  after_health-Ends : (x : Exec) (e : StepEnd) → Ends x (after_health ext tasks ids x e)
  unfolding after_health
  after_health-Ends x passed = succeed_target-Ends x
  after_health-Ends x interrupted =
      end_target-Ends cancelled "operation cancelled" x target_interrupted refl refl
  after_health-Ends x (broken msg) =
      fail_target-Ends msg x _ (health_failed-fits (fail_target ext tasks ids msg x))

  fail_on_error-Works :
      (x : Exec) (m : Exec × Result (Bool × String))
      → Works x m.0
      → Works x (fail_on_error ext tasks ids m).0
  unfolding fail_on_error
  fail_on_error-Works x (y, err e) f = Works-trans x y _ f (end_step-Works ext tasks ids y failed _)
  fail_on_error-Works x (y, ok a) f = f

  judge_step-Works : (x : Exec) (a : Bool × String) → Works x (judge_step ext tasks ids x a).0
  unfolding judge_step
  judge_step-Works x (true, msg) = Works-refl x
  judge_step-Works x (false, msg) = end_step-Works ext tasks ids x failed msg

  run_step-Works :
      (x : Exec) (f : Feature) (r : Option Release) (name command_id : String)
      → Works x (run_step ext tasks ids x f r name command_id).0
  unfolding run_step
  run_step-Works x f r name command_id =
      ▷-Works x _ (judge_step ext tasks ids)
        (▷-Works x _ _ (create_step-Works ext tasks ids x name command_id)
          (λ y s. fail_on_error-Works y _ (run_task_step-Works ext tasks ids y f r command_id)))
        judge_step-Works

  create_backup_targets :
      (db db' : DeployDb) (b : Backup)
      → create_backup db b ≡ some db'
      → db'.op_targets ≡ db.op_targets
  unfolding create_backup
  create_backup_targets db db' b h = ground arith

  create_backup_operations :
      (db db' : DeployDb) (b : Backup)
      → create_backup db b ≡ some db'
      → db'.operations ≡ db.operations
  unfolding create_backup
  create_backup_operations db db' b h = ground arith

  record_backup-Works : (x : Exec) (f : Feature) → Works x (record_backup ext tasks ids x f)
  unfolding record_backup
  record_backup-Works x f = elim (Option-cases (task_by_id x.db.core x.step.task_id)) [
    | inl e ↦ rw (e, record_backup) (Works-refl x)
    | inr (t, e) ↦
        rw (e, record_backup)
          (elim (Option-cases (ext.backup_result t)) [
            | inl e' ↦ rw e' (Works-refl x)
            | inr (b, e') ↦ rw e' (
                if_cases (Works x) (str_eq b.object_key "") (λ h. Works-refl x)
                  (λ h. elim (Option-cases (create_backup x.db (backup_of ext tasks ids x f b))) [
                    | inl k ↦ rw k (quiet x _ refl refl refl refl refl (λ id h. h))
                    | inr (db, k) ↦ rw k (
                        quiet x _ refl refl refl refl (create_backup_targets x.db db _ k) (
                          same_operations x.db.operations db.operations
                            (create_backup_operations x.db db _ k)))
                  ]))
          ])
  ]

  go_on-Works :
      (x : Exec) (e : StepEnd) (rest : Exec × Result StepEnd)
      → Works x rest.0
      → Works x (go_on x e rest).0
  unfolding go_on
  go_on-Works x passed rest f = f
  go_on-Works x interrupted rest f = Works-refl x
  go_on-Works x (broken msg) rest f = Works-refl x

  run_plan-Works :
      (plan : List Action) (x : Exec) (f : Feature) (r : Option Release)
      → Works x (run_plan ext tasks ids plan x f r).0
  unfolding run_plan
  run_plan-Works [] x f r = Works-refl x
  run_plan-Works (a ∷ plan) x f r =
      ▷-Works x _ _ (run_step-Works x f r (step_name a) (command_for a)) (λ y e. go_on-Works y e _ (
        Works-trans y _ _
          (if_cases (Works y) (is_backup a) (λ h. record_backup-Works y f) (λ h. Works-refl y))
          (run_plan-Works plan (if is_backup a then record_backup ext tasks ids y f else y) f r)))

  probe-Works : (x : Exec) (s : Step) → Works x (probe ext tasks ids x s).0
  unfolding probe
  probe-Works x s =
      if_cases (λ (m : Exec × Result StepEnd). Works x m.0) (control_plane_health ext tasks ids x).0
        (λ h. end_step-Works ext tasks ids x succeeded _)
        (λ h. end_step-Works ext tasks ids x failed _)

  probe_after-Works : (x : Exec) (e : StepEnd) → Works x (probe_after ext tasks ids x e).0
  unfolding probe_after
  probe_after-Works x passed =
      ▷-Works x _ _ (create_step-Works ext tasks ids x "control-plane-health" "") probe-Works
  probe_after-Works x interrupted = Works-refl x
  probe_after-Works x (broken msg) = Works-refl x

  run_health-Works :
      (x : Exec) (f : Feature) (r : Option Release) → Works x (run_health ext tasks ids x f r).0
  unfolding run_health
  run_health-Works x f r =
      ▷-Works x _ (probe_after ext tasks ids) (run_step-Works x f r _ _) probe_after-Works

  after_plan-Ends :
      (f : Feature) (r : Option Release) (x : Exec) (e : StepEnd)
      → Ends x (after_plan ext tasks ids f r x e)
  unfolding after_plan
  after_plan-Ends f r x passed =
      if_cases (Ends x) (checks_health x.op.action)
        (λ h. ▷-Ends x _ _ (run_health-Works x f r) after_health-Ends) (λ h. succeed_target-Ends x)
  after_plan-Ends f r x interrupted =
      end_target-Ends cancelled "operation cancelled" x target_interrupted refl refl
  after_plan-Ends f r x (broken msg) = fail_target-Ends msg x target_failed refl

  run_unless_skipped-Ends :
      (x : Exec) (f : Feature) (r : Option Release)
      → Ends x (run_unless_skipped ext tasks ids x f r)
  unfolding run_unless_skipped run_target
  run_unless_skipped-Ends x f r = elim (Option-cases (skips x)) [
    | inl e ↦
        rw (e, run_unless_skipped)
          (▷-Ends x _ _ (run_plan-Works (plan_of ext tasks ids x f) x f r) (after_plan-Ends f r))
    | inr (reason, e) ↦ rw (e, run_unless_skipped) (skip_target-Ends reason x)
  ]

  -- executeTarget works on one row only, and its result is the status that the row ends with.
  pub execute_target-Ends :
      (x : Exec) (f : Feature) (r : Option Release) → Ends x (execute_target ext tasks ids x f r)
  unfolding execute_target mark_preflight_done
  execute_target-Ends x0 f r0 =
      let x = mark_preflight_done x0 in
      Ends-after x0 x _ (quiet x0 x refl refl refl refl refl (λ id h. h)) (
        if_cases (Ends x) (lacks_release x (release_for x r0))
          {y = run_unless_skipped ext tasks ids x f (release_for x r0)}
          (λ h.
            fail_target-Ends "no current release installed; cannot run health-check" x target_failed
              refl)
          (λ h. run_unless_skipped-Ends x f (release_for x r0)))
