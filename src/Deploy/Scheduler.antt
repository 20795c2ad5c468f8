-- ===== src/Deploy/Scheduler.antt =====
-- executeOperation of backend/internal/service/deployment_scheduler.go: the targets of a claimed
-- operation in turn, its final status, and the rollback after a failed update.
mod Counts
unfoldable pub use Counts.*
use server_cli.Common.{
  ℕ, ◌+◌, String, str_eq, join, Bool, true, false, ◌&&◌, ◌||◌, if◌then◌else◌, Option, none, some,
  List, [], ◌∷◌, find_row, ltb, ◌==◌, length, Error, constraint, Result, ok, err,
}
use server_cli.Task.Model.{External}
use server_cli.Deploy.Model.{
  rollback, Status, succeeded, partial_failed, failed, cancelled, is_terminal, Feature, Release,
  Operation, OperationTarget, Step, DeployDb, DeployExternal, running, queued,
}
use server_cli.Deploy.Exec.{Exec, Round, ◌▷◌}
use server_cli.Deploy.Store.{
  feature_by_id, release_by_id, operation_by_id, op_targets_of, update_operation, update_op_target,
  claim_queued,
}
use server_cli.Deploy.Service.{CreateOperationInput, create_operation, is_succeeded}
use server_cli.Deploy.Steps.{is_cancelled}
use server_cli.Deploy.Targets.{TargetResult, execute_target, has_backup_mode}

module _ {Args : Type 0} (ext : DeployExternal Args) (tasks : External Args)
    (ids : ℕ → String) where
  -- A target whose execution broke off with an error.
  unfoldable pub abandon_target : Exec → Error → Exec × Result (Unit {0})
  abandon_target x e =
      let t = record x.t {
        status = failed;
        error_message = ext.sanitize (ext.error_text e);
        finished_at = some x.now;
      } in
      elim (update_op_target x.db t) [
        | none ↦ (record x { t = t }, err constraint)
        | some db ↦ (record x { db = db; t = t }, ok tt)
      ]

  -- What the loop makes of an executed target: it goes on, or stops at a failure.
  unfoldable pub proceed :
      Exec × Result TargetResult
      → Tally
      → (Exec → Tally → Exec × Result Tally)
      → Exec × Result Tally
  proceed (x, err e) n go = abandon_target x e ▷ λ x2 done. (x2, ok (count_failed n))
  proceed (x, ok res) n go =
      if res.cancelled
      then go x (record n { cancelled_any = true })
      else if res.succeeded
      then go x (record n { succeeded = n.succeeded + 1 })
      else (
        x,
        ok (record (count_failed n) {
          rollback_target = res.rollback_target;
          rollback_release = res.rollback_release;
        }),
      )

  -- The loop over the targets that were read at the start.
  unfoldable pub execute_targets :
      List OperationTarget → Exec → Feature → Option Release → Tally → Exec × Result Tally
  execute_targets [] x f r n = (x, ok n)
  execute_targets (t ∷ ts) x f r n = elim (is_terminal t.status) [
    | true ↦ execute_targets ts x f r (count_ended t.status n)
    | false ↦ elim (is_cancelled x.op.status) [
      | true ↦
          elim (update_op_target x.db (record t { status = cancelled; finished_at = some x.now })) [
            | none ↦ (x, err constraint)
            | some db ↦
                execute_targets ts (record x { db = db }) f r (record n { cancelled_any = true })
          ]
      | false ↦
          proceed (execute_target ext tasks ids (record x { t = t }) f r) n
            (λ x1 n1. execute_targets ts x1 f r n1)
    ]
  ]

  abbrev pub manual_note : String → String
  manual_note msg =
      if ext.mentions_manual_rollback msg
      then msg
      else ext.trim_space (
          join (
            ext.trim_space msg ∷ "; " ∷ "database feature: manual rollback decision required" ∷ []))

  -- noteManualRollbackDecision.
  unfoldable pub note_manual_rollback : Exec → String → Exec
  note_manual_rollback x target_id =
      elim (find_row (λ (t : OperationTarget). str_eq t.target_id target_id && is_failed t.status)
        (op_targets_of x.db x.op.id)) [
          | none ↦ x
          | some t ↦
              elim (update_op_target x.db
                (record t { error_message = manual_note t.error_message })) [
                  | none ↦ x
                  | some db ↦ record x { db = db }
                ]
        ]

  abbrev pub rollback_input : Operation → String → String → CreateOperationInput
  rollback_input o target_id release_id = record {
    action = some rollback;
    feature_id = o.feature_id;
    release_id = release_id;
    target_ids = target_id ∷ [];
    node_id = "";
    backup_id = "";
    force_delete = false;
    reason = join ("auto rollback after update health failure (operation " ∷ o.id ∷ ")" ∷ []);
  }

  unfoldable pub queue_rollback : Exec → String → String → Exec
  queue_rollback x target_id release_id = record x {
    db =
        (create_operation ext x.db (record { now = x.now; new_id = λ i. ids (x.drawn + i) })
          "system" (rollback_input x.op target_id release_id)).0;
    drawn = x.drawn + 3;
  }

  -- triggerAutoRollback.
  unfoldable pub trigger_auto_rollback : Exec → Feature → String → String → Exec
  trigger_auto_rollback x f target_id release_id =
      if str_eq release_id "" || str_eq target_id ""
      then x
      else if has_backup_mode f
      then note_manual_rollback x target_id
      else if str_eq f.rollback_capability "" || str_eq f.rollback_capability "none"
      then x
      else queue_rollback x target_id release_id

  -- What executeOperation does after the loop.
  unfoldable pub conclude : ℕ → Exec → Feature → Tally → Exec × Result (Unit {0})
  conclude total x f n = elim (final_status (current_status x.db x.op.id) total n) [
    | none ↦ (x, ok tt)
    | some s ↦ finish_operation x s ▷ λ x1 done.
        (trigger_auto_rollback x1 f n.rollback_target n.rollback_release, ok tt)
  ]

  -- The release named, if one is.
  unfoldable pub named_release : DeployDb → String → Result (Option Release)
  named_release db id =
      if str_eq id ""
      then ok none
      else elim (release_by_id db id) [ none ↦ err Error.not_found | some r ↦ ok (some r) ]

  -- executeOperation.
  unfoldable pub execute_operation : Exec → Exec × Result (Unit {0})
  execute_operation x = elim (feature_by_id x.db x.op.feature_id) [
    | none ↦ finish_operation x failed
    | some f ↦ elim (named_release x.db x.op.release_id) [
      | err e ↦ finish_operation x failed
      | ok r ↦
          let ts = op_targets_of x.db x.op.id in
          execute_targets ts x f r no_targets ▷ λ x1 n. conclude (length ts) x1 f n
    ]
  ]

  -- Tick: claims at most one operation and executes it.
  unfoldable pub tick : DeployDb → ℕ → ℕ → List (List Round) → DeployDb × Result (Unit {0})
  tick db now drawn polls =
      let (db1, claimed) = claim_queued db now in
      elim claimed [
        | none ↦ (db1, ok tt)
        | some o ↦
            let (x, done) = execute_operation (record {
              db = db1;
              now = now;
              drawn = drawn;
              polls = polls;
              op = o;
              t = no_target;
              step = no_step;
            }) in
            (x.db, done)
      ]
