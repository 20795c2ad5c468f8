-- ===== src/Deploy/Finishing.antt =====
-- The end of executeOperation: the final status that the counts decide, its write, and the rollback
-- that may follow.
use server_cli.Common.{
  is_some, find_row-append, find_row-update_rows_self, ℕ, ◌+◌, ◌<◌, Result, String, str_eq, Bool,
  true, false, ◌||◌, ◌&&◌, if_cases, ◌≡◌, refl, Option, some, Option-cases, inl, inr, [],
  All-find_row, ltb, ◌==◌, find_row, update_rows, keyed, Unique, Grows-update_row,
  select_rows-Standing, str_eq_refl, arith, ok,
}
use server_cli.Task.Model.{External}
use server_cli.Deploy.Model.{
  Status, succeeded, partial_failed, failed, cancelled, Feature, Operation, OperationTarget,
  DeployDb, DeployExternal,
}
use server_cli.Deploy.Store.{
  op_target_key, operation_key, of_operation, op_targets_of, update_operation, update_op_target,
  write_operation, write_op_target, clashes, is_active,
}
use server_cli.Deploy.Exec.{Exec}
use server_cli.Deploy.Steps.{is_cancelled}
use server_cli.Deploy.Targets.{has_backup_mode}
use server_cli.Deploy.Scheduler.{
  Tally, final_status, finish_operation, is_failed, note_manual_rollback, manual_note,
  rollback_input, queue_rollback, trigger_auto_rollback,
}
use server_cli.Deploy.Rows.{
  Settles, Settles-refl, Settles-trans, TargetsGrow, TargetsGrow-refl, update_op_target_rows,
  update_op_target_operations,
}
use server_cli.Deploy.Creating.{
  create_operation-Grow, create_operation_cases, create_bundle-Created,
}

-- The statuses with which executeOperation ends an operation.
abbrev pub is_final : Status → Bool
is_final succeeded = true
is_final partial_failed = true
is_final failed = true
is_final cancelled = true
is_final _ = false

final_inactive : (s : Status) → is_final s ≡ true → is_active s ≡ false
final_inactive succeeded h = refl
final_inactive partial_failed h = refl
final_inactive failed h = refl
final_inactive cancelled h = refl
final_inactive _ h = ground arith

-- What the counts decide.
pub record Decides (total : ℕ) (n : Tally) (o : Option Status) : Type 0 where
  pub status : Status
  pub decided : o ≡ some status
  pub final : is_final status ≡ true
  pub clean :
      status ≡ succeeded → (n.failed ≡ 0) × (n.terminal_failed ≡ 0) × (n.cancelled_any ≡ false)

pub final_status-Decides :
    (current : Status) (total : ℕ) (n : Tally)
    → 0 < total
    → (n.failed ≡ 0 → n.terminal_failed ≡ 0 → n.cancelled_any ≡ false → n.succeeded ≡ total)
    → Decides total n (final_status current total n)
unfolding final_status
final_status-Decides current total n pos_total counted =
    if_cases (Decides total n) (is_cancelled current || n.cancelled_any)
      (λ c. record { status = cancelled; decided = refl; final = refl; clean = λ e. ground arith })
      (λ c.
        if_cases (Decides total n) (ltb 0 n.failed || ltb 0 n.terminal_failed)
          (λ f.
            if_cases (λ s. Decides total n (some s)) (ltb 0 n.succeeded)
              (λ s. record {
                status = partial_failed;
                decided = refl;
                final = refl;
                clean = λ e. ground arith;
              })
              (λ s. record {
                status = failed;
                decided = refl;
                final = refl;
                clean = λ e. ground arith;
              }))
          (λ f.
            if_cases (Decides total n) ((n.succeeded == total) && ltb 0 n.succeeded)
              (λ s. record {
                status = succeeded;
                decided = refl;
                final = refl;
                clean = λ e. ground arith;
              })
              (λ s. absurd (
                let a : n.failed ≡ 0 = ground (arith, f) in
                let b : n.terminal_failed ≡ 0 = ground (arith, f) in
                let k : n.cancelled_any ≡ false = ground (arith, c) in
                let all_done : n.succeeded ≡ total = counted a b k in ground (arith, s)))))

-- The state after finishOperation.
abbrev pub finished_at : Exec → Status → Exec
finished_at x s = record x {
  db = record x.db {
    operations =
        update_rows (keyed operation_key x.op.id)
          (write_operation (record x.op { status = s; finished_at = some x.now })) x.db.operations;
  };
  op = record x.op { status = s; finished_at = some x.now };
}

-- finishOperation with a final status, which no index refuses.
pub finish_operation_lem :
    (x : Exec) (s : Status) → is_final s ≡ true → finish_operation x s ≡ (finished_at x s, ok tt)
unfolding finish_operation update_operation clashes
finish_operation_lem x s final =
    rw (final_inactive s final, finish_operation, update_operation, clashes) refl

-- The row of this operation stands in the table with this status.
abbrev pub RowAt : DeployDb → String → Status → Type 0
RowAt db id s =
    (r : Operation) × (find_row (keyed operation_key id) db.operations ≡ some r) × (r.status ≡ s)

pub finished_at-RowAt :
    (x : Exec) (s : Status)
    → is_some (find_row (keyed operation_key x.op.id) x.db.operations) ≡ true
    → RowAt (finished_at x s).db x.op.id s
finished_at-RowAt x s there =
    let written = write_operation (record x.op { status = s; finished_at = some x.now }) in
    elim (Option-cases (find_row (keyed operation_key x.op.id) x.db.operations)) [
      | inl e ↦ absurd (ground (arith, e, there))
      | inr (o, e) ↦ (
        written o,
        find_row-update_rows_self (keyed operation_key x.op.id) written x.db.operations o
            (λ y. refl) e,
        refl,
      )
    ]

module _ {Args : Type 0} (ext : DeployExternal Args) (tasks : External Args)
    (ids : ℕ → String) where
  note_manual_rollback-Grow :
      (x : Exec) (target_id : String)
      → Unique op_target_key x.db.op_targets
      → TargetsGrow [] x.db.op_targets
          (note_manual_rollback ext tasks ids x target_id).db.op_targets
  unfolding note_manual_rollback op_targets_of
  note_manual_rollback-Grow x target_id d =
      let q = λ (t : OperationTarget). str_eq t.target_id target_id && is_failed t.status in
      elim (Option-cases (find_row q (op_targets_of x.db x.op.id))) [
        | inl e ↦ rw (e, note_manual_rollback) (TargetsGrow-refl [] x.db.op_targets)
        | inr (t, e) ↦
            let noted = record t { error_message = manual_note ext tasks ids t.error_message } in
            let there : find_row (keyed op_target_key t.id) x.db.op_targets ≡ some t =
              All-find_row
                (λ (r : OperationTarget).
                  find_row (keyed op_target_key r.id) x.db.op_targets ≡ some r)
                q (op_targets_of x.db x.op.id)
                (select_rows-Standing op_target_key (of_operation x.op.id) x.db.op_targets d) e in
            rw (e, note_manual_rollback)
              (elim (Option-cases (update_op_target x.db noted)) [
                | inl k ↦ rw k (TargetsGrow-refl [] x.db.op_targets)
                | inr (db, k) ↦
                    rw (k, update_op_target_rows x.db db noted k)
                      (Grows-update_row op_target_key (Settles []) (Settles-refl [])
                        (Settles-trans []) t.id (write_op_target noted) x.db.op_targets t
                        (λ r. refl) there (record { same_id = refl; ended_stays = λ h j. refl }))
              ])
      ]

  queue_rollback-Grow :
      (x : Exec) (target_id release_id : String)
      → TargetsGrow [] x.db.op_targets
          (queue_rollback ext tasks ids x target_id release_id).db.op_targets
  unfolding queue_rollback
  queue_rollback-Grow x target_id release_id = create_operation-Grow ext x.db _ _ _

  pub trigger_auto_rollback-Grow :
      (x : Exec) (f : Feature) (target_id release_id : String)
      → Unique op_target_key x.db.op_targets
      → TargetsGrow [] x.db.op_targets
          (trigger_auto_rollback ext tasks ids x f target_id release_id).db.op_targets
  unfolding trigger_auto_rollback
  trigger_auto_rollback-Grow x f target_id release_id d =
      if_cases (λ (y : Exec). TargetsGrow [] x.db.op_targets y.db.op_targets)
        (str_eq release_id "" || str_eq target_id "") (λ h. TargetsGrow-refl [] x.db.op_targets)
        (λ h.
          if_cases (λ (y : Exec). TargetsGrow [] x.db.op_targets y.db.op_targets)
            (has_backup_mode f) (λ k. note_manual_rollback-Grow x target_id d)
            (λ k.
              if_cases (λ (y : Exec). TargetsGrow [] x.db.op_targets y.db.op_targets)
                (str_eq f.rollback_capability "" || str_eq f.rollback_capability "none")
                (λ j. TargetsGrow-refl [] x.db.op_targets)
                (λ j. queue_rollback-Grow x target_id release_id)))

  note_manual_rollback-RowAt :
      (x : Exec) (target_id id : String) (s : Status)
      → RowAt x.db id s
      → RowAt (note_manual_rollback ext tasks ids x target_id).db id s
  unfolding note_manual_rollback
  note_manual_rollback-RowAt x target_id id s row =
      let q = λ (t : OperationTarget). str_eq t.target_id target_id && is_failed t.status in
      elim (Option-cases (find_row q (op_targets_of x.db x.op.id))) [
        | inl e ↦ rw (e, note_manual_rollback) row
        | inr (t, e) ↦
            let noted = record t { error_message = manual_note ext tasks ids t.error_message } in
            rw (e, note_manual_rollback)
              (elim (Option-cases (update_op_target x.db noted)) [
                | inl k ↦ rw k row
                | inr (db, k) ↦ rw (k, update_op_target_operations x.db db noted k) row
              ])
      ]

  queue_rollback-RowAt :
      (x : Exec) (target_id release_id id : String) (s : Status)
      → RowAt x.db id s
      → RowAt (queue_rollback ext tasks ids x target_id release_id).db id s
  unfolding queue_rollback
  queue_rollback-RowAt x target_id release_id id s (r, found, same) =
      create_operation_cases ext (λ (m : DeployDb × Result Operation). RowAt m.0 id s) x.db
        (record { now = x.now; new_id = λ i. ids (x.drawn + i) }) "system"
        (rollback_input ext tasks ids x.op target_id release_id) (λ e. (r, found, same))
        (λ o ts db' plan made. (
          r,
          rw (create_bundle-Created x.db db' o ts _ made).operations
              (find_row-append (keyed operation_key id) x.db.operations o r found),
          same,
        ))

  pub trigger_auto_rollback-RowAt :
      (x : Exec) (f : Feature) (target_id release_id id : String) (s : Status)
      → RowAt x.db id s
      → RowAt (trigger_auto_rollback ext tasks ids x f target_id release_id).db id s
  unfolding trigger_auto_rollback
  trigger_auto_rollback-RowAt x f target_id release_id id s row =
      if_cases (λ (y : Exec). RowAt y.db id s) (str_eq release_id "" || str_eq target_id "")
        (λ h. row)
        (λ h.
          if_cases (λ (y : Exec). RowAt y.db id s) (has_backup_mode f)
            (λ k. note_manual_rollback-RowAt x target_id id s row)
            (λ k.
              if_cases (λ (y : Exec). RowAt y.db id s)
                (str_eq f.rollback_capability "" || str_eq f.rollback_capability "none") (λ j. row)
                (λ j. queue_rollback-RowAt x target_id release_id id s row)))

  pub trigger_auto_rollback_op :
      (x : Exec) (f : Feature) (target_id release_id : String)
      → (trigger_auto_rollback ext tasks ids x f target_id release_id).op ≡ x.op
  unfolding trigger_auto_rollback queue_rollback note_manual_rollback
  trigger_auto_rollback_op x f target_id release_id = ground arith

  pub no_rollback_target :
      (x : Exec) (f : Feature) (target_id release_id : String)
      → target_id ≡ ""
      → trigger_auto_rollback ext tasks ids x f target_id release_id ≡ x
  unfolding trigger_auto_rollback
  no_rollback_target x f target_id release_id e =
      if_cases (λ (y : Exec). y ≡ x) (str_eq release_id "" || str_eq target_id "") (λ h. refl)
        (λ h.
          let empty : str_eq target_id "" ≡ true = rw e (str_eq_refl "") in absurd (ground arith))
