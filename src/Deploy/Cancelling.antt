-- ===== src/Deploy/Cancelling.antt =====
-- What CancelOperation leaves of the targets of the operation
-- (backend/internal/service/deployment_ops.go).
mod Kept
use Kept.{cancel_work_operations}
use server_cli.Common.{
  ℕ, String, str_eq, str_eq_iff, false, not, ◌||◌, if◌then◌else◌, if_cases, Bool-cases, ◌≡◌, refl,
  sym, ap, subst, ◌∙◌, none, some, Option-cases, inl, inr, List, [], ◌∷◌, find_row, find_row_step,
  All, All-impl, keyed, Unique, Standing, Standing-update_row, find_row_holds,
  find_row-update_rows_self, select_rows, Error, ok_inj, ok_inj, update_rows, select_rows-Standing,
  Unique-select_rows, arith, Result, ok, err,
}
use server_cli.Task.Model.{Env}
use server_cli.Deploy.Model.{
  cancelled, is_terminal, Operation, OperationTarget, Step, DeployDb, DeployExternal,
}
use server_cli.Deploy.Store.{
  op_target_key, operation_key, of_operation, op_targets_of, operation_by_id, update_operation,
  update_op_target, write_operation, steps_of, write_op_target,
}
use server_cli.Deploy.Service.{
  is_listed, is_cancellable, cancelled_target, cancel_one, cancel_targets, cancel_step_task,
  cancel_tasks, cancelled_operation, cancel_work, cancel_operation,
}
use server_cli.Deploy.Works.{update_operation_targets}
use server_cli.Deploy.Rows.{ended_written, update_op_target_rows, update_operation_rows}

-- The row of a target after a cancellation: one that had ended stands as it ended, any other is
-- cancelled.
abbrev pub Closed : DeployDb → OperationTarget → Type 0
Closed db t =
    (r : OperationTarget) × (find_row (keyed op_target_key t.id) db.op_targets ≡ some r)
    × (r.status ≡ (if is_terminal t.status then t.status else cancelled))

apart :
    (r : OperationTarget) (ts : List OperationTarget)
    → find_row (keyed op_target_key r.id) ts ≡ none
    → All (λ t. find_row (keyed op_target_key t.id) (r ∷ []) ≡ none) ts
unfolding find_row
apart r [] h = tt
apart r (t ∷ ts) h =
    let (other, rest) = find_row_step (keyed op_target_key r.id) t ts h in
    (ground (arith, other, str_eq_iff r.id t.id, str_eq_iff t.id r.id), apart r ts rest)

by_id :
    (db : DeployDb) (id : String) (o : Operation)
    → operation_by_id db id ≡ some o
    → find_row (keyed operation_key id) db.operations ≡ some o
unfolding operation_by_id
by_id db id o h = h

module _ {Args : Type 0} (ext : DeployExternal Args) where
  cancel_one_rows :
      (db : DeployDb) (now : ℕ) (t : OperationTarget)
      → is_terminal t.status ≡ false
      → (cancel_one ext db now t).op_targets
        ≡ update_rows
            (keyed op_target_key t.id)
            (write_op_target (cancelled_target ext now t))
            db.op_targets
  unfolding cancel_one
  cancel_one_rows db now t e =
      let (db1, written) = ended_written db (cancelled_target ext now t) refl in
      rw (e, cancel_one, written)
        (update_op_target_rows db db1 (cancelled_target ext now t) written)

  -- The rows of other targets stand.
  cancel_one-Standing :
      (db : DeployDb) (now : ℕ) (t : OperationTarget) (rs : List OperationTarget)
      → find_row (keyed op_target_key t.id) rs ≡ none
      → Standing op_target_key db.op_targets rs
      → Standing op_target_key (cancel_one ext db now t).op_targets rs
  unfolding cancel_one
  cancel_one-Standing db now t rs new s = elim (Bool-cases (is_terminal t.status)) [
    | inl e ↦ rw (e, cancel_one) s
    | inr e ↦
        subst (λ (rows : List OperationTarget). Standing op_target_key rows rs)
          (sym (cancel_one_rows db now t e))
          (Standing-update_row op_target_key t.id (write_op_target (cancelled_target ext now t))
            db.op_targets rs (λ r. refl) new s)
  ]

  cancel_targets-Standing :
      (ts : List OperationTarget) (db : DeployDb) (now : ℕ) (rs : List OperationTarget)
      → All (λ t. find_row (keyed op_target_key t.id) rs ≡ none) ts
      → Standing op_target_key db.op_targets rs
      → Standing op_target_key (cancel_targets ext db now ts).op_targets rs
  unfolding cancel_targets
  cancel_targets-Standing [] db now rs new s = s
  cancel_targets-Standing (t ∷ ts) db now rs (new, more) s =
      cancel_targets-Standing ts (cancel_one ext db now t) now rs more
        (cancel_one-Standing db now t rs new s)

  cancel_one-Closed :
      (db : DeployDb) (now : ℕ) (t : OperationTarget)
      → find_row (keyed op_target_key t.id) db.op_targets ≡ some t
      → Closed (cancel_one ext db now t) t
  unfolding cancel_one
  cancel_one-Closed db now t h = elim (Bool-cases (is_terminal t.status)) [
    | inl e ↦ (t, rw (e, cancel_one) h, rw e refl)
    | inr e ↦ (
      write_op_target (cancelled_target ext now t) t,
      rw (cancel_one_rows db now t e) (
          find_row-update_rows_self (keyed op_target_key t.id)
            (write_op_target (cancelled_target ext now t)) db.op_targets t (λ r. refl) h),
      rw e refl,
    )
  ]

  cancel_targets-Closed :
      (ts : List OperationTarget) (db : DeployDb) (now : ℕ)
      → Unique op_target_key ts
      → Standing op_target_key db.op_targets ts
      → All (Closed (cancel_targets ext db now ts)) ts
  unfolding cancel_targets
  cancel_targets-Closed [] db now d s = tt
  cancel_targets-Closed (t ∷ ts) db now (new, d) (h, s) =
      let db1 = cancel_one ext db now t in
      let (r, there, closed) = cancel_one-Closed db now t h in
      let same_id : r.id ≡ t.id =
        (str_eq_iff r.id t.id).0
          (find_row_holds (keyed op_target_key t.id) db1.op_targets r there) in
      let stands =
        cancel_targets-Standing ts db1 now (r ∷ []) (apart r ts (rw same_id new))
          (rw same_id there, tt) in
      (
        (
          r,
          subst
              (λ i.
                find_row (keyed op_target_key i) (cancel_targets ext db1 now ts).op_targets
                ≡ some r)
              same_id stands.0,
          closed,
        ),
        cancel_targets-Closed ts db1 now d (cancel_one-Standing db now t ts new s),
      )

  cancel_step_task_targets :
      (db : DeployDb) (env : Env) (actor_id id : String)
      → (cancel_step_task ext db env actor_id id).op_targets ≡ db.op_targets
  unfolding cancel_step_task
  cancel_step_task_targets db env actor_id id = ground arith

  cancel_tasks_targets :
      (ss : List Step) (db : DeployDb) (env : Env) (actor_id : String) (seen : List String)
      → (cancel_tasks ext db env actor_id seen ss).op_targets ≡ db.op_targets
  unfolding cancel_tasks
  cancel_tasks_targets [] db env actor_id seen = refl
  cancel_tasks_targets (s ∷ ss) db env actor_id seen =
      cancel_tasks_targets ss _ env actor_id _
      ∙ if_cases (λ (d : DeployDb). d.op_targets ≡ db.op_targets)
          (str_eq s.task_id "" || is_listed s.task_id seen) (λ h. refl)
          (λ h. cancel_step_task_targets db env actor_id s.task_id)

  -- What CancelOperation writes of an operation that it can cancel.
  cancelled_closes :
      (db : DeployDb) (env : Env) (actor_id : String) (o o' : Operation) (db1 : DeployDb)
      → Unique op_target_key db.op_targets
      → update_operation db o' ≡ some db1
      → All (Closed (cancel_work ext db1 env actor_id o.id)) (op_targets_of db o.id)
  unfolding op_targets_of cancel_work
  cancelled_closes db env actor_id o o' db1 d h =
      let same = update_operation_targets db db1 o' h in
      let ts = op_targets_of db o.id in
      let rows : op_targets_of db1 o.id ≡ ts = ap (select_rows (of_operation o.id)) same in
      let db2 = cancel_targets ext db1 env.now (op_targets_of db1 o.id) in
      let db3 = cancel_tasks ext db2 env actor_id [] (steps_of db2 o.id) in
      let unique : Unique op_target_key db1.op_targets = rw same d in
      let closed : All (Closed db2) (op_targets_of db1 o.id) =
        cancel_targets-Closed (op_targets_of db1 o.id) db1 env.now
          (Unique-select_rows op_target_key (of_operation o.id) db1.op_targets unique)
          (select_rows-Standing op_target_key (of_operation o.id) db1.op_targets unique) in
      All-impl ts
        (λ t c. (
          c.0,
          subst (λ (rs : List OperationTarget). find_row (keyed op_target_key t.id) rs ≡ some c.0)
              (sym (cancel_tasks_targets (steps_of db2 o.id) db2 env actor_id [])) c.1,
          c.2,
        ))
        (subst (All (Closed db2)) rows closed)

  -- The stored row of a cancelled operation.
  abbrev pub Stopped : DeployDb → String → String → Type 0
  Stopped db id reason =
      (r : Operation) × (operation_by_id db id ≡ some r)
      × (r.status ≡ cancelled)
      × (r.reason ≡ ext.redact reason)

  cancelled_stored :
      (db db1 : DeployDb) (env : Env) (actor_id reason : String) (o : Operation)
      → operation_by_id db o.id ≡ some o
      → update_operation db (cancelled_operation ext env reason o) ≡ some db1
      → Stopped (cancel_work ext db1 env actor_id o.id) o.id reason
  unfolding operation_by_id
  cancelled_stored db db1 env actor_id reason o found written =
      let o' = cancelled_operation ext env reason o in
      (
        write_operation o' o,
        rw
            (
              cancel_work_operations ext db1 env actor_id o.id,
              update_operation_rows db db1 o' written,
            )
            (find_row-update_rows_self (keyed operation_key o.id) (write_operation o') db.operations
              o (λ y. refl) found),
        refl,
        refl,
      )

  err_not_ok :
      {db db' : DeployDb} {e : Error} {o : Operation}
      → ◌≡◌ {A = DeployDb × Result Operation} (db, err e) (db', ok o)
      → ⊥
  err_not_ok h = ground arith

  -- When CancelOperation succeeds, the row of the operation is cancelled and holds the redacted
  -- reason, every target of it that had not ended is cancelled, and every one that had ended has the
  -- status with which it ended, where no two rows of operation targets share an identifier.
  pub cancel_closes :
      (db db' : DeployDb) (env : Env) (actor_id id reason : String) (o : Operation)
      → Unique op_target_key db.op_targets
      → cancel_operation ext db env actor_id id reason ≡ (db', ok o)
      → (o.status ≡ cancelled) × Stopped db' id reason × All (Closed db') (op_targets_of db id)
  unfolding cancel_operation
  cancel_closes db db' env actor_id id reason o d = elim (Option-cases (operation_by_id db id)) [
    | inl e ↦ rw (e, cancel_operation) (λ h. absurd (err_not_ok h))
    | inr (o1, e) ↦
        rw (e, cancel_operation)
          (if_cases Result_closes (not (is_cancellable ext o1.status))
            (λ c h. absurd (err_not_ok h))
            (λ c.
              elim (Option-cases (update_operation db (cancelled_operation ext env reason o1))) [
                | inl k ↦ rw k (λ h. absurd (err_not_ok h))
                | inr (db1, k) ↦ rw k (λ h.
                    let same_id : o1.id ≡ id = (str_eq_iff o1.id id).0 (
                      find_row_holds (keyed operation_key id) db.operations o1
                        (by_id db id o1 e)) in
                    (
                      ap (λ (p : Operation). p.status)
                          (sym (ok_inj (ap (λ (m : DeployDb × Result Operation). m.1) h))),
                      subst (λ (p : DeployDb). Stopped p id reason)
                          (ap (λ (m : DeployDb × Result Operation). m.0) h)
                          (subst
                            (λ (i : String).
                              Stopped (cancel_work ext db1 env actor_id o1.id) i reason)
                            same_id
                            (cancelled_stored db db1 env actor_id reason o1
                              (subst (λ (i : String). operation_by_id db i ≡ some o1) (sym same_id)
                                e)
                              k)),
                      subst (λ (p : DeployDb). All (Closed p) (op_targets_of db id))
                          (ap (λ (m : DeployDb × Result Operation). m.0) h)
                          (subst
                            (λ (i : String).
                              All (Closed (cancel_work ext db1 env actor_id o1.id))
                                (op_targets_of db i))
                            same_id (cancelled_closes db env actor_id o1 _ db1 d k)),
                    ))
              ]))
  ]
    where
      Result_closes : DeployDb × Result Operation → Type 0
      Result_closes m =
          m ≡ (db', ok o)
          → (o.status ≡ cancelled) × Stopped db' id reason × All (Closed db') (op_targets_of db id)
