-- ===== src/Task/Lifecycle.antt =====
-- Every history of operations only moves tasks forward.
use server_cli.Common.{
  Unique, ℕ, String, true, false, ◌≡◌, refl, sym, ◌∙◌, subst, str_eq_iff, inl, inr, Option, some,
  List, [], ◌∷◌, find_row, find_row_holds, str_eq_iff, Bool-cases, Option-cases, arith, Result,
}
use server_cli.Task.Model.{
  Status, dispatched, failed, cancelled, is_terminal, Task, TaskEvent, Db, Env, External,
}
use server_cli.Task.Store.{
  task_key, has_id, write_task, task_by_id, update_task, node_command_by_id, mark_task_running,
  queue_tasks_for_retry, next_waiting, dispatch_rows, append_task_event_dedup, create_task_output,
  update_task_output,
}
use server_cli.Task.Claims.{dispatched_row, claim-none, claim-some}
use server_cli.Task.Creation.{create_task_cases, create_new_task_cases, queue_task_cases}
use server_cli.Task.Service.{
  CreateTaskInput, create_task, cancel_task, cancel_task_cases, cancel_found, cancelled_at,
  cancel_event,
}
use server_cli.Task.Dispatch.{hand_out, poll_task, credential_for_node}
use server_cli.Task.Agent.{
  EventInput, ResultInput, EventKind, begun, ended, progress_made, unlisted, event_kind,
  apply_event, finish, result_status, save_output, record_event, record_result, record_event_cases,
  record_result_cases, take_event, settle,
}
use server_cli.Task.Operations.{
  Operation, creates, cancels, polls, reports, concludes, sweeps, step, run,
}
use server_cli.Task.Advance.{
  Advances, TasksGrow, TasksGrow-refl, TasksGrow-trans, dispatch_rows-Grows, running_rows-Grows,
  fail_unreachable-Grows, update_task-Grows, append-Grows,
}

-- The tasks of a database are left alone by the statements on other tables.
pub tasks-append_event :
    (db : Db) (now : ℕ) (e : TaskEvent) → (append_task_event_dedup db now e).tasks ≡ db.tasks
unfolding append_task_event_dedup
tasks-append_event db now e = ground arith

pub tasks-save_output :
    {Args : Type 0} (ext : External Args) (db : Db) (id : String) (inp : ResultInput)
    → (save_output ext db id inp).tasks ≡ db.tasks
unfolding save_output create_task_output update_task_output
tasks-save_output ext db id inp = ground arith

cancelled-Advances :
    (t : Task) (at : Option ℕ)
    → is_terminal t.status ≡ false
    → Advances t (write_task (record t { status = cancelled; finished_at = at }) t)
cancelled-Advances t at h = ground arith

failed-Advances :
    (r t : Task) (at : Option ℕ) (code message : String)
    → is_terminal r.status ≡ false
    → Advances r (
        write_task
          (record t {
            status = failed;
            finished_at = at;
            error_code = code;
            error_message = message;
          })
          r)
failed-Advances r t at code message h = ground arith

-- UpdateTask on the row that TaskByID found.
update_task_at-Grows :
    (db : Db) (id : String) (old new : Task)
    → task_by_id db id ≡ some old
    → new.id ≡ old.id
    → Advances old (write_task new old)
    → TasksGrow db.tasks (update_task db new).tasks
unfolding task_by_id update_task
update_task_at-Grows db id old new e same a =
    update_task-Grows db.tasks old new
      (subst (λ k. find_row (has_id k) db.tasks ≡ some old)
        (sym (same ∙ (str_eq_iff old.id id).0 (find_row_holds (has_id id) db.tasks old e))) e)
      a

cancel_task-Grows :
    (db : Db) (env : Env) (scope id actor who : String)
    → TasksGrow db.tasks (cancel_task db env scope id actor who).0.tasks
unfolding cancel_found
cancel_task-Grows db env scope id actor who =
    cancel_task_cases (λ r. TasksGrow db.tasks r.0.tasks) db env scope id actor who
      (λ e. TasksGrow-refl db.tasks)
      (λ t e inside live.
        rw (tasks-append_event _ env.now (cancel_event (cancelled_at env t)))
          (update_task_at-Grows db id t (cancelled_at env t) e refl (cancelled-Advances t _ live)))

create_task-Grows :
    {Args : Type 0} (ext : External Args) (db : Db) (env : Env) (node by actor key : String)
    (inp : CreateTaskInput Args)
    → TasksGrow db.tasks (create_task ext db env node by actor key inp).0.tasks
unfolding task_by_id
create_task-Grows ext db env node by actor key inp =
    create_task_cases ext db env P node by actor key inp same (λ old e. same)
      (λ named.
        create_new_task_cases ext db env P node by actor key inp (λ e. same)
          (λ n cmd json passes.
            queue_task_cases ext db env P actor _ (λ e. same)
              (λ db' rows new_id new_key. rw rows (append-Grows db.tasks _ new_id))))
  where
    P : Db × Result Task → Type 0
    P r = TasksGrow db.tasks r.0.tasks

    same : TasksGrow db.tasks db.tasks
    same = TasksGrow-refl db.tasks

-- The row `r` of the task that was claimed, and the task `t` as the claim read it.
hand_out-Grows :
    {Args : Type 0} (ext : External Args) (db : Db) (env : Env) (node : String) (r t : Task)
    → task_by_id db t.id ≡ some r
    → t.id ≡ r.id
    → is_terminal r.status ≡ false
    → TasksGrow db.tasks (hand_out ext db env node t).0.tasks
unfolding hand_out
hand_out-Grows ext db env node r t e same live =
    elim (Option-cases (credential_for_node ext db node)) [
      | inl c ↦ rw (c, hand_out) (TasksGrow-refl db.tasks)
      | inr (credential, c) ↦
          rw (c, hand_out)
            (elim (Option-cases (node_command_by_id db t.node_id t.command_id t.command_version)) [
              | inl f ↦
                  rw f (update_task_at-Grows db t.id r _ e same (failed-Advances r t _ _ _ live))
              | inr (cmd, f) ↦ rw f (TasksGrow-refl db.tasks)
            ])
    ]

poll_task-Grows :
    {Args : Type 0} (ext : External Args) (db : Db) (env : Env) (node : String)
    → Unique task_key db.tasks
    → TasksGrow db.tasks (poll_task ext db env node []).0.tasks
unfolding poll_task task_by_id
poll_task-Grows ext db env node d = elim (Option-cases (next_waiting node db.tasks)) [
  | inl e ↦
      let idle = claim-none env.now node db.tasks e in
      rw (idle, poll_task) (rw idle (TasksGrow-refl db.tasks))
  | inr (t, e) ↦
      let taken = claim-some env.now node db.tasks t e in
      rw (taken, poll_task)
        (rw taken (
          TasksGrow-trans db.tasks _ _ (dispatch_rows-Grows env.now t.id db.tasks) (
            hand_out-Grows ext (record db { tasks = dispatch_rows env.now t.id db.tasks }) env node
              _ t (dispatched_row env.now node db.tasks t d e) refl refl)))
]

running-Grows : (db : Db) (id : String) → TasksGrow db.tasks (mark_task_running db id).tasks
unfolding mark_task_running
running-Grows db id = running_rows-Grows id db.tasks

ended-Advances :
    (t : Task) (s : Status) (at : Option ℕ)
    → is_terminal t.status ≡ false
    → is_terminal s ≡ true
    → Advances t (write_task (record t { status = s; finished_at = at }) t)
ended-Advances t s at h k = ground arith

-- The statuses with which an event ends a task.
abbrev EndsWell : EventKind → Type 0
EndsWell (ended s) = is_terminal s ≡ true
EndsWell _ = Unit {0}

event_kind-EndsWell : (s : String) → EndsWell (event_kind s)
unfolding event_kind
event_kind-EndsWell s = ground arith

apply_event-Grows :
    (db : Db) (env : Env) (id : String) (t : Task) (k : EventKind)
    → task_by_id db id ≡ some t
    → EndsWell k
    → TasksGrow db.tasks (apply_event db env t k).0.tasks
unfolding apply_event
apply_event-Grows db env id t begun e w = begun_case t.status
  where
    begun_case :
        (s : Status)
        → TasksGrow db.tasks
            (let db' : Db = elim s [ dispatched ↦ mark_task_running db t.id | _ ↦ db ] in db').tasks
    begun_case dispatched = running-Grows db t.id
    begun_case _ = TasksGrow-refl db.tasks
apply_event-Grows db env id t (ended s) e w = elim (Bool-cases (is_terminal t.status)) [
  | inl over ↦ rw over (TasksGrow-refl db.tasks)
  | inr live ↦ rw live (update_task_at-Grows db id t _ e refl (ended-Advances t s _ live w))
]
apply_event-Grows db env id t progress_made e w = TasksGrow-refl db.tasks
apply_event-Grows db env id t unlisted e w = TasksGrow-refl db.tasks

record_event-Grows :
    {Args : Type 0} (ext : External Args) (db : Db) (env : Env) (node id : String)
    (inp : EventInput)
    → TasksGrow db.tasks (record_event ext db env node id inp).0.tasks
unfolding take_event
record_event-Grows ext db env node id inp =
    record_event_cases ext (λ r. TasksGrow db.tasks r.0.tasks) db env node id inp
      (TasksGrow-refl db.tasks)
      (λ t e mine. rw (tasks-append_event _ env.now _) (
        apply_event-Grows db env id t (event_kind inp.event_type) e
          (event_kind-EndsWell inp.event_type)))

finish-Advances :
    {Args : Type 0} (ext : External Args) (env : Env) (t : Task) (inp : ResultInput)
    → is_terminal t.status ≡ false
    → Advances t (write_task (finish ext env t inp) t)
unfolding finish result_status
finish-Advances ext env t inp h = ground arith

pub finish-id :
    {Args : Type 0} (ext : External Args) (env : Env) (t : Task) (inp : ResultInput)
    → (finish ext env t inp).id ≡ t.id
unfolding finish
finish-id ext env t inp = ground arith

record_result-Grows :
    {Args : Type 0} (ext : External Args) (db : Db) (env : Env) (node id : String)
    (inp : ResultInput)
    → TasksGrow db.tasks (record_result ext db env node id inp).0.tasks
unfolding settle
record_result-Grows ext db env node id inp =
    record_result_cases ext (λ r. TasksGrow db.tasks r.0.tasks) db env node id inp
      (TasksGrow-refl db.tasks)
      (λ t e mine.
        rw (tasks-append_event _ env.now _, tasks-save_output ext _ id inp)
          (elim (Bool-cases (is_terminal t.status)) [
            | inl over ↦ rw over (TasksGrow-refl db.tasks)
            | inr live ↦ rw live (
                update_task_at-Grows db id t _ e (finish-id ext env t inp)
                  (finish-Advances ext env t inp live))
          ]))

queue_tasks_for_retry-Grows :
    (db : Db) (node : String) (before : ℕ)
    → TasksGrow db.tasks (queue_tasks_for_retry db node before).0.tasks
unfolding queue_tasks_for_retry
queue_tasks_for_retry-Grows db node before = fail_unreachable-Grows _ db.tasks

-- One operation, on a table that keeps its primary key.
pub step-Grows :
    {Args : Type 0} (ext : External Args) (db : Db) (o : Operation Args)
    → Unique task_key db.tasks
    → TasksGrow db.tasks (step ext db o).tasks
unfolding step
step-Grows ext db (creates env node by actor key inp) d =
    create_task-Grows ext db env node by actor key inp
step-Grows ext db (cancels env scope id actor who) d = cancel_task-Grows db env scope id actor who
step-Grows ext db (polls env node) d = poll_task-Grows ext db env node d
step-Grows ext db (reports env node id inp) d = record_event-Grows ext db env node id inp
step-Grows ext db (concludes env node id inp) d = record_result-Grows ext db env node id inp
step-Grows ext db (sweeps node before) d = queue_tasks_for_retry-Grows db node before

pub run-Grows :
    {Args : Type 0} (ext : External Args) (db : Db) (os : List (Operation Args))
    → Unique task_key db.tasks
    → TasksGrow db.tasks (run ext db os).tasks
unfolding run
run-Grows ext db [] d = TasksGrow-refl db.tasks
run-Grows ext db (o ∷ os) d =
    let g = step-Grows ext db o d in
    TasksGrow-trans db.tasks _ _ g (run-Grows ext (step ext db o) os (g.1 d))

-- Through any history of operations a task keeps its row: its status never goes back in the order
-- queued, dispatched, running, ended; its node, command, arguments, timeout and queueing time never
-- change; and once it has ended nothing in its row changes any more.
pub run-Advances :
    {Args : Type 0} (ext : External Args) (db : Db) (os : List (Operation Args)) (id : String)
    (r : Task)
    → Unique task_key db.tasks
    → task_by_id db id ≡ some r
    → (s : Task) × (task_by_id (run ext db os) id ≡ some s) × Advances r s
unfolding task_by_id
run-Advances ext db os id r d e = (run-Grows ext db os d).0 id r e
