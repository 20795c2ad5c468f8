-- ===== src/Task/Agent.antt =====
-- The node's side of backend/internal/service/task.go: the events and the final result that an
-- agent reports.
use server_cli.Common.{
  ℕ, ◌+◌, ◌==◌, ℤ, pos, nonpos, add_int64, String, str_eq, Bool, ◌||◌, ◌≡◌, refl, inl, inr,
  Bool-cases, Option-cases, str_eq_iff, if◌then◌else◌, Option, none, some, not_found, Result, ok,
  err,
}
use server_cli.Task.Model.{
  Status, dispatched, running, succeeded, failed, timed_out, cancelled, result_unknown, is_terminal,
  Task, TaskEvent, TaskOutput, Db, Env, External,
}
use server_cli.Task.Store.{
  task_by_id, update_task, mark_task_running, append_task_event_dedup, task_event_max_sequence,
  task_output, create_task_output, update_task_output,
}
use server_cli.Task.Service.{audited}

pub record EventInput : Type 0 where
  pub event_type : String
  pub sequence : ℤ
  pub message : String
  pub occurred_at : ℕ

-- The cases of the switch on the event type.
pub data EventKind : Type 0 where
  progress_made begun : EventKind
  ended : Status → EventKind
  unlisted : EventKind

unfoldable pub event_kind : String → EventKind
event_kind s =
    if str_eq s "accepted" || str_eq s "started"
    then begun
    else if str_eq s "completed"
    then ended succeeded
    else if str_eq s "failed"
    then ended failed
    else if str_eq s "timed_out"
    then ended timed_out
    else if str_eq s "cancelled"
    then ended cancelled
    else if str_eq s "stdout_chunk" || str_eq s "stderr_chunk" || str_eq s "progress"
    then progress_made
    else unlisted

-- The status that the event row records when a task begins.
abbrev pub begun_status : Status → Status
begun_status dispatched = running
begun_status s = s

-- The switch of RecordEvent: the database after it, and the status of the event row.
unfoldable pub apply_event : Db → Env → Task → EventKind → Db × Option Status
apply_event db env t begun = (
  elim t.status [ dispatched ↦ mark_task_running db t.id | _ ↦ db ],
  some (begun_status t.status),
)
apply_event db env t (ended s) = (
  if is_terminal t.status
      then db
      else update_task db (record t { status = s; finished_at = some env.now }),
  some s,
)
apply_event db env t progress_made = (db, some t.status)
apply_event db env t unlisted = (db, none)

-- The sequence number that an event gets: the agent's, or the task's next one.
unfoldable pub event_sequence : Db → String → ℤ → ℤ
event_sequence db id asked =
    if nonpos asked then add_int64 (task_event_max_sequence db id) (pos 1) else asked

pub record ResultInput : Type 0 where
  pub status : String
  pub stdout_text : String
  pub stderr_text : String
  pub exit_code : Option ℤ
  pub error_code : String
  pub error_message : String
  pub truncated : Bool
  pub finished_at : ℕ

-- The switch on the reported status.
unfoldable pub result_status : String → Status
result_status s =
    if str_eq s "succeeded"
    then succeeded
    else if str_eq s "failed"
    then failed
    else if str_eq s "timed_out"
    then timed_out
    else if str_eq s "cancelled"
    then cancelled
    else result_unknown

abbrev pub result_event : Task → TaskEvent
result_event t = record {
  task_id = t.id;
  sequence = pos 0;
  event_type = "result";
  status = some t.status;
  message = "final result recorded";
  occurred_at = 0;
  source = "agent";
}

module _ {Args : Type 0} (ext : External Args) where
  -- The row of an event, with the status that the switch gives it.
  abbrev pub event_row : Db → Env → String → EventInput → Option Status → TaskEvent
  event_row db env task_id inp status = record {
    task_id = task_id;
    sequence = event_sequence db task_id inp.sequence;
    event_type = inp.event_type;
    status = status;
    message = ext.redact inp.message;
    occurred_at = if inp.occurred_at == 0 then env.now else inp.occurred_at;
    source = "agent";
  }

  -- What RecordEvent writes once the task is found and is the node's own.
  unfoldable pub take_event : Db → Env → String → Task → EventInput → Db
  take_event db env task_id t inp =
      let (db', status) = apply_event db env t (event_kind inp.event_type) in
      append_task_event_dedup db' env.now (event_row db env task_id inp status)

  -- RecordEvent.
  unfoldable pub record_event : Db → Env → String → String → EventInput → Db × Result (Unit {0})
  record_event db env node_id task_id inp = elim (task_by_id db task_id) [
    | none ↦ (db, err not_found)
    | some t ↦
        if str_eq t.node_id node_id
        then (take_event db env task_id t inp, ok tt)
        else (db, err not_found)
  ]

  pub record_event_own :
      (db : Db) (env : Env) (node_id task_id : String) (inp : EventInput) (t : Task)
      → task_by_id db task_id ≡ some t
      → t.node_id ≡ node_id
      → record_event db env node_id task_id inp ≡ (take_event db env task_id t inp, ok tt)
  unfolding record_event
  record_event_own db env node_id task_id inp t e mine =
      rw (e, record_event) (rw ((str_eq_iff t.node_id node_id).1 mine) refl)

  -- RecordEvent refuses a task that is not there or is another node's, or takes the event.
  pub record_event_cases {ℓ} :
      (P : Db × Result (Unit {0}) → Type ℓ) (db : Db) (env : Env) (node_id task_id : String)
      (inp : EventInput)
      → P (db, err not_found)
      → ((t : Task)
          → task_by_id db task_id ≡ some t
          → t.node_id ≡ node_id
          → P (take_event db env task_id t inp, ok tt))
      → P (record_event db env node_id task_id inp)
  unfolding record_event
  record_event_cases P db env node_id task_id inp refuse accept =
      elim (Option-cases (task_by_id db task_id)) [
        | inl e ↦ rw (e, record_event) refuse
        | inr (t, e) ↦
            rw (e, record_event)
              (elim (Bool-cases (str_eq t.node_id node_id)) [
                | inl mine ↦ rw mine (accept t e ((str_eq_iff t.node_id node_id).0 mine))
                | inr other ↦ rw other refuse
              ])
      ]

  -- The task as RecordResult leaves it.
  unfoldable pub finish : Env → Task → ResultInput → Task
  finish env t inp = if is_terminal t.status then t else record t {
    status = result_status inp.status;
    finished_at = some (if inp.finished_at == 0 then env.now else inp.finished_at);
    exit_code = inp.exit_code;
    error_code = inp.error_code;
    error_message = ext.redact inp.error_message;
  }

  abbrev pub redacted_output : String → ResultInput → TaskOutput
  redacted_output task_id inp = record {
    task_id = task_id;
    stdout_text = ext.redact inp.stdout_text;
    stderr_text = ext.redact inp.stderr_text;
    stdout_bytes = ext.byte_length (ext.redact inp.stdout_text);
    stderr_bytes = ext.byte_length (ext.redact inp.stderr_text);
    truncated = inp.truncated;
    redaction_count = ext.redactions inp.stdout_text + ext.redactions inp.stderr_text;
  }

  unfoldable pub save_output : Db → String → ResultInput → Db
  save_output db task_id inp = elim (task_output db task_id) [
    | none ↦ create_task_output db (redacted_output task_id inp)
    | some _ ↦ update_task_output db (redacted_output task_id inp)
  ]

  -- What RecordResult writes once the task is found and is the node's own.
  unfoldable pub settle : Db → Env → String → String → Task → ResultInput → Db
  settle db env node_id task_id t inp =
      let t' = finish env t inp in
      let db' = if is_terminal t.status then db else update_task db t' in
      audited
        (append_task_event_dedup (save_output db' task_id inp) env.now
          (record (result_event t') { task_id = task_id }))
        (record {
          actor_type = "node";
          actor_id = node_id;
          node_id = node_id;
          action = "task.result";
          task_id = task_id;
        })

  -- RecordResult.
  unfoldable pub record_result : Db → Env → String → String → ResultInput → Db × Result Task
  record_result db env node_id task_id inp = elim (task_by_id db task_id) [
    | none ↦ (db, err not_found)
    | some t ↦
        if str_eq t.node_id node_id
        then (settle db env node_id task_id t inp, ok (finish env t inp))
        else (db, err not_found)
  ]

  -- RecordResult refuses a task that is not there or is another node's, or settles it.
  pub record_result_cases {ℓ} :
      (P : Db × Result Task → Type ℓ) (db : Db) (env : Env) (node_id task_id : String)
      (inp : ResultInput)
      → P (db, err not_found)
      → ((t : Task)
          → task_by_id db task_id ≡ some t
          → t.node_id ≡ node_id
          → P (settle db env node_id task_id t inp, ok (finish env t inp)))
      → P (record_result db env node_id task_id inp)
  unfolding record_result
  record_result_cases P db env node_id task_id inp refuse accept =
      elim (Option-cases (task_by_id db task_id)) [
        | inl e ↦ rw (e, record_result) refuse
        | inr (t, e) ↦
            rw (e, record_result)
              (elim (Bool-cases (str_eq t.node_id node_id)) [
                | inl mine ↦ rw mine (accept t e ((str_eq_iff t.node_id node_id).0 mine))
                | inr other ↦ rw other refuse
              ])
      ]
