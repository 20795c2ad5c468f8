-- ===== src/Task/Service.antt =====
-- The requester's side of backend/internal/service/task.go: creation, lookup and cancellation.
-- A handler takes the database and returns it with its result.
use text.Mathlib.Text.{starts_with}
use server_cli.Common.{
  ◌+◌, ℤ, pos, nonpos, String, str_eq, Bool, true, false, not, ◌&&◌, ◌||◌, if◌then◌else◌, Option,
  none, some, List, [], ◌∷◌, ◌++◌, find_row, update_rows, ◌≡◌, inl, inr, Bool-cases, Option-cases,
  Error, not_found, bad_request, offline, disabled, terminal, constraint, schema_invalid, Result,
  ok, err,
}
use server_cli.Task.Model.{
  queued, cancelled, is_terminal, Task, TaskEvent, TaskOutput, NodeStatus, Node, NodeCommand,
  ParameterHistory, AuditEntry, Db, Env, ArgumentCheck, accepted, rejected, invalid, External,
}
use server_cli.Task.Store.{
  task_by_id, task_by_idempotency, insert_task, update_task, node_command_by_id,
  append_task_event_dedup, task_output, task_events,
}

-- scopeNodeID != "" && scopeNodeID != t.NodeID
abbrev pub out_of_scope : String → String → Bool
out_of_scope scope node_id = not (str_eq scope "") && not (str_eq scope node_id)

abbrev pub is_unreachable : NodeStatus → Bool
is_unreachable NodeStatus.offline = true
is_unreachable NodeStatus.disabled = true
is_unreachable _ = false

pub record CreateTaskInput (Args : Type 0) : Type 0 where
  pub command_id : String
  pub command_version : String
  pub arguments : Args
  pub timeout_seconds : ℤ

abbrev pub audited : Db → AuditEntry → Db
audited db a = record db { audit = a ∷ db.audit }

-- Dispatcher.Notify.
abbrev pub notified : Db → String → Db
notified db node_id = record db { woken = node_id ∷ db.woken }

abbrev pub node_by_id : Db → String → Option Node
node_by_id db id = find_row (λ (n : Node). str_eq n.id id) db.nodes

-- The timeout asked for, else the command's, else a minute.
unfoldable pub effective_timeout : ℤ → ℤ → ℤ
effective_timeout asked default =
    let timeout = if nonpos asked then default else asked in
    if nonpos timeout then pos 60 else timeout

abbrev pub history_key : String → String → String → String → ParameterHistory → Bool
history_key node_id command_id version hash p =
    str_eq p.node_id node_id
    && str_eq p.command_id command_id
    && str_eq p.command_version version
    && str_eq p.arguments_hash hash

abbrev pub history_has_id : String → ParameterHistory → Bool
history_has_id id p = str_eq p.id id

abbrev pub new_task :
    {Args : Type 0}
    → Env
    → String
    → String
    → String
    → CreateTaskInput Args
    → NodeCommand
    → String
    → Task
new_task env node_id requested_by key inp cmd args_json = record {
  id = env.new_id 0;
  node_id = node_id;
  command_id = inp.command_id;
  command_version = inp.command_version;
  requested_by = requested_by;
  idempotency_key = key;
  arguments_json = args_json;
  status = queued;
  queued_at = env.now;
  started_at = none;
  finished_at = none;
  timeout_seconds = effective_timeout inp.timeout_seconds cmd.timeout_seconds;
  exit_code = none;
  error_code = "";
  error_message = "";
  is_protected = false;
}

module _ {Args : Type 0} (ext : External Args) where
  -- RecordTaskParameterUsage, called with an empty hash.
  unfoldable pub record_task_parameter_usage : Db → Env → Task → Db
  record_task_parameter_usage db env t = elim (ext.canonical_arguments t.arguments_json) [
    | none ↦ db
    | some (canon, hash) ↦
        elim (find_row (history_key t.node_id t.command_id t.command_version hash) db.histories) [
          | some old ↦ record db {
            histories =
                update_rows (history_has_id old.id)
                  (λ p. record p {
                    last_used_at = env.now;
                    last_task_id = t.id;
                    use_count = p.use_count + 1;
                  })
                  db.histories;
          }
          | none ↦ record db {
            histories =
                db.histories
                ++ record {
                  id = env.new_id 1;
                  node_id = t.node_id;
                  command_id = t.command_id;
                  command_version = t.command_version;
                  arguments_json = canon;
                  arguments_hash = hash;
                  last_task_id = t.id;
                  first_used_at = env.now;
                  last_used_at = env.now;
                  use_count = 1;
                }
                  ∷ [];
          }
        ]
  ]

  -- What CreateTask does from the INSERT on.
  unfoldable pub queue_task : Db → Env → String → Task → Db × Result Task
  queue_task db env actor_type t = elim (insert_task db env.now t) [
    | none ↦ (db, err constraint)
    | some stored ↦ (
      notified
          (audited
            (if starts_with t.command_id "deployment."
              then stored
              else record_task_parameter_usage stored env t)
            (record {
              actor_type = actor_type;
              actor_id = t.requested_by;
              node_id = t.node_id;
              action = "task.create";
              task_id = t.id;
            }))
          t.node_id,
      ok (record t { status = queued; queued_at = env.now }),
    )
  ]

  -- The check of the arguments against the command's stored schema, if it has one.
  unfoldable pub argument_check : NodeCommand → Args → ArgumentCheck
  argument_check cmd args =
      if str_eq cmd.parameter_schema_json ""
      then accepted
      else ext.check_arguments cmd.parameter_schema_json args

  -- What CreateTask does once no earlier task answers the request.
  unfoldable pub create_new_task :
      Db → Env → String → String → String → String → CreateTaskInput Args → Db × Result Task
  create_new_task db env node_id requested_by actor_type key inp = elim (node_by_id db node_id) [
    | none ↦ (db, err not_found)
    | some node ↦
        if not node.enabled || is_unreachable node.status
        then (db, err offline)
        else elim (node_command_by_id db node_id inp.command_id inp.command_version) [
          | none ↦ (db, err not_found)
          | some cmd ↦
              if not cmd.enabled
              then (db, err disabled)
              else elim (argument_check cmd inp.arguments) [
                | invalid ↦ (db, err schema_invalid)
                | rejected ↦ (db, err bad_request)
                | accepted ↦ elim (ext.marshal inp.arguments) [
                  | none ↦ (db, err bad_request)
                  | some json ↦
                      queue_task db env actor_type
                        (new_task env node_id requested_by key inp cmd json)
                ]
              ]
        ]
  ]

  -- CreateTask.
  unfoldable pub create_task :
      Db → Env → String → String → String → String → CreateTaskInput Args → Db × Result Task
  create_task db env node_id requested_by actor_type key inp =
      if str_eq inp.command_id "" || str_eq inp.command_version ""
      then (db, err bad_request)
      else if str_eq key ""
      then create_new_task db env node_id requested_by actor_type key inp
      else elim (task_by_idempotency db requested_by key) [
        | some existing ↦ (db, ok existing)
        | none ↦ create_new_task db env node_id requested_by actor_type key inp
      ]

-- GetTask.
unfoldable pub get_task : Db → String → String → Result (Task × List TaskEvent × Option TaskOutput)
get_task db scope id = elim (task_by_id db id) [
  | none ↦ err not_found
  | some t ↦
      if out_of_scope scope t.node_id
      then err not_found
      else ok (t, task_events db id, task_output db id)
]

abbrev pub cancel_event : Task → TaskEvent
cancel_event t = record {
  task_id = t.id;
  sequence = pos 0;
  event_type = "cancelled";
  status = some cancelled;
  message = "task cancelled";
  occurred_at = 0;
  source = "control-plane";
}

abbrev pub cancelled_at : Env → Task → Task
cancelled_at env t = record t { status = cancelled; finished_at = some env.now }

-- What CancelTask writes once the task is found, in scope and not ended.
unfoldable pub cancel_found : Db → Env → String → String → Task → Db
cancel_found db env actor_type actor_id t =
    let t' = cancelled_at env t in
    audited (append_task_event_dedup (update_task db t') env.now (cancel_event t')) (record {
      actor_type = actor_type;
      actor_id = actor_id;
      node_id = t.node_id;
      action = "task.cancel";
      task_id = t.id;
    })

-- CancelTask.
unfoldable pub cancel_task : Db → Env → String → String → String → String → Db × Result Task
cancel_task db env scope id actor_type actor_id = elim (task_by_id db id) [
  | none ↦ (db, err not_found)
  | some t ↦
      if out_of_scope scope t.node_id
      then (db, err not_found)
      else if is_terminal t.status
      then (db, err terminal)
      else (cancel_found db env actor_type actor_id t, ok (cancelled_at env t))
]

-- CancelTask refuses a task that is not there, out of scope or ended, or cancels it.
pub cancel_task_cases {ℓ} :
    (P : Db × Result Task → Type ℓ) (db : Db) (env : Env) (scope id actor_type actor_id : String)
    → ((e : Error) → P (db, err e))
    → ((t : Task)
        → task_by_id db id ≡ some t
        → out_of_scope scope t.node_id ≡ false
        → is_terminal t.status ≡ false
        → P (cancel_found db env actor_type actor_id t, ok (cancelled_at env t)))
    → P (cancel_task db env scope id actor_type actor_id)
unfolding cancel_task
cancel_task_cases P db env scope id actor_type actor_id refuse accept =
    elim (Option-cases (task_by_id db id)) [
      | inl e ↦ rw (e, cancel_task) (refuse not_found)
      | inr (t, e) ↦
          rw (e, cancel_task)
            (elim (Bool-cases (out_of_scope scope t.node_id)) [
              | inl out ↦ rw out (refuse not_found)
              | inr inside ↦ rw inside (elim (Bool-cases (is_terminal t.status)) [
                | inl over ↦ rw over (refuse terminal)
                | inr live ↦ rw live (accept t e inside live)
              ])
            ])
    ]
