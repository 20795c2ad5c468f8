-- ===== src/Task/Store.antt =====
-- The statements of backend/internal/store/task.go and of store/taskparam.go.
use Prim.Native.String.{compare as compare_text}
use Prim.Native.Nat.{Ordering}
use server_cli.Common.{
  ℕ, ℤ, pos, ltb_ℤ, String, str_eq, Bool, true, false, not, ◌&&◌, ◌||◌, if◌then◌else◌, Option, none,
  some, List, [], ◌∷◌, ◌++◌, stamp_before, ◌==◌, find_row, select_rows, update_rows, is_some, map,
}
use server_cli.Task.Model.{
  Status, queued, dispatched, running, cancelled, node_unreachable, Task, TaskEvent, TaskOutput, Db,
  NodeCommand,
}

abbrev pub task_key : Task → String
task_key t = t.id

-- Is the row the one with this identifier?
abbrev pub has_id : String → Task → Bool
has_id id t = str_eq t.id id

abbrev pub has_key : String → String → Task → Bool
has_key requested_by key t = str_eq t.requested_by requested_by && str_eq t.idempotency_key key

unfoldable pub task_by_id : Db → String → Option Task
task_by_id db id = find_row (has_id id) db.tasks

unfoldable pub task_by_idempotency : Db → String → String → Option Task
task_by_idempotency db requested_by key = find_row (has_key requested_by key) db.tasks

-- CreateTask: the INSERT fails on a taken id or (requested_by, idempotency_key).
unfoldable pub insert_task : Db → ℕ → Task → Option Db
insert_task db now t =
    if is_some (task_by_id db t.id)
      || is_some (task_by_idempotency db t.requested_by t.idempotency_key)
    then none
    else some (record db { tasks = db.tasks ++ record t { status = queued; queued_at = now } ∷ [] })

-- The columns that UpdateTask writes.
abbrev pub write_task : Task → Task → Task
write_task t r = record r {
  status = t.status;
  started_at = t.started_at;
  finished_at = t.finished_at;
  exit_code = t.exit_code;
  error_code = t.error_code;
  error_message = t.error_message;
  is_protected = t.is_protected;
}

unfoldable pub update_task : Db → Task → Db
update_task db t = record db { tasks = update_rows (has_id t.id) (write_task t) db.tasks }

abbrev pub is_queued : Status → Bool
is_queued queued = true
is_queued _ = false

abbrev pub is_dispatched : Status → Bool
is_dispatched dispatched = true
is_dispatched _ = false

abbrev pub is_cancelled : Status → Bool
is_cancelled cancelled = true
is_cancelled _ = false

-- MarkTaskRunning.
unfoldable pub mark_task_running : Db → String → Db
mark_task_running db id = record db {
  tasks =
      update_rows (λ t. has_id id t && is_dispatched t.status) (λ t. record t { status = running })
        db.tasks;
}

-- QueueTasksForRetry. NULL < before is not true in SQL.
abbrev pub started_before : ℕ → Option ℕ → Bool
started_before before none = false
started_before before (some at) = stamp_before at before

abbrev pub is_stale : String → ℕ → Task → Bool
is_stale node_id before t =
    str_eq t.node_id node_id && is_dispatched t.status && started_before before t.started_at

unfoldable pub fail_unreachable : List String → List Task → List Task
fail_unreachable [] tasks = tasks
fail_unreachable (id ∷ ids) tasks = fail_unreachable ids (
    update_rows (λ t. has_id id t && is_dispatched t.status)
      (λ t. record t { status = node_unreachable }) tasks)

unfoldable pub queue_tasks_for_retry : Db → String → ℕ → Db × List String
queue_tasks_for_retry db node_id before =
    let ids = map (λ (t : Task). t.id) (select_rows (is_stale node_id before) db.tasks) in
    (record db { tasks = fail_unreachable ids db.tasks }, ids)

-- ORDER BY queued_at, id, of the texts stored: two of them are equal if the instants are.
abbrev pub text_lt : String → String → Bool
text_lt a b = elim (compare_text a b) [ Ordering.lt ↦ true | _ ↦ false ]

unfoldable pub sorts_before : Task → Task → Bool
sorts_before t u =
    stamp_before t.queued_at u.queued_at || (t.queued_at == u.queued_at && text_lt t.id u.id)

abbrev pub is_waiting : String → Task → Bool
is_waiting node_id t = str_eq t.node_id node_id && is_queued t.status

-- The first row of `ORDER BY queued_at, id LIMIT 1` among the waiting ones.
unfoldable pub next_waiting : String → List Task → Option Task
next_waiting node_id [] = none
next_waiting node_id (t ∷ ts) =
    let later = next_waiting node_id ts in
    if is_waiting node_id t
    then elim later [ none ↦ some t | some u ↦ if sorts_before u t then some u else some t ]
    else later

-- The guarded UPDATE of a claim, and the test that it changed a row.
unfoldable pub dispatch_rows : ℕ → String → List Task → List Task
dispatch_rows now id =
    update_rows (λ t. has_id id t && is_queued t.status)
      (λ t. record t { status = dispatched; started_at = some now })

unfoldable pub claims_row : String → List Task → Bool
claims_row id ts = is_some (find_row (λ t. has_id id t && is_queued t.status) ts)

-- ClaimNextTask. Each entry of the list is what other connections commit between the SELECT and
-- the UPDATE of one round; a round that loses its row to them is repeated. The row is returned as
-- the SELECT read it.
unfoldable pub claim_next_task :
    ℕ → String → List (List Task → List Task) → List Task → List Task × Option Task
claim_next_task now node_id [] ts = elim (next_waiting node_id ts) [
  | none ↦ (ts, none)
  | some t ↦ (dispatch_rows now t.id ts, some t)
]
claim_next_task now node_id (others ∷ rounds) ts = elim (next_waiting node_id ts) [
  | none ↦ (ts, none)
  | some t ↦ elim (claims_row t.id (others ts)) [
    | true ↦ (dispatch_rows now t.id (others ts), some t)
    | false ↦ claim_next_task now node_id rounds (others ts)
  ]
]

abbrev pub same_slot : TaskEvent → TaskEvent → Bool
same_slot e f =
    str_eq f.task_id e.task_id
    && (not (ltb_ℤ e.sequence f.sequence) && not (ltb_ℤ f.sequence e.sequence))

-- AppendTaskEventDedup: a row with the same (task_id, sequence) makes the INSERT do nothing.
unfoldable pub append_task_event_dedup : Db → ℕ → TaskEvent → Db
append_task_event_dedup db now e =
    if is_some (find_row (same_slot e) db.events)
    then db
    else record db { events = db.events ++ record e { occurred_at = now } ∷ [] }

-- TaskEventMaxSequence: 0 where the task has no event.
unfoldable pub max_sequence : List ℤ → ℤ
max_sequence [] = pos 0
max_sequence (x ∷ []) = x
max_sequence (x ∷ y ∷ xs) = let m = max_sequence (y ∷ xs) in if ltb_ℤ x m then m else x

unfoldable pub sequences_of : String → List TaskEvent → List ℤ
sequences_of id es = map (λ (e : TaskEvent). e.sequence) (select_rows (λ e. str_eq e.task_id id) es)

unfoldable pub task_event_max_sequence : Db → String → ℤ
task_event_max_sequence db id = max_sequence (sequences_of id db.events)

abbrev pub output_of : String → TaskOutput → Bool
output_of id o = str_eq o.task_id id

unfoldable pub task_output : Db → String → Option TaskOutput
task_output db id = find_row (output_of id) db.outputs

unfoldable pub create_task_output : Db → TaskOutput → Db
create_task_output db o = record db { outputs = db.outputs ++ o ∷ [] }

unfoldable pub update_task_output : Db → TaskOutput → Db
update_task_output db o = record db {
  outputs =
      update_rows (output_of o.task_id)
        (λ r. record r {
          stdout_text = o.stdout_text;
          stderr_text = o.stderr_text;
          stdout_bytes = o.stdout_bytes;
          stderr_bytes = o.stderr_bytes;
          truncated = o.truncated;
          redaction_count = o.redaction_count;
        })
        db.outputs;
}

unfoldable pub node_command_by_id : Db → String → String → String → Option NodeCommand
node_command_by_id db node_id command_id version =
    find_row
      (λ (c : NodeCommand).
        str_eq c.node_id node_id
        && str_eq c.command_id command_id
        && str_eq c.command_version version)
      db.commands

-- CancelledRunningTasks.
unfoldable pub cancelled_running_tasks : Db → String → List String
cancelled_running_tasks db node_id =
    map (λ (t : Task). t.id)
      (select_rows (λ t. str_eq t.node_id node_id && is_cancelled t.status) db.tasks)

-- TaskEvents: ORDER BY sequence.
unfoldable pub insert_event : TaskEvent → List TaskEvent → List TaskEvent
insert_event e [] = e ∷ []
insert_event e (f ∷ fs) =
    let rest = insert_event e fs in if ltb_ℤ f.sequence e.sequence then f ∷ rest else e ∷ f ∷ fs

unfoldable pub sort_events : List TaskEvent → List TaskEvent
sort_events [] = []
sort_events (e ∷ es) = insert_event e (sort_events es)

unfoldable pub task_events : Db → String → List TaskEvent
task_events db id = sort_events (select_rows (λ e. str_eq e.task_id id) db.events)
