-- ===== src/Task/Dispatch.antt =====
-- The dispatch of a task to its node: PollTask and the signed payload
-- (backend/internal/service/task.go).
use Prim.Native.String.{◌++◌ as join}
use server_cli.Common.{
  seconds, add_time, String, str_eq, Option, none, some, List, find_row, unavailable, Result, ok,
  err,
}
use server_cli.Task.Model.{failed, Task, NodeCommand, Enrollment, Db, Env, Payload, External}
use server_cli.Task.Store.{
  update_task, claim_next_task, node_command_by_id, cancelled_running_tasks,
}

abbrev pub enrollment_of : Db → String → Option Enrollment
enrollment_of db node_id = find_row (λ (e : Enrollment). str_eq e.node_id node_id) db.enrollments

abbrev pub unsigned : Task → NodeCommand → Payload
unsigned t cmd = record {
  task_id = t.id;
  node_id = t.node_id;
  command_id = t.command_id;
  command_version = t.command_version;
  arguments = t.arguments_json;
  created_at = t.queued_at;
  not_before = t.queued_at;
  deadline = add_time t.queued_at (seconds t.timeout_seconds);
  idempotency_key = t.idempotency_key;
  attempt = 1;
  timeout_seconds = t.timeout_seconds;
  max_output_bytes = cmd.max_output_bytes;
  payload_hash = "";
  signature = "";
}

-- The text that the control plane signs.
abbrev pub signed_text : String → String → String
signed_text id hash = join "task:" (join id (join ":" hash))

module _ {Args : Type 0} (ext : External Args) where
  -- CredentialForNode: derived from the enrollment's identifier.
  unfoldable pub credential_for_node : Db → String → Option String
  credential_for_node db node_id = elim (enrollment_of db node_id) [
    | none ↦ none
    | some e ↦ some (ext.credential e.id)
  ]

  unfoldable pub sign_payload : String → Payload → Payload
  sign_payload credential base =
      let hash = ext.payload_hash base in
      record base {
        payload_hash = hash;
        signature = ext.hmac_hex credential (signed_text base.task_id hash);
      }

  -- What PollTask does with the task that it claimed.
  unfoldable pub hand_out : Db → Env → String → Task → Db × Result (Option Payload)
  hand_out db env node_id t = elim (credential_for_node db node_id) [
    | none ↦ (db, err unavailable)
    | some credential ↦ elim (node_command_by_id db t.node_id t.command_id t.command_version) [
      | none ↦ (
        update_task db (record t {
          status = failed;
          finished_at = some env.now;
          error_code = "COMMAND_NOT_FOUND";
          error_message = "command no longer registered";
        }),
        err unavailable,
      )
      | some cmd ↦ (db, ok (some (sign_payload credential (unsigned t cmd))))
    ]
  ]

  -- PollTask. The list is that of `claim_next_task`.
  unfoldable pub poll_task :
      Db → Env → String → List (List Task → List Task) → Db × Result (Option Payload)
  poll_task db env node_id rounds =
      let (tasks, claimed) = claim_next_task env.now node_id rounds db.tasks in
      let db' = record db { tasks = tasks } in
      elim claimed [ none ↦ (db', ok none) | some t ↦ hand_out db' env node_id t ]

-- CancelledTasks.
unfoldable pub cancelled_tasks : Db → String → Result (List String)
cancelled_tasks db node_id = ok (cancelled_running_tasks db node_id)
