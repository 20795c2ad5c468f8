-- ===== src/Task/Examples.antt =====
-- A small cluster, on which the theorems about tasks are applied.
use Prim.Native.String.{len}
use server_cli.Common.{
  Unique, ℕ, pos, String, str_eq, true, false, ◌≡◌, refl, Option, none, some, List, [], ◌∷◌, ◌++◌,
  find_row, stamp_before, codes_before, after_seconds, fraction, select_rows, update_rows, arith,
  ok, err, unavailable, seconds,
}
use server_cli.Task.Model.{
  queued, dispatched, succeeded, cancelled, Task, TaskEvent, TaskOutput, online, accepted,
  Enrollment, NodeCommand, Db, Env, Payload, External,
}
use server_cli.Task.Store.{
  task_key, has_id, is_waiting, task_by_id, task_by_idempotency, insert_task, next_waiting,
  sorts_before, dispatch_rows, claims_row, claim_next_task, task_event_max_sequence, max_sequence,
  sequences_of, node_command_by_id,
}
use server_cli.Task.Service.{
  CreateTaskInput, argument_check, create_new_task, create_task, queue_task, effective_timeout,
  get_task, cancel_task,
}
use server_cli.Task.Dispatch.{poll_task, hand_out, credential_for_node, sign_payload}
use server_cli.Task.Agent.{
  EventInput, ResultInput, record_event, result_status, finish, record_result,
}
use server_cli.Task.Operations.{polls, cancels, sweeps, run}
use server_cli.Task.Advance.{Advances}
use server_cli.Task.Creation.{CreateOutcome, create_task_outcome, create_task_idempotent}
use server_cli.Task.Claims.{IsOldest, Taken, picks, claim_takes_first, claim_exclusive}
use server_cli.Task.Lifecycle.{run-Advances}
use server_cli.Task.Results.{Settled, record_result_ends}
use server_cli.Task.Events.{Under, unnumbered_event_kept, cancel_hides_result}
use server_cli.Task.Scope.{OthersKept, agents_confined, scope_confines}
use server_cli.Task.Payloads.{Carries, poll_delivers, poll_strands}

abbrev pub plain : External (Unit {0})
plain = record {
  check_arguments = λ schema args. accepted;
  marshal = λ args. some "{}";
  canonical_arguments = λ raw. none;
  credential = λ id. id;
  payload_hash = λ p. p.task_id;
  hmac_hex = λ key message. key;
  redact = λ s. s;
  redactions = λ s. 0;
  byte_length = len;
}

abbrev pub at_noon : Env
at_noon = record { now = 1000; new_id = λ n. "new-task" }

abbrev waiting_task : String → String → ℕ → Task
waiting_task id node at = record {
  id = id;
  node_id = node;
  command_id = "system.info";
  command_version = "1";
  requested_by = "admin";
  idempotency_key = id;
  arguments_json = "{}";
  status = queued;
  queued_at = at;
  started_at = none;
  finished_at = none;
  timeout_seconds = pos 60;
  exit_code = none;
  error_code = "";
  error_message = "";
  is_protected = false;
}

abbrev first : Task
first = waiting_task "t1" "n1" 10

abbrev second : Task
second = waiting_task "t2" "n1" 20

abbrev foreign : Task
foreign = waiting_task "t3" "n2" 5

abbrev cluster : Db
cluster = record {
  tasks = second ∷ first ∷ foreign ∷ [];
  events = [];
  outputs = [];
  nodes = record { id = "n1"; environment_id = "e1"; enabled = true; status = online } ∷ [];
  commands =
      record {
        node_id = "n1";
        command_id = "system.info";
        command_version = "1";
        parameter_schema_json = "";
        timeout_seconds = pos 30;
        max_output_bytes = pos 1024;
        enabled = true;
      }
      ∷ [];
  enrollments = record { id = "e1"; node_id = "n1" } ∷ [];
  histories = [];
  audit = [];
  woken = [];
}

abbrev request : CreateTaskInput (Unit {0})
request = record {
  command_id = "system.info";
  command_version = "1";
  arguments = tt;
  timeout_seconds = pos 0;
}

abbrev created : Task
created = record (waiting_task "new-task" "n1" 1000) {
  idempotency_key = "k";
  timeout_seconds = pos 30;
}

creation : (create_task plain cluster at_noon "n1" "admin" "admin" "k" request).1 ≡ ok created
unfolding create_task create_new_task queue_task insert_task task_by_id task_by_idempotency find_row
    str_eq argument_check node_command_by_id effective_timeout
creation = refl

create_task_outcome_example :
    CreateOutcome plain cluster at_noon "n1" "admin" "k" request created
      (create_task plain cluster at_noon "n1" "admin" "admin" "k" request).0
create_task_outcome_example =
    create_task_outcome plain cluster at_noon "n1" "admin" "admin" "k" request created creation

create_task_idempotent_example :
    let db = (create_task plain cluster at_noon "n1" "admin" "admin" "k" request).0 in
    create_task plain db at_noon "n2" "admin" "system" "k" request ≡ (db, ok created)
unfolding str_eq
create_task_idempotent_example =
    create_task_idempotent plain cluster at_noon at_noon "n1" "n2" "admin" "admin" "system" "k"
      request request created creation refl refl

keys : Unique task_key cluster.tasks
unfolding find_row str_eq
keys = (refl, (refl, (refl, tt)))

found_first : task_by_id cluster "t1" ≡ some first
unfolding task_by_id find_row str_eq
found_first = refl

run-Advances_example :
    (s : Task) × (task_by_id
        (run plain cluster
          (polls at_noon "n1" ∷ cancels at_noon "" "t1" "admin" "root" ∷ sweeps "n1" 2000 ∷ []))
        "t1"
      ≡ some s)
    × Advances first s
run-Advances_example =
    run-Advances plain cluster
      (polls at_noon "n1" ∷ cancels at_noon "" "t1" "admin" "root" ∷ sweeps "n1" 2000 ∷ []) "t1"
      first keys found_first

first_claimed : (claim_next_task 1000 "n1" [] cluster.tasks).1 ≡ some first
unfolding claim_next_task next_waiting sorts_before str_eq stamp_before codes_before after_seconds
    fraction
first_claimed = refl

claim_takes_first_example :
    (is_waiting "n1" first ≡ true)
    × IsOldest "n1" first cluster.tasks
    × (find_row (has_id "t1") (claim_next_task 1000 "n1" [] cluster.tasks).0
        ≡ some (record first { status = dispatched; started_at = some 1000 }))
claim_takes_first_example = claim_takes_first 1000 "n1" cluster.tasks first keys first_claimed

-- Another connection takes the first task, so that the claim goes on to the second.
abbrev contention : List (List Task → List Task)
contention = dispatch_rows 900 "t1" ∷ []

second_claimed : (claim_next_task 1000 "n1" contention cluster.tasks).1 ≡ some second
unfolding claim_next_task next_waiting sorts_before dispatch_rows update_rows claims_row find_row
    str_eq stamp_before codes_before after_seconds fraction
second_claimed = refl

-- The two claims of the example run one after the other, the second one uncontested.
claim_exclusive_example :
    let after = (claim_next_task 1000 "n1" contention cluster.tasks).0 in
    Taken 1000 "t2" after × (picks "t2" (claim_next_task 2000 "n1" [] after).1 ≡ false)
claim_exclusive_example =
    claim_exclusive 1000 "n1" contention cluster.tasks second second_claimed 2000 "n1" [] tt

-- Within a second the stored texts sort otherwise than the instants: "...00.5Z" before "...00Z".
half_before_whole : (stamp_before 500_000_000 0 ≡ true) × (stamp_before 0 1_000_000_000 ≡ true)
unfolding stamp_before codes_before after_seconds fraction
half_before_whole = (refl, refl)

abbrev pub success : ResultInput
success = record {
  status = "succeeded";
  stdout_text = "up 3 days";
  stderr_text = "";
  exit_code = some (pos 0);
  error_code = "";
  error_message = "";
  truncated = false;
  finished_at = 0;
}

abbrev succeeded_first : Task
succeeded_first = record first {
  status = succeeded;
  finished_at = some 1000;
  exit_code = some (pos 0);
}

conclusion : (record_result plain cluster at_noon "n1" "t1" success).1 ≡ ok succeeded_first
unfolding record_result finish result_status task_by_id find_row str_eq
conclusion = refl

record_result_ends_example :
    Settled plain cluster "t1" success
      (record_result plain cluster at_noon "n1" "t1" success).0
      succeeded_first
record_result_ends_example =
    record_result_ends plain cluster at_noon "n1" "t1" success succeeded_first conclusion

abbrev chunk : EventInput
chunk = record { event_type = "stdout_chunk"; sequence = pos 0; message = "up"; occurred_at = 7 }

unnumbered_event_kept_example :
    (e : TaskEvent) × ((record_event plain cluster at_noon "n1" "t1" chunk).0.events
      ≡ cluster.events ++ e ∷ [])
    × (e.task_id ≡ "t1")
    × (e.message ≡ "up")
    × (e.occurred_at ≡ 1000)
    × Under e.sequence (sequences_of "t1" cluster.events)
unfolding task_event_max_sequence sequences_of select_rows max_sequence
unnumbered_event_kept_example =
    unnumbered_event_kept plain cluster at_noon "n1" "t1" chunk first found_first refl refl
      (omega arith, omega arith)

abbrev cancelled_first : Task
cancelled_first = record first { status = cancelled; finished_at = some 1000 }

cancellation : (cancel_task cluster at_noon "" "t1" "admin" "root").1 ≡ ok cancelled_first
unfolding cancel_task task_by_id find_row str_eq
cancellation = refl

cancel_hides_result_example :
    let db = (cancel_task cluster at_noon "" "t1" "admin" "root").0 in
    (record_result plain db at_noon "n1" "t1" success).0.events ≡ db.events
cancel_hides_result_example =
    cancel_hides_result plain cluster at_noon at_noon "" "t1" "admin" "root" "n1" success
      cancelled_first cancellation

agents_confined_example :
    OthersKept "n2" cluster (record_event plain cluster at_noon "n2" "t3" chunk).0
    × OthersKept "n2" cluster (record_result plain cluster at_noon "n2" "t3" success).0
agents_confined_example = agents_confined plain cluster at_noon "n2" "t3" chunk success

scope_confines_example :
    ((t : Task) (es : List TaskEvent) (o : Option TaskOutput)
      → get_task cluster "n1" "t1" ≡ ok (t, es, o)
      → t.node_id ≡ "n1")
    × OthersKept "n1" cluster (cancel_task cluster at_noon "n1" "t1" "node" "n1").0
unfolding str_eq
scope_confines_example = scope_confines cluster at_noon "n1" "t1" "node" "n1" refl

abbrev handed : Payload
handed = record {
  task_id = "t1";
  node_id = "n1";
  command_id = "system.info";
  command_version = "1";
  arguments = "{}";
  created_at = 10;
  not_before = 10;
  deadline = 60_000_000_010;
  idempotency_key = "t1";
  attempt = 1;
  timeout_seconds = pos 60;
  max_output_bytes = pos 1024;
  payload_hash = "t1";
  signature = "e1";
}

delivery : (poll_task plain cluster at_noon "n1" []).1 ≡ ok (some handed)
unfolding poll_task claim_next_task next_waiting sorts_before hand_out credential_for_node
    sign_payload node_command_by_id find_row str_eq seconds stamp_before codes_before after_seconds
    fraction
delivery = refl

poll_delivers_example :
    (t : Task) × (cmd : NodeCommand) × (e : Enrollment) × Carries plain cluster "n1" handed t cmd e
poll_delivers_example = poll_delivers plain cluster at_noon "n1" handed delivery

foreign_next : next_waiting "n2" cluster.tasks ≡ some foreign
unfolding next_waiting str_eq
foreign_next = refl

poll_strands_example :
    ((poll_task plain cluster at_noon "n2" []).1 ≡ err unavailable)
    × (task_by_id (poll_task plain cluster at_noon "n2" []).0 "t3"
        ≡ some (record foreign { status = dispatched; started_at = some 1000 }))
unfolding find_row str_eq
poll_strands_example = poll_strands plain cluster at_noon "n2" foreign keys foreign_next refl
