-- ===== src/Deploy/Examples.antt =====
-- A small deployment, on which the theorems about deployments are applied.
use server_cli.Common.{
  zero, suc, ◌<◌, keyed, Unique, ℕ, pos, String, str_eq, join, true, false, ◌≡◌, refl, none, some,
  List, [], ◌∷◌, All, find_row, select_rows, update_rows, length, arith, Result, ok,
}
use server_cli.Task.Model.{online, Db, NodeCommand}
use server_cli.Task.Store.{
  insert_task, update_task, task_by_id, task_by_idempotency, task_output, append_task_event_dedup,
  create_task_output, update_task_output, node_command_by_id,
}
use server_cli.Task.Service.{
  create_task, create_new_task, queue_task, argument_check, effective_timeout,
  record_task_parameter_usage,
}
use server_cli.Task.Agent.{
  record_result, finish, result_status, save_output, settle as settle_result, take_event,
}
use server_cli.Task.Examples.{plain, at_noon, success}
use server_cli.Deploy.Model.{
  install, running, awaiting_confirmation, succeeded, cancelled, pending, Feature, Target,
  Operation, OperationTarget, SecretReference, DeployDb, DeployExternal,
}
use server_cli.Deploy.Store.{
  op_target_key, operation_key, op_targets_of, feature_by_id, release_by_id, target_by_id,
  targets_by_feature, operation_by_id, active_operation, secret_references_of, insert_operation,
  insert_op_target, insert_op_targets, insert_step, insert_steps, create_bundle, create_step_row,
  clashes, update_operation, node_clashes, update_op_target, update_target, update_step,
  claim_queued,
}
use server_cli.Deploy.Exec.{Round, Exec, ◌▷◌}
use server_cli.Deploy.Targets.{
  mark_preflight_done, release_for, skip_reason, skips, settle, succeed_target, go_on,
  fail_on_error, judge_step, run_step, run_plan, target_config, control_plane_health, probe,
  probe_after, run_health, after_health, after_plan, run_target, run_unless_skipped, execute_target,
}
use server_cli.Deploy.Freeze.{secret_refs, insert_ref, sort_refs, canonical_refs_hash}
use server_cli.Deploy.Service.{
  CreateOperationInput, feature_targets, resolve_targets, check_release, restore_backup,
  check_target, check_targets, environment_of, first_hash, freeze_target, freeze_targets,
  preflight_steps, check_request, check_rows, plan_targets, plan_operation, create_operation,
  cancel_operation,
}
use server_cli.Deploy.Scheduler.{
  no_target, no_step, final_status, current_status, finish_operation, proceed, execute_targets,
  trigger_auto_rollback, conclude, named_release, execute_operation,
}
use server_cli.Deploy.Steps.{
  newest_command, op_cancelled, poll_rounds, poll_with, poll_task, try_operation, try_op_target,
  create_step, end_step, freeze_config_hash, task_arguments, judge_task, run_task, run_with,
  run_task_step,
}
use server_cli.Deploy.Rows.{TargetsGrow-refl}
use server_cli.Deploy.Works.{Calm, Peaceful, SteadyRound, Steady}
use server_cli.Deploy.Rollouts.{Good}
use server_cli.Deploy.Finishing.{is_final, RowAt}
use server_cli.Deploy.Verdicts.{HasRow, operation_ends, success_borne_out, ended_targets_stay}
use server_cli.Deploy.Secrets.{Rotated, rotation_stops_step}
use server_cli.Deploy.Claims.{production_waits}
use server_cli.Deploy.Cancelling.{Closed, Stopped, cancel_closes}

abbrev listed : List SecretReference → String
listed [] = ""
listed (r ∷ rs) = join (r.object_key ∷ "," ∷ listed rs ∷ [])

abbrev calls : DeployExternal (Unit {0})
calls = record {
  is_production = true;
  resolve_config = λ db feature_id t. some "c";
  hash_refs = listed;
  equal_fold = str_eq;
  redact = λ s. s;
  sanitize = λ s. s;
  arguments = λ a. tt;
  parse_config = λ s. none;
  backup_result = λ t. none;
  date_path = λ n. "day";
  trim_space = λ s. s;
  trim_slash = λ s. s;
  health_text = λ code. "";
  mentions_manual_rollback = λ s. false;
  error_text = λ e. "error";
  http_get = λ now address port path. none;
}

abbrev ids : ℕ → String
ids zero = "i"
ids (suc n) = join ("i" ∷ ids n ∷ [])

abbrev command : String → NodeCommand
command id = record {
  node_id = "n1";
  command_id = id;
  command_version = "1";
  parameter_schema_json = "";
  timeout_seconds = pos 30;
  max_output_bytes = pos 1024;
  enabled = true;
}

abbrev node_commands : Db
node_commands = record {
  tasks = [];
  events = [];
  outputs = [];
  nodes = record { id = "n1"; environment_id = "e1"; enabled = true; status = online } ∷ [];
  commands = command "deployment.install" ∷ command "deployment.health-check" ∷ [];
  enrollments = [];
  histories = [];
  audit = [];
  woken = [];
}

abbrev target_on_n1 : Target
target_on_n1 = record {
  id = "g1";
  feature_id = "f1";
  node_id = "n1";
  config_profile_id = "";
  desired_release_id = "r1";
  current_release_id = "";
  last_healthy_release_id = "";
  actual_status = pending;
  last_health_check_at = none;
  config_revision = 0;
  enabled = true;
}

abbrev rollout : Operation
rollout = record {
  id = "o1";
  action = install;
  feature_id = "f1";
  release_id = "r1";
  status = running;
  requested_by = "root";
  reason = "first";
  environment_id = "e1";
  frozen_config_hash = "c";
  backup_id = "";
  force_delete = false;
  created_at = 1;
  started_at = some 2;
  finished_at = none;
}

abbrev open_row : OperationTarget
open_row = record no_target {
  id = "p1";
  operation_id = "o1";
  target_id = "g1";
  node_id = "n1";
  desired_release_id = "r1";
  frozen_config_hash = "c";
}

abbrev ended_row : OperationTarget
ended_row = record open_row { id = "p2"; target_id = "g2"; node_id = "n2"; status = succeeded }

abbrev web : Feature
web = record { id = "f1"; feature_key = "web"; backup_mode = "none"; rollback_capability = "none" }

abbrev idle_db : DeployDb
idle_db = record {
  features = web ∷ [];
  releases = record { id = "r1"; feature_id = "f1"; version = "1.0" } ∷ [];
  targets = target_on_n1 ∷ [];
  operations = [];
  op_targets = [];
  steps = [];
  backups = [];
  secret_references = [];
  config_profiles = [];
  node_addresses = [];
  core = node_commands;
}

abbrev busy_db : DeployDb
busy_db = record idle_db { operations = rollout ∷ []; op_targets = ended_row ∷ open_row ∷ [] }

-- While the scheduler waits, the agent reports the success of a task.
abbrev reports : String → Round
reports id = record {
  commit = λ db. record db { core = (record_result plain db.core at_noon "n1" id success).0 };
  later = 1001;
}

reports-Calm : (id : String) → Calm (reports id)
reports-Calm id = λ db. TargetsGrow-refl [] db.op_targets

reports-Steady : (id : String) → SteadyRound (reports id)
reports-Steady id = λ db i found. found

-- The identifiers of the two tasks that the installation and its health check create.
abbrev claimed : Exec
claimed = record {
  db = busy_db;
  now = 1000;
  drawn = 0;
  polls = (reports "ii" ∷ []) ∷ (reports "iiiii" ∷ []) ∷ [];
  op = rollout;
  t = no_target;
  step = no_step;
}

claimed-Peaceful : Peaceful claimed.polls
claimed-Peaceful = ((reports-Calm "ii", tt), ((reports-Calm "iiiii", tt), tt))

rows_apart : Unique op_target_key busy_db.op_targets
unfolding find_row str_eq
rows_apart = (refl, (refl, tt))

has_targets : 0 < length (op_targets_of busy_db "o1")
unfolding op_targets_of select_rows str_eq
has_targets = omega arith

claimed-Steady : Steady claimed.polls
claimed-Steady = ((reports-Steady "ii", tt), ((reports-Steady "iiiii", tt), tt))

claimed-HasRow : HasRow claimed
unfolding find_row str_eq
claimed-HasRow = refl

operation_ends_example :
    ((execute_operation calls plain ids claimed).1 ≡ ok tt)
    × (is_final (execute_operation calls plain ids claimed).0.op.status ≡ true)
    × RowAt
        (execute_operation calls plain ids claimed).0.db
        "o1"
        (execute_operation calls plain ids claimed).0.op.status
operation_ends_example =
    operation_ends calls plain ids claimed refl rows_apart claimed-Peaceful has_targets
      claimed-Steady claimed-HasRow

ended_targets_stay_example :
    (t' : OperationTarget) × (find_row
        (keyed op_target_key "p2")
        (execute_operation calls plain ids claimed).0.db.op_targets
      ≡ some t')
    × (t'.status ≡ succeeded)
unfolding find_row str_eq
ended_targets_stay_example =
    ended_targets_stay calls plain ids claimed refl rows_apart claimed-Peaceful has_targets "p2"
      ended_row refl refl

abbrev request : CreateOperationInput
request = record {
  action = some install;
  feature_id = "f1";
  release_id = "r1";
  target_ids = [];
  node_id = "";
  backup_id = "";
  force_delete = false;
  reason = "first";
}

abbrev planned : Operation
planned = record rollout {
  id = "new-task";
  status = awaiting_confirmation;
  created_at = 1000;
  started_at = none;
}

abbrev created : DeployDb × Result Operation
created = create_operation calls idle_db at_noon "root" request

creation : created ≡ (created.0, ok planned)
unfolding create_operation plan_operation check_request check_rows feature_by_id find_row str_eq
    check_release release_by_id resolve_targets feature_targets targets_by_feature select_rows
    restore_backup active_operation plan_targets check_targets check_target target_by_id
    freeze_targets freeze_target environment_of first_hash create_bundle insert_operation
    operation_by_id insert_op_targets insert_op_target insert_steps insert_step preflight_steps
creation = refl

one_operation : Unique operation_key created.0.operations
unfolding create_operation plan_operation check_request check_rows feature_by_id find_row str_eq
    check_release release_by_id resolve_targets feature_targets targets_by_feature select_rows
    restore_backup active_operation plan_targets check_targets check_target target_by_id
    freeze_targets freeze_target environment_of first_hash create_bundle insert_operation
    operation_by_id insert_op_targets insert_op_target insert_steps insert_step preflight_steps
one_operation = (refl, tt)

production_waits_example :
    (planned.status ≡ awaiting_confirmation)
    × (operation_by_id (claim_queued created.0 2000).0 "new-task" ≡ some planned)
production_waits_example =
    production_waits calls idle_db created.0 at_noon "root" request planned 2000 refl creation refl
      one_operation

abbrev cancellation : DeployDb × Result Operation
cancellation = cancel_operation calls busy_db at_noon "root" "o1" "wrong release"

abbrev stopped : Operation
stopped = record rollout { status = cancelled; reason = "wrong release"; finished_at = some 1000 }

cancels : cancellation ≡ (cancellation.0, ok stopped)
unfolding cancel_operation operation_by_id find_row str_eq update_operation clashes
cancels = refl

cancel_closes_example :
    (stopped.status ≡ cancelled)
    × Stopped calls cancellation.0 "o1" "wrong release"
    × All (Closed cancellation.0) (op_targets_of busy_db "o1")
cancel_closes_example =
    cancel_closes calls busy_db cancellation.0 at_noon "root" "o1" "wrong release" stopped
      rows_apart cancels

-- The references were frozen before one of them was replaced.
abbrev at_install : Exec
at_install = record claimed {
  db = record busy_db {
    secret_references =
        record {
          id = "s1";
          feature_id = "f1";
          scope_type = "shared";
          scope_id = "";
          object_key = "new-key";
          version = "2";
          content_hash = "h2";
          encryption_mode = "plain";
        }
        ∷ [];
  };
  t = record open_row { frozen_secret_hash = "old-key," };
}

rotated : Rotated calls plain ids at_install
unfolding str_eq secret_refs secret_references_of select_rows canonical_refs_hash sort_refs
    insert_ref join
rotated = (refl, refl)

rotation_stops_step_example :
    ((run_task_step calls plain ids at_install web none "deployment.install").0.db.core
      ≡ node_commands)
    × (msg : String) × ((run_task_step calls plain ids at_install web none "deployment.install").1
        ≡ ok (false, msg))
rotation_stops_step_example =
    rotation_stops_step calls plain ids at_install web none "deployment.install" rotated

succeeds : (execute_operation calls plain ids claimed).0.op.status ≡ succeeded
unfolding feature_by_id release_by_id target_by_id operation_by_id op_targets_of insert_step
    create_step_row clashes update_operation node_clashes update_op_target update_target update_step
    ◌▷◌ newest_command op_cancelled poll_rounds poll_with poll_task try_operation try_op_target
    create_step end_step freeze_config_hash task_arguments judge_task run_task run_with
    run_task_step mark_preflight_done release_for skip_reason skips settle succeed_target go_on
    fail_on_error judge_step run_step run_plan target_config control_plane_health probe probe_after
    run_health after_health after_plan run_target run_unless_skipped execute_target final_status
    current_status finish_operation proceed execute_targets trigger_auto_rollback conclude
    named_release execute_operation create_task create_new_task record_task_parameter_usage
    queue_task insert_task task_by_id task_by_idempotency argument_check node_command_by_id
    effective_timeout record_result finish result_status save_output create_task_output
    update_task_output task_output settle_result take_event find_row select_rows update_rows str_eq
    join append_task_event_dedup update_task canonical_refs_hash sort_refs secret_refs
    secret_references_of
succeeds = refl

success_borne_out_example :
    All
      (λ (t : OperationTarget). Good (execute_operation calls plain ids claimed).0.db t.id)
      (op_targets_of busy_db "o1")
success_borne_out_example =
    success_borne_out calls plain ids claimed refl rows_apart claimed-Peaceful has_targets succeeds
