-- ===== src/Deploy/Targets/Marks.antt =====
-- What executeTarget of backend/internal/service/deployment_scheduler.go marks: the preflight step, a
-- target that is skipped, and the end of a target's row.

use server_cli.Common.{
  ℕ, ◌+◌, String, str_eq, join, Bool, true, false, not, ◌&&◌, if◌then◌else◌, Option, none, some, [],
  ◌∷◌, find_row, update_rows, Result, ok,
}
use server_cli.Deploy.Model.{
  Action, install, update, backup, rollback, health_check, restore, Status, queued, succeeded,
  cancelled, healthy, Feature, Release, Target, Step, NodeAddress, DeployDb,
}
use server_cli.Deploy.Exec.{Exec}
use server_cli.Deploy.Store.{target_by_id, release_by_id, update_target}
use server_cli.Deploy.Steps.{try_op_target}

-- targetResult. An empty rollback target or release is none.
pub record TargetResult : Type 0 where
  pub succeeded : Bool
  pub cancelled : Bool
  pub rollback_target : String
  pub rollback_release : String

-- What one step of a target came to: it passed, the operation was cancelled meanwhile, or the
-- target fails with a message.
pub data StepEnd : Type 0 where
  passed interrupted : StepEnd
  broken : String → StepEnd

abbrev pub target_done : TargetResult
target_done = record {
  succeeded = true;
  cancelled = false;
  rollback_target = "";
  rollback_release = "";
}

abbrev pub target_interrupted : TargetResult
target_interrupted = record target_done { succeeded = false; cancelled = true }

abbrev pub target_failed : TargetResult
target_failed = record target_done { succeeded = false }

abbrev pub is_update : Action → Bool
is_update update = true
is_update _ = false

abbrev pub is_backup : Action → Bool
is_backup backup = true
is_backup _ = false

abbrev pub is_health_check : Action → Bool
is_health_check health_check = true
is_health_check _ = false

-- healthAction.
abbrev pub checks_health : Action → Bool
checks_health install = true
checks_health update = true
checks_health rollback = true
checks_health restore = true
checks_health _ = false

-- Does the feature keep data that an update backs up first?
abbrev pub has_backup_mode : Feature → Bool
has_backup_mode f = not (str_eq f.backup_mode "") && not (str_eq f.backup_mode "none")

abbrev pub step_is_preflight : Exec → Step → Bool
step_is_preflight x s =
    str_eq s.operation_id x.op.id
    && str_eq s.operation_target_id x.t.id
    && str_eq s.step_type "preflight"
    && (elim s.status [ queued ↦ true | _ ↦ false ])

-- markPreflightDone.
unfoldable pub mark_preflight_done : Exec → Exec
mark_preflight_done x = record x {
  db = record x.db {
    steps =
        update_rows (step_is_preflight x)
          (λ (s : Step). record s {
            status = succeeded;
            started_at = some x.now;
            finished_at = some x.now;
            message = "preflight ok";
          })
          x.db.steps;
  };
}

-- The release that a health check without one runs against: the target's current one.
unfoldable pub current_release : Exec → Option Release
current_release x = elim (target_by_id x.db x.t.target_id) [
  | none ↦ none
  | some tg ↦
      if str_eq tg.current_release_id "" then none else release_by_id x.db tg.current_release_id
]

unfoldable pub release_for : Exec → Option Release → Option Release
release_for x (some r) = some r
release_for x none = if is_health_check x.op.action then current_release x else none

-- A health check with no release to check.
abbrev pub lacks_release : Exec → Option Release → Bool
lacks_release x none = is_health_check x.op.action
lacks_release x (some r) = false

-- The reason to skip a target that is already where the operation would bring it.
unfoldable pub skip_reason : Action → String → Target → Option String
skip_reason install release_id tg =
    if not (str_eq tg.current_release_id "") && str_eq tg.current_release_id tg.desired_release_id
    then some "target already at desired release"
    else none
skip_reason update release_id tg =
    if not (str_eq release_id "") && str_eq tg.current_release_id release_id
    then some (join ("target already at release " ∷ release_id ∷ []))
    else none
skip_reason rollback release_id tg =
    if not (str_eq tg.last_healthy_release_id "")
      && str_eq tg.current_release_id tg.last_healthy_release_id
    then some "current release is already the last healthy release"
    else none
skip_reason _ release_id tg = none

unfoldable pub skips : Exec → Option String
skips x = elim (target_by_id x.db x.t.target_id) [
  | none ↦ none
  | some tg ↦ skip_reason x.op.action x.op.release_id tg
]

-- The write of an operation target's end.
abbrev pub end_target : Status → String → Exec → Exec
end_target status msg x =
    try_op_target x (record x.t { status = status; error_message = msg; finished_at = some x.now })

-- cancelTarget.
abbrev pub cancel_target : Exec → Exec
cancel_target = end_target cancelled "operation cancelled"

-- What succeedTarget writes on the target itself.
unfoldable pub settle : Action → String → ℕ → Target → Target
settle install release_id now tg = record tg {
  current_release_id = release_id;
  last_healthy_release_id = release_id;
  actual_status = healthy;
  config_revision = tg.config_revision + 1;
}
settle update release_id now tg = record tg {
  current_release_id = release_id;
  last_healthy_release_id = release_id;
  actual_status = healthy;
  config_revision = tg.config_revision + 1;
}
settle rollback release_id now tg = record tg {
  current_release_id = release_id;
  actual_status = healthy;
  config_revision = tg.config_revision + 1;
}
settle health_check release_id now tg = record tg {
  actual_status = healthy;
  last_health_check_at = some now;
}
settle _ release_id now tg = tg

-- succeedTarget.
unfoldable pub succeed_target : Exec → Exec
succeed_target x =
    let x1 = end_target succeeded "" x in
    elim (target_by_id x1.db x1.t.target_id) [
      | none ↦ x1
      | some tg ↦ record x1 {
        db = update_target x1.db (settle x1.op.action x1.op.release_id x1.now tg);
      }
    ]

-- The first address of a node, "" without one.
unfoldable pub node_address : DeployDb → String → String
node_address db node_id =
    elim (find_row (λ (a : NodeAddress). str_eq a.node_id node_id) db.node_addresses) [
      | none ↦ ""
      | some a ↦ a.address
    ]

-- What follows a step that has passed.
unfoldable pub go_on : Exec → StepEnd → Exec × Result StepEnd → Exec × Result StepEnd
go_on x passed rest = rest
go_on x interrupted rest = (x, ok interrupted)
go_on x (broken msg) rest = (x, ok (broken msg))
