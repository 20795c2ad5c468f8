-- ===== src/Deploy/Service/Checks.antt =====
-- The checks of CreateOperation (backend/internal/service/deployment_ops.go) on the request's release,
-- backup and targets.
use server_cli.Common.{
  String, str_eq, Bool, true, false, not, ◌&&◌, ◌||◌, if◌then◌else◌, Option, none, some, List, [],
  ◌∷◌, map, select_rows, not_found, bad_request, offline, Result, ok, ◌>>=◌, ◌>>◌, guard, or_fail,
}
use server_cli.Task.Model.{Node}
use server_cli.Task.Service.{node_by_id, is_unreachable}
use server_cli.Deploy.Model.{
  Action, install, update, rollback, restore, Status, succeeded, Target, OperationTarget, Backup,
  DeployDb,
}
use server_cli.Deploy.Store.{release_by_id, target_by_id, targets_by_feature, backup_by_id}

-- An action that is none of the six is `none`.
pub record CreateOperationInput : Type 0 where
  pub action : Option Action
  pub feature_id : String
  pub release_id : String
  pub target_ids : List String
  pub node_id : String
  pub backup_id : String
  pub force_delete : Bool
  pub reason : String

abbrev pub requires_release : Action → Bool
requires_release install = true
requires_release update = true
requires_release rollback = true
requires_release _ = false

abbrev pub is_restore : Action → Bool
is_restore restore = true
is_restore _ = false

-- The actions that production holds back until they are confirmed.
abbrev pub needs_confirmation : Action → Bool
needs_confirmation install = true
needs_confirmation update = true
needs_confirmation restore = true
needs_confirmation _ = false

abbrev pub is_empty : {A : Type 0} → List A → Bool
is_empty [] = true
is_empty (x ∷ xs) = false

unfoldable pub is_listed : String → List String → Bool
is_listed s [] = false
is_listed s (x ∷ xs) = str_eq x s || is_listed s xs

-- The identifiers asked for, without the empty ones and repetitions; `seen` holds those met.
unfoldable pub distinct_ids : List String → List String → List String
distinct_ids seen [] = []
distinct_ids seen (x ∷ xs) =
    let rest = distinct_ids seen xs in
    let fresh = distinct_ids (x ∷ seen) xs in
    if str_eq x "" || is_listed x seen then rest else x ∷ fresh

unfoldable pub feature_targets : DeployDb → String → String → List String
feature_targets db feature_id node_id =
    map (λ (t : Target). t.id)
      (select_rows (λ (t : Target). t.enabled && (str_eq node_id "" || str_eq t.node_id node_id))
        (targets_by_feature db feature_id))

-- The targets named, else the feature's enabled ones.
unfoldable pub resolve_targets : DeployDb → CreateOperationInput → List String
resolve_targets db inp =
    if is_empty inp.target_ids
    then feature_targets db inp.feature_id inp.node_id
    else distinct_ids [] inp.target_ids

unfoldable pub check_release : DeployDb → CreateOperationInput → Result (Unit {0})
check_release db inp = if str_eq inp.release_id "" then ok tt else do
  r ← or_fail (release_by_id db inp.release_id) not_found
  guard (str_eq r.feature_id inp.feature_id) bad_request

abbrev pub is_succeeded : Status → Bool
is_succeeded succeeded = true
is_succeeded _ = false

unfoldable pub checked_backup : CreateOperationInput → Backup → Result (Option Backup)
checked_backup inp b = do
  guard (str_eq b.feature_id inp.feature_id) bad_request
  guard (is_succeeded b.status) bad_request
  guard (not (str_eq b.backup_mode "none")) bad_request
  ok (some b)

-- The backup that a restore reads; other actions have none.
unfoldable pub restore_backup : DeployDb → Action → CreateOperationInput → Result (Option Backup)
restore_backup db action inp =
    if is_restore action
    then or_fail (backup_by_id db inp.backup_id) not_found >>= checked_backup inp
    else ok none

abbrev pub on_node_of : Option Backup → Target → Bool
on_node_of none t = true
on_node_of (some b) t = str_eq b.node_id t.node_id

abbrev pub is_reachable : Node → Bool
is_reachable n = n.enabled && not (is_unreachable n.status)

-- The checks of one target: it exists, is the feature's, is enabled, and its node is reachable.
unfoldable pub check_target :
    DeployDb → CreateOperationInput → Option Backup → String → Result (Target × Node)
check_target db inp b id = do
  t ← or_fail (target_by_id db id) not_found
  guard (str_eq t.feature_id inp.feature_id) bad_request
  guard t.enabled bad_request
  guard (on_node_of b t) bad_request
  n ← or_fail (node_by_id db.core t.node_id) not_found
  guard (is_reachable n) offline
  ok (t, n)

unfoldable pub check_targets :
    DeployDb → CreateOperationInput → Option Backup → List String → Result (List (Target × Node))
check_targets db inp b [] = ok []
check_targets db inp b (id ∷ ids) =
    check_target db inp b id >>= λ c. check_targets db inp b ids >>= λ cs. ok (c ∷ cs)

-- envID: of the first node, `first` being its identifier.
unfoldable pub environment_of : String → String → List (Target × Node) → String
environment_of first env [] = env
environment_of first env ((t, n) ∷ cs) =
    environment_of (if str_eq first "" then n.id else first)
      (if str_eq first "" then n.environment_id else env) cs

-- opFrozenConfigHash: the first that is not empty.
unfoldable pub first_hash : List OperationTarget → String
first_hash [] = ""
first_hash (t ∷ ts) =
    let rest = first_hash ts in
    if str_eq t.frozen_config_hash "" then rest else t.frozen_config_hash
