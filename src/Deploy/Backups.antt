-- ===== src/Deploy/Backups.antt =====
-- RunBackupsForNode of backend/internal/service/deployment_ops.go: one backup operation for each
-- feature that has an enabled target on the node.
use server_cli.Common.{
  ℕ, ◌+◌, ◌*◌, String, str_eq, Bool, true, false, ◌&&◌, ◌||◌, if◌then◌else◌, Option, none, some,
  List, [], ◌∷◌, map, select_rows, length, not_found, Error, ok, err,
}
use server_cli.Task.Model.{Env}
use server_cli.Deploy.Model.{backup, Target, Operation, DeployDb, DeployExternal}
use server_cli.Deploy.Store.{targets_by_feature}
use server_cli.Deploy.Service.{CreateOperationInput, is_listed, create_operation}

-- The enabled targets of the feature on the node; an empty name is no condition.
unfoldable pub backup_targets : DeployDb → String → String → List Target
backup_targets db node_id feature_id =
    select_rows (λ (t : Target). t.enabled && (str_eq node_id "" || str_eq t.node_id node_id))
      (if str_eq feature_id "" then db.targets else targets_by_feature db feature_id)

-- `order`: the features of the targets, each once, as they are met; `seen` holds those before.
unfoldable pub features_of : List String → List Target → List String
features_of seen [] = []
features_of seen (t ∷ ts) =
    let rest = features_of seen ts in
    let fresh = features_of (t.feature_id ∷ seen) ts in
    if is_listed t.feature_id seen then rest else t.feature_id ∷ fresh

-- byFeature: the targets of one feature.
unfoldable pub ids_of_feature : String → List Target → List String
ids_of_feature feature_id ts =
    map (λ (t : Target). t.id) (select_rows (λ (t : Target). str_eq t.feature_id feature_id) ts)

abbrev pub backup_input : String → List String → CreateOperationInput
backup_input feature_id ids = record {
  action = some backup;
  feature_id = feature_id;
  release_id = "";
  target_ids = ids;
  node_id = "";
  backup_id = "";
  force_delete = false;
  reason = "scheduled/per-server backup";
}

-- The operations created, with the error that ended the loop.
abbrev pub BackupRun : Type 0
BackupRun = List Operation × Option Error

module _ {Args : Type 0} (ext : DeployExternal Args) where
  -- The loop over the features; `drawn` identifiers are drawn before. An operation draws one, and
  -- two for each of its targets.
  unfoldable pub create_backups :
      DeployDb → Env → String → ℕ → List Target → List String → DeployDb × BackupRun
  create_backups db env actor_id drawn ts [] = (db, ([], none))
  create_backups db env actor_id drawn ts (f ∷ fs) =
      let ids = ids_of_feature f ts in
      let (db1, made) =
        create_operation ext db (record { now = env.now; new_id = λ i. env.new_id (drawn + i) })
          actor_id (backup_input f ids) in
      let (db2, (os, failed)) =
        create_backups db1 env actor_id (drawn + 1 + 2 * length ids) ts fs in
      elim made [ err e ↦ (db1, ([], some e)) | ok o ↦ (db2, (o ∷ os, failed)) ]

  abbrev pub is_no_feature : List String → Bool
  is_no_feature [] = true
  is_no_feature (f ∷ fs) = false

  -- RunBackupsForNode.
  unfoldable pub run_backups_for_node :
      DeployDb → Env → String → String → String → DeployDb × BackupRun
  run_backups_for_node db env actor_id node_id feature_id =
      let ts = backup_targets db node_id feature_id in
      if is_no_feature (features_of [] ts)
      then (db, ([], some not_found))
      else create_backups db env actor_id 0 ts (features_of [] ts)
