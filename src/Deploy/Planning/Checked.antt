-- ===== src/Deploy/Planning/Checked.antt =====
-- What the checks of CreateOperation on a release, a backup and a target establish
-- (backend/internal/service/deployment_ops.go).
use server_cli.Common.{
  Bool, Error, String, str_eq, true, false, not, ◌≡◌, refl, sym, ◌>>=◌, guard, Option, some, arith,
  ok, or_fail, ok_inj, >>=-eq-ok, guard-eq-ok, or_fail-eq-ok, not-true, not_found, bad_request,
}
use server_cli.Task.Model.{Node}
use server_cli.Task.Service.{node_by_id}
use server_cli.Deploy.Model.{Action, Status, succeeded, Release, Target, Backup, DeployDb}
use server_cli.Deploy.Store.{release_by_id, backup_by_id, target_by_id}
use server_cli.Deploy.Service.{
  CreateOperationInput, is_restore, check_release, is_succeeded, checked_backup, restore_backup,
  is_reachable,
}

-- A target that an operation may run on: the feature's, enabled, and on a node that is reached.
pub record Ready (db : DeployDb) (feature_id : String) (t : Target) (n : Node) : Type 0 where
  pub found : target_by_id db t.id ≡ some t
  pub same_feature : str_eq t.feature_id feature_id ≡ true
  pub enabled : t.enabled ≡ true
  pub node : node_by_id db.core t.node_id ≡ some n
  pub reachable : is_reachable n ≡ true

-- The backup that a restore names: of the feature, complete, and of a kind that can be put back.
pub record Restorable (db : DeployDb) (inp : CreateOperationInput) (k : Backup) : Type 0 where
  pub found : backup_by_id db inp.backup_id ≡ some k
  pub same_feature : str_eq k.feature_id inp.feature_id ≡ true
  pub complete : k.status ≡ succeeded
  pub has_mode : str_eq k.backup_mode "none" ≡ false

-- The release that is named, where one is, is there and of the feature.
abbrev pub ReleaseKnown : DeployDb → CreateOperationInput → Type 0
ReleaseKnown db inp =
    str_eq inp.release_id "" ≡ false
    → (r : Release) × (release_by_id db inp.release_id ≡ some r)
      × (str_eq r.feature_id inp.feature_id ≡ true)

-- A restore works on the backup that it names.
abbrev pub BackupKnown : DeployDb → CreateOperationInput → Action → Option Backup → Type 0
BackupKnown db inp action b =
    is_restore action ≡ true → (k : Backup) × (b ≡ some k) × Restorable db inp k

is_succeeded_lem : (s : Status) → is_succeeded s ≡ true → s ≡ succeeded
is_succeeded_lem succeeded h = refl
is_succeeded_lem _ h = ground arith

module _ (db : DeployDb) (inp : CreateOperationInput) where
  guard_ok : (t : Bool) (e : Error) → guard t e ≡ ok tt → t ≡ true
  guard_ok true e h = refl
  guard_ok false e h = ground arith

  pub check_release_lem : check_release db inp ≡ ok tt → ReleaseKnown db inp
  unfolding check_release
  check_release_lem h named =
      let checked : (do
        r ← or_fail (release_by_id db inp.release_id) not_found
        guard (str_eq r.feature_id inp.feature_id) bad_request)
          ≡ ok tt =
        rw named at h in
      let (r, hr, h1) = >>=-eq-ok (or_fail (release_by_id db inp.release_id) not_found) _ checked in
      (r, or_fail-eq-ok _ _ hr, guard_ok (str_eq r.feature_id inp.feature_id) bad_request h1)

  pub restore_backup_lem :
      (a : Action) (b : Option Backup) → restore_backup db a inp ≡ ok b → BackupKnown db inp a b
  unfolding restore_backup checked_backup
  restore_backup_lem a b h restores =
      let named : (or_fail (backup_by_id db inp.backup_id) not_found >>= checked_backup inp)
          ≡ ok b =
        rw restores at h in
      let (k, hk, h1) = >>=-eq-ok (or_fail (backup_by_id db inp.backup_id) not_found) _ named in
      let (c1, h2) = guard-eq-ok (str_eq k.feature_id inp.feature_id) bad_request _ h1 in
      let (c2, h3) = guard-eq-ok (is_succeeded k.status) bad_request _ h2 in
      let (c3, h4) = guard-eq-ok (not (str_eq k.backup_mode "none")) bad_request _ h3 in
      (
        k,
        sym (ok_inj h4),
        record {
          found = or_fail-eq-ok _ _ hk;
          same_feature = c1;
          complete = is_succeeded_lem k.status c2;
          has_mode = not-true _ c3;
        },
      )
