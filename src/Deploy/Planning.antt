-- ===== src/Deploy/Planning.antt =====
-- What CreateOperation has checked of an operation that it plans, and how the plan is made.
mod Checked
pub use Checked.*
use server_cli.Common.{
  Bool, Error, ℕ, suc, String, str_eq, true, false, not, ◌&&◌, ◌≡◌, refl, sym, subst, ap, ◌∙◌,
  ◌>>=◌, guard, Option, none, some, some_inj, map, List, [], ◌∷◌, is_some, All, arith, ok, or_fail,
  ok_inj, >>=-eq-ok, guard-eq-ok, or_fail-eq-ok, not-true, not_found, bad_request, conflict,
  offline, constraint, str_eq_iff, find_row_holds,
}
use server_cli.Task.Model.{Env, Node}
use server_cli.Task.Service.{node_by_id}
use server_cli.Deploy.Model.{
  Action, Status, queued, succeeded, Release, Feature, Target, Operation, OperationTarget, Backup,
  DeployDb, DeployExternal,
}
use server_cli.Deploy.Store.{
  feature_by_id, release_by_id, backup_by_id, target_by_id, target_key, active_operation,
}
use server_cli.Deploy.Freeze.{secret_refs, canonical_refs_hash}
use server_cli.Deploy.Service.{
  CreateOperationInput, requires_release, is_restore, first_status, is_empty, resolve_targets,
  check_release, is_succeeded, checked_backup, restore_backup, on_node_of, is_reachable,
  check_target, check_targets, freeze_target, freeze_targets, plan_targets, new_operation,
  check_request, check_rows, plan_operation,
}

-- The row of a target, with what was frozen for it.
pub record Frozen {Args : Type 0} (ext : DeployExternal Args) (db : DeployDb)
    (inp : CreateOperationInput) (b : Option Backup) (row : OperationTarget) : Type 0 where
  pub target : Target
  pub node : Node
  pub ready : Ready db inp.feature_id target node
  pub same_target : row.target_id ≡ target.id
  pub same_node : row.node_id ≡ target.node_id
  pub on_backup_node : (k : Backup) → b ≡ some k → k.node_id ≡ row.node_id
  pub waits : row.status ≡ queued
  pub config : ext.resolve_config db inp.feature_id target ≡ some row.frozen_config_hash
  pub secrets :
      row.frozen_secret_hash
      ≡ canonical_refs_hash ext (secret_refs db inp.feature_id target.node_id)

module _ {Args : Type 0} (ext : DeployExternal Args) (db : DeployDb) (env : Env) (actor_id : String)
    (inp : CreateOperationInput) where
  pub record Planned (o : Operation) (ts : List OperationTarget) : Type 0 where
    pub named_action : inp.action ≡ some o.action
    pub has_release : (requires_release o.action && str_eq inp.release_id "") ≡ false
    pub has_backup : (is_restore o.action && str_eq inp.backup_id "") ≡ false
    pub has_reason : (ext.is_production && str_eq o.reason "") ≡ false
    pub feature : (f : Feature) × (feature_by_id db inp.feature_id ≡ some f)
    pub release : ReleaseKnown db inp
    pub backup : Option Backup
    pub backup_known : BackupKnown db inp o.action backup
    pub none_active : is_some (active_operation db inp.feature_id) ≡ false
    pub first_id : o.id ≡ env.new_id 0
    pub same_feature : o.feature_id ≡ inp.feature_id
    pub status : o.status ≡ first_status ext o.action
    pub some_targets : is_empty (resolve_targets db inp) ≡ false
    pub all_targets : map (λ (t : OperationTarget). t.target_id) ts ≡ resolve_targets db inp
    pub targets : All (Frozen ext db inp backup) ts

  check_request_lem :
      (a : Action)
      → check_request ext inp ≡ ok a
      → (inp.action ≡ some a)
        × ((requires_release a && str_eq inp.release_id "") ≡ false)
        × ((is_restore a && str_eq inp.backup_id "") ≡ false)
        × ((ext.is_production && str_eq (ext.redact inp.reason) "") ≡ false)
  unfolding check_request
  check_request_lem a h = ground arith

  check_rows_lem :
      (a : Action) (b : Option Backup)
      → check_rows ext db inp a ≡ ok b
      → ((f : Feature) × (feature_by_id db inp.feature_id ≡ some f))
        × ReleaseKnown db inp
        × BackupKnown db inp a b
        × (is_empty (resolve_targets db inp) ≡ false)
        × (is_some (active_operation db inp.feature_id) ≡ false)
  unfolding check_rows
  check_rows_lem a b h =
      let (f, hf, h6) = >>=-eq-ok (or_fail (feature_by_id db inp.feature_id) not_found) _ h in
      let (u, hr, h7) = >>=-eq-ok (check_release db inp) _ h6 in
      let (c8, h8) = guard-eq-ok (not (is_empty (resolve_targets db inp))) bad_request _ h7 in
      let (b', hb, h9) = >>=-eq-ok (restore_backup db a inp) _ h8 in
      let (c10, h10) =
        guard-eq-ok (not (is_some (active_operation db inp.feature_id))) conflict _ h9 in
      (
        (f, or_fail-eq-ok _ _ hf),
        check_release_lem db inp hr,
        restore_backup_lem db inp a b (hb ∙ h10),
        not-true _ c8,
        not-true _ c10,
      )

  target_has_id : (id : String) (t : Target) → target_by_id db id ≡ some t → t.id ≡ id
  unfolding target_by_id
  target_has_id id t h =
      (str_eq_iff t.id id).0 (find_row_holds (λ r. str_eq (target_key r) id) db.targets t h)

  backup_node :
      (b : Option Backup) (k : Backup) (t : Target)
      → b ≡ some k
      → on_node_of b t ≡ true
      → k.node_id ≡ t.node_id
  backup_node none k t e h = ground arith
  backup_node (some k') k t e h =
      ap (λ (r : Backup). r.node_id) (sym (some_inj e)) ∙ (str_eq_iff k'.node_id t.node_id).0 h

  freeze_target-Frozen :
      (b : Option Backup) (k : ℕ) (t : Target) (n : Node) (row : OperationTarget)
      → Ready db inp.feature_id t n
      → on_node_of b t ≡ true
      → freeze_target ext db env inp k t ≡ ok row
      → Frozen ext db inp b row × (row.target_id ≡ t.id)
  unfolding freeze_target
  freeze_target-Frozen b k t n row ready near h =
      let (cfg, hc, h1) =
        >>=-eq-ok (or_fail (ext.resolve_config db inp.feature_id t) constraint) _ h in
      subst (λ (r : OperationTarget). Frozen ext db inp b r × (r.target_id ≡ t.id)) (ok_inj h1)
        (
          record {
            target = t;
            node = n;
            ready = ready;
            same_target = refl;
            same_node = refl;
            on_backup_node = λ k' e. backup_node b k' t e near;
            waits = refl;
            config = or_fail-eq-ok _ _ hc;
            secrets = refl;
          },
          refl,
        )

  check_target-Ready :
      (b : Option Backup) (id : String) (t : Target) (n : Node)
      → check_target db inp b id ≡ ok (t, n)
      → Ready db inp.feature_id t n × (t.id ≡ id) × (on_node_of b t ≡ true)
  unfolding check_target
  check_target-Ready b id t n h =
      let (t1, ht, h1) = >>=-eq-ok (or_fail (target_by_id db id) not_found) _ h in
      let (c1, h2) = guard-eq-ok (str_eq t1.feature_id inp.feature_id) bad_request _ h1 in
      let (c2, h3) = guard-eq-ok t1.enabled bad_request _ h2 in
      let (c3, h4) = guard-eq-ok (on_node_of b t1) bad_request _ h3 in
      let (n1, hn, h5) = >>=-eq-ok (or_fail (node_by_id db.core t1.node_id) not_found) _ h4 in
      let (c4, h6) = guard-eq-ok (is_reachable n1) offline _ h5 in
      let there : target_by_id db id ≡ some t1 = or_fail-eq-ok _ _ ht in
      let ready : Ready db inp.feature_id t1 n1 = record {
        found = subst (λ i. target_by_id db i ≡ some t1) (sym (target_has_id id t1 there)) there;
        same_feature = c1;
        enabled = c2;
        node = or_fail-eq-ok _ _ hn;
        reachable = c4;
      } in
      subst
        (λ (p : Target × Node).
          Ready db inp.feature_id p.0 p.1 × (p.0.id ≡ id) × (on_node_of b p.0 ≡ true))
        (ok_inj h6) (ready, target_has_id id t1 there, c3)

  abbrev FrozenAll : Option Backup → List String → List OperationTarget → Type 0
  FrozenAll b ids rows =
      All (Frozen ext db inp b) rows × (map (λ (t : OperationTarget). t.target_id) rows ≡ ids)

  -- Every target that was checked has its row, in order, and what holds of it holds of the row.
  freeze_targets-Frozen :
      (b : Option Backup) (ids : List String) (k : ℕ) (checked : List (Target × Node))
      (rows : List OperationTarget)
      → check_targets db inp b ids ≡ ok checked
      → freeze_targets ext db env inp k checked ≡ ok rows
      → FrozenAll b ids rows
  unfolding check_targets freeze_targets
  freeze_targets-Frozen b [] k checked rows hc hf =
      subst (FrozenAll b [])
        (ok_inj (subst (λ cs. freeze_targets ext db env inp k cs ≡ ok rows) (sym (ok_inj hc)) hf))
        (tt, refl)
  freeze_targets-Frozen b (id ∷ ids) k checked rows hc hf =
      let ((t, n), ht, h1) = >>=-eq-ok (check_target db inp b id) _ hc in
      let (cs, hcs, h2) = >>=-eq-ok (check_targets db inp b ids) _ h1 in
      let frozen : freeze_targets ext db env inp k ((t, n) ∷ cs) ≡ ok rows =
        subst (λ c. freeze_targets ext db env inp k c ≡ ok rows) (sym (ok_inj h2)) hf in
      let (row, hrow, h3) = >>=-eq-ok (freeze_target ext db env inp k t) _ frozen in
      let (rest, hrest, h4) = >>=-eq-ok (freeze_targets ext db env inp (suc k) cs) _ h3 in
      let (ready, same, near) = check_target-Ready b id t n ht in
      let (first, named) = freeze_target-Frozen b k t n row ready near hrow in
      let (others, rest_named) = freeze_targets-Frozen b ids (suc k) cs rest hcs hrest in
      subst (FrozenAll b (id ∷ ids)) (ok_inj h4)
        ((first, others), rw (named, same, rest_named) refl)

  pub plan_operation-Planned :
      (o : Operation) (ts : List OperationTarget)
      → plan_operation ext db env actor_id inp ≡ ok (o, ts)
      → Planned o ts
  unfolding plan_operation plan_targets
  plan_operation-Planned o ts h =
      let (a, ha, h1) = >>=-eq-ok (check_request ext inp) _ h in
      let (b, hb, h2) = >>=-eq-ok (check_rows ext db inp a) _ h1 in
      let (checked, hc, h3) = >>=-eq-ok (check_targets db inp b (resolve_targets db inp)) _ h2 in
      let (rows, hf, h4) = >>=-eq-ok (freeze_targets ext db env inp 0 checked) _ h3 in
      let (named, release, backup, reason) = check_request_lem a ha in
      let (f, released, restores, some_targets, idle) = check_rows_lem a b hb in
      let (frozen, same_targets) =
        freeze_targets-Frozen b (resolve_targets db inp) 0 checked rows hc hf in
      let planned : Planned (new_operation ext env actor_id inp a checked rows) rows = record {
        named_action = named;
        has_release = release;
        has_backup = backup;
        has_reason = reason;
        feature = f;
        release = released;
        backup = b;
        backup_known = restores;
        none_active = idle;
        first_id = refl;
        same_feature = refl;
        status = refl;
        some_targets = some_targets;
        all_targets = same_targets;
        targets = frozen;
      } in
      subst (λ (p : Operation × List OperationTarget). Planned p.0 p.1) (ok_inj h4) planned
