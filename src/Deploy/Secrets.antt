-- ===== src/Deploy/Secrets.antt =====
-- The comparison of the frozen secret references before a task is created
-- (taskArguments and runTaskStep of backend/internal/service/deployment_scheduler.go).
use server_cli.Common.{
  ℕ, String, str_eq, false, not, if_cases, ◌≡◌, refl, sym, subst, ◌∙◌, Option, none, some,
  Option-cases, inl, inr, arith, ok,
}
use server_cli.Task.Model.{External}
use server_cli.Deploy.Model.{
  Feature, Release, Operation, OperationTarget, TaskArguments, DeployDb, DeployExternal, Step,
  running,
}
use server_cli.Deploy.Store.{
  secret_references_of, update_operation, update_op_target, update_step, target_by_id,
}
use server_cli.Deploy.Freeze.{secret_refs, canonical_refs_hash}
use server_cli.Deploy.Exec.{Exec}
use server_cli.Deploy.Steps.{
  try_operation, try_op_target, frozen_config_hash, freeze_config_hash, save_step, task_arguments,
  newest_command, run_with, run_task_step,
}

-- What the comparison reads, and the task service's tables.
record Keeps (x y : Exec) : Type 0 where
  frozen : y.t.frozen_secret_hash ≡ x.t.frozen_secret_hash
  node : y.t.node_id ≡ x.t.node_id
  feature : y.op.feature_id ≡ x.op.feature_id
  references : y.db.secret_references ≡ x.db.secret_references
  tasks : y.db.core ≡ x.db.core

Keeps-refl : (x : Exec) → Keeps x x
Keeps-refl x = ground arith

Keeps-trans : (x y z : Exec) → Keeps x y → Keeps y z → Keeps x z
Keeps-trans x y z a b = record {
  frozen = b.frozen ∙ a.frozen;
  node = b.node ∙ a.node;
  feature = b.feature ∙ a.feature;
  references = b.references ∙ a.references;
  tasks = b.tasks ∙ a.tasks;
}

secret_refs_same :
    (db db' : DeployDb) (feature_id node_id : String)
    → db.secret_references ≡ db'.secret_references
    → secret_refs db feature_id node_id ≡ secret_refs db' feature_id node_id
unfolding secret_refs secret_references_of
secret_refs_same db db' feature_id node_id e = rw e refl

save_step-Keeps : (x : Exec) (s : Step) → Keeps x (record x { db = update_step x.db s; step = s })
unfolding update_step
save_step-Keeps x s = ground arith

try_operation-Keeps :
    (x : Exec) (o : Operation) → o.feature_id ≡ x.op.feature_id → Keeps x (try_operation x o)
unfolding try_operation update_operation
try_operation-Keeps x o e = ground arith

try_op_target-Keeps :
    (x : Exec) (t : OperationTarget)
    → t.frozen_secret_hash ≡ x.t.frozen_secret_hash
    → t.node_id ≡ x.t.node_id
    → Keeps x (try_op_target x t)
unfolding try_op_target update_op_target
try_op_target-Keeps x t e k = ground arith

module _ {Args : Type 0} (ext : DeployExternal Args) (tasks : External Args)
    (ids : ℕ → String) where
  freeze_config_hash-Keeps : (x : Exec) → Keeps x (freeze_config_hash ext tasks ids x).0
  unfolding freeze_config_hash
  freeze_config_hash-Keeps x =
      if_cases (λ (m : Exec × String). Keeps x m.0)
        (not (str_eq (frozen_config_hash ext tasks ids x) "")) (λ h. Keeps-refl x)
        (λ h. elim (Option-cases (target_by_id x.db x.t.target_id)) [
          | inl e ↦ rw e (Keeps-refl x)
          | inr (tg, e) ↦ rw e (elim (Option-cases (ext.resolve_config x.db x.op.feature_id tg)) [
            | inl e' ↦ rw e' (Keeps-refl x)
            | inr (hash, e') ↦ rw e' (
                if_cases (λ (m : Exec × String). Keeps x m.0) (str_eq hash "") (λ k. Keeps-refl x)
                  (λ k.
                    let kept =
                      try_operation-Keeps x (record x.op { frozen_config_hash = hash }) refl in
                    Keeps-trans x _ _ kept
                      (try_op_target-Keeps _ _ (sym kept.frozen) (sym kept.node))))
          ])
        ])

  -- Have the secret references of the target been changed since they were frozen?
  abbrev pub Rotated : Exec → Type 0
  Rotated x =
      (str_eq x.t.frozen_secret_hash "" ≡ false)
      × (ext.equal_fold x.t.frozen_secret_hash
            (canonical_refs_hash ext (secret_refs x.db x.op.feature_id x.t.node_id))
          ≡ false)

  task_arguments_refused :
      (x : Exec) (f : Feature) (r : Option Release)
      → Rotated x
      → task_arguments ext tasks ids x f r ≡ ((freeze_config_hash ext tasks ids x).0, none)
  unfolding task_arguments
  task_arguments_refused x f r rotated =
      let y = (freeze_config_hash ext tasks ids x).0 in
      let kept = freeze_config_hash-Keeps x in
      let named : str_eq y.t.frozen_secret_hash "" ≡ false = rw kept.frozen rotated.0 in
      let same : secret_refs y.db y.op.feature_id y.t.node_id
          ≡ secret_refs x.db x.op.feature_id x.t.node_id =
        rw (kept.feature, kept.node) (secret_refs_same y.db x.db _ _ kept.references) in
      let other : ext.equal_fold y.t.frozen_secret_hash
            (canonical_refs_hash ext (secret_refs y.db y.op.feature_id y.t.node_id))
          ≡ false =
        rw (same, kept.frozen) rotated.1 in
      rw (named, other, task_arguments) refl

  -- Where the secret references of the target are not those that were frozen, a step does not pass
  -- and creates no task: the task service's tables stay as they are.
  pub rotation_stops_step :
      (x : Exec) (f : Feature) (r : Option Release) (command_id : String)
      → Rotated x
      → ((run_task_step ext tasks ids x f r command_id).0.db.core ≡ x.db.core)
        × (msg : String) × ((run_task_step ext tasks ids x f r command_id).1 ≡ ok (false, msg))
  unfolding run_task_step run_with
  rotation_stops_step x f r command_id rotated =
      elim (Option-cases (newest_command x.t.node_id command_id none x.db.core.commands)) [
        | inl e ↦ rw (e, run_task_step) (refl, _, refl)
        | inr (cmd, e) ↦
            let x1 = save_step ext tasks ids x (record x.step {
              status = running;
              command_id = command_id;
              started_at = some x.now;
            }) in
            let still : Rotated x1 = (
              rotated.0,
              rw
                  (secret_refs_same x1.db x.db x.op.feature_id x.t.node_id
                    (save_step-Keeps x x1.step).references)
                  rotated.1,
            ) in
            let kept =
              Keeps-trans x x1 _ (save_step-Keeps x x1.step) (freeze_config_hash-Keeps x1) in
            rw (e, run_task_step)
              (subst
                (λ (m : Exec × Option TaskArguments).
                  ((run_with ext tasks ids cmd m).0.db.core ≡ x.db.core)
                  × (msg : String) × ((run_with ext tasks ids cmd m).1 ≡ ok (false, msg)))
                (sym (task_arguments_refused x1 f r still))
                (kept.tasks, ext.sanitize "secret references changed after freeze", refl))
      ]
