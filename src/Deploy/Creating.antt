-- ===== src/Deploy/Creating.antt =====
-- CreateOperation taken apart: what it inserts, and that the rows of operation targets which it
-- finds stay as they are.
use server_cli.Common.{
  String, false, ◌≡◌, sym, ap, subst, ◌∙◌, List, [], ◌∷◌, ◌++◌, find_row, is_some, is_some-none,
  arith, keyed, Grows-append, Error, Result, ok, err, ok_inj, >>=-eq-ok, inl, inr, Result-cases,
}
use server_cli.Task.Model.{Env}
use server_cli.Deploy.Model.{Operation, OperationTarget, Step, DeployDb, DeployExternal}
use server_cli.Deploy.Store.{
  op_target_key, insert_operation, insert_op_target, insert_op_targets, insert_steps, create_bundle,
}
use server_cli.Deploy.Service.{
  CreateOperationInput, plan_operation, preflight_steps, create_operation,
}
use server_cli.Deploy.Planning.{Planned, plan_operation-Planned}
use server_cli.Deploy.Rows.{
  Settles, Settles-refl, Settles-trans, TargetsGrow, TargetsGrow-refl, TargetsGrow-trans,
}

module _ {Args : Type 0} (ext : DeployExternal Args) where
  -- CreateOperation fails and changes nothing, or inserts what it planned.
  pub create_operation_cases {ℓ} :
      (P : DeployDb × Result Operation → Type ℓ) (db : DeployDb) (env : Env) (actor_id : String)
      (inp : CreateOperationInput)
      → ((e : Error) → P (db, err e))
      → ((o : Operation) (ts : List OperationTarget) (db' : DeployDb)
          → plan_operation ext db env actor_id inp ≡ ok (o, ts)
          → create_bundle db o ts (preflight_steps ext env 0 ts) ≡ ok db'
          → P (db', ok o))
      → P (create_operation ext db env actor_id inp)
  unfolding create_operation
  create_operation_cases P db env actor_id inp refuse accept =
      elim (Result-cases (plan_operation ext db env actor_id inp)) [
        | inl (e, h) ↦ rw (h, create_operation) (refuse e)
        | inr ((o, ts), h) ↦
            rw (h, create_operation)
              (elim (Result-cases (create_bundle db o ts (preflight_steps ext env 0 ts))) [
                | inl (e, k) ↦ rw k (refuse e)
                | inr (db', k) ↦ rw k (accept o ts db' h k)
              ])
      ]

insert_operation_lem :
    (db db' : DeployDb) (o : Operation)
    → insert_operation db o ≡ ok db'
    → db' ≡ record db { operations = db.operations ++ o ∷ [] }
unfolding insert_operation
insert_operation_lem db db' o h = ground arith

insert_op_target_lem :
    (rows rows' : List OperationTarget) (t : OperationTarget)
    → insert_op_target rows t ≡ ok rows'
    → (is_some (find_row (keyed op_target_key t.id) rows) ≡ false) × (rows ++ t ∷ [] ≡ rows')
unfolding insert_op_target
insert_op_target_lem rows rows' t h = ground arith

insert_op_target-Grow :
    (rows rows' : List OperationTarget) (t : OperationTarget)
    → insert_op_target rows t ≡ ok rows'
    → TargetsGrow [] rows rows'
insert_op_target-Grow rows rows' t h =
    let (new, same) = insert_op_target_lem rows rows' t h in
    subst (TargetsGrow [] rows) same (
      Grows-append op_target_key (Settles []) (Settles-refl []) (Settles-trans []) rows t
        (is_some-none (find_row (keyed op_target_key t.id) rows) new))

insert_op_targets-Grow :
    (ts rows rows' : List OperationTarget)
    → insert_op_targets ts rows ≡ ok rows'
    → TargetsGrow [] rows rows'
unfolding insert_op_targets
insert_op_targets-Grow [] rows rows' h =
    subst (TargetsGrow [] rows) (ok_inj h) (TargetsGrow-refl [] rows)
insert_op_targets-Grow (t ∷ ts) rows rows' h =
    let (mid, e, rest) = >>=-eq-ok (insert_op_target rows t) (insert_op_targets ts) h in
    TargetsGrow-trans [] rows mid rows' (insert_op_target-Grow rows mid t e)
      (insert_op_targets-Grow ts mid rows' rest)

error_not_ok : {e : Error} {o : Operation} → ◌≡◌ {A = Result Operation} (err e) (ok o) → ⊥
error_not_ok h = ground arith

-- A bundle that is created: its operation is a new row, its targets are appended.
pub record Created (db db' : DeployDb) (o : Operation) (ts : List OperationTarget) : Type 0 where
  pub operations : db'.operations ≡ db.operations ++ o ∷ []
  pub op_targets : insert_op_targets ts db.op_targets ≡ ok db'.op_targets
  pub inserted : (db1 : DeployDb) × (insert_operation db o ≡ ok db1)

pub create_bundle-Created :
    (db db' : DeployDb) (o : Operation) (ts : List OperationTarget) (ss : List Step)
    → create_bundle db o ts ss ≡ ok db'
    → Created db db' o ts
unfolding create_bundle
create_bundle-Created db db' o ts ss h =
    let (db1, e1, h1) = >>=-eq-ok (insert_operation db o) _ h in
    let (rows, e2, h2) = >>=-eq-ok (insert_op_targets ts db1.op_targets) _ h1 in
    let (steps, e3, h3) = >>=-eq-ok (insert_steps ss db1.steps) _ h2 in
    let same : db1 ≡ record db { operations = db.operations ++ o ∷ [] } =
      insert_operation_lem db db1 o e1 in
    let last : record db1 { op_targets = rows; steps = steps } ≡ db' = ok_inj h3 in
    record {
      operations =
          sym (ap (λ (d : DeployDb). d.operations) last) ∙ ap (λ (d : DeployDb). d.operations) same;
      op_targets =
          subst (λ (d : DeployDb). insert_op_targets ts d.op_targets ≡ ok db'.op_targets) same
            (e2 ∙ ap (λ (d : DeployDb). ok d.op_targets) last);
      inserted = (db1, e1);
    }

module _ {Args : Type 0} (ext : DeployExternal Args) where
  -- CreateOperation only adds rows of operation targets.
  pub create_operation-Grow :
      (db : DeployDb) (env : Env) (actor_id : String) (inp : CreateOperationInput)
      → TargetsGrow [] db.op_targets (create_operation ext db env actor_id inp).0.op_targets
  create_operation-Grow db env actor_id inp =
      create_operation_cases ext
        (λ (m : DeployDb × Result Operation). TargetsGrow [] db.op_targets m.0.op_targets) db env
        actor_id inp (λ e. TargetsGrow-refl [] db.op_targets)
        (λ o ts db' plan made.
          insert_op_targets-Grow ts db.op_targets db'.op_targets
            (create_bundle-Created db db' o ts _ made).op_targets)

  pub create_operation_outcome :
      (db db' : DeployDb) (env : Env) (actor_id : String) (inp : CreateOperationInput)
      (o : Operation)
      → create_operation ext db env actor_id inp ≡ (db', ok o)
      → (ts : List OperationTarget) × Planned ext db env actor_id inp o ts × Created db db' o ts
  create_operation_outcome db db' env actor_id inp o =
      create_operation_cases ext
        (λ (m : DeployDb × Result Operation).
          m ≡ (db', ok o)
          → (ts : List OperationTarget) × Planned ext db env actor_id inp o ts
            × Created db db' o ts)
        db env actor_id inp
        (λ e h. absurd (error_not_ok (ap (λ (m : DeployDb × Result Operation). m.1) h)))
        (λ o1 ts db1 plan made h.
          let same_db : db1 ≡ db' = ap (λ (m : DeployDb × Result Operation). m.0) h in
          let same_op : o1 ≡ o = ok_inj (ap (λ (m : DeployDb × Result Operation). m.1) h) in
          (
            ts,
            subst (λ p. Planned ext db env actor_id inp p ts) same_op
                (plan_operation-Planned ext db env actor_id inp o1 ts plan),
            subst (λ p. Created db db' p ts) same_op
                (subst (λ d. Created db d o1 ts) same_db
                  (create_bundle-Created db db1 o1 ts _ made)),
          ))
