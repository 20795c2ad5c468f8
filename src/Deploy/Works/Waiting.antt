-- ===== src/Deploy/Works/Waiting.antt =====
-- Waits and writes of the scheduler, and that they leave alone what has ended
-- (pollTask of backend/internal/service/deployment_scheduler.go).
use server_cli.Common.{
  String, str_eq_refl, Bool, true, false, if_cases, ◌≡◌, refl, sym, subst, ◌∙◌, some, Option-cases,
  inl, inr, List, [], ◌∷◌, All, arith, Result, ok, err,
}
use server_cli.Task.Model as TaskModel
use server_cli.Task.Model.{Task, NodeCommand, External}
use server_cli.Task.Store.{task_by_id}
use server_cli.Deploy.Model.{Operation, OperationTarget, DeployDb}
use server_cli.Deploy.Store.{update_operation, update_op_target}
use server_cli.Deploy.Service.{is_listed}
use server_cli.Deploy.Exec.{Round, Exec, ◌▷◌}
use server_cli.Deploy.Steps.{wait, poll_rounds, poll_with, poll_task, try_operation, try_op_target}
use server_cli.Deploy.Rows.{
  TargetsGrow, TargetsGrow-refl, TargetsGrow-trans, TargetsGrow-widen, update_op_target-Grow,
  OpsKept, same_operations, update_op_target_operations, update_operation-OpsKept,
}

-- A wait in which others leave alone what has ended.
abbrev pub Calm : Round → Type 0
Calm r = (db : DeployDb) → TargetsGrow [] db.op_targets (r.commit db).op_targets

abbrev pub Peaceful : List (List Round) → Type 0
Peaceful = All (All Calm)

pub record Worked (x y : Exec) : Type 0 where
  pub same_target : y.t.id ≡ x.t.id
  pub same_op : y.op.id ≡ x.op.id
  pub same_status : y.op.status ≡ x.op.status
  pub peaceful : Peaceful y.polls
  pub grown : TargetsGrow (x.t.id ∷ []) x.db.op_targets y.db.op_targets

abbrev Calmly : Exec → Exec → Type 0
Calmly x y = Peaceful x.polls → Worked x y

Calmly-trans : (x y z : Exec) → Calmly x y → Calmly y z → Calmly x z
Calmly-trans x y z f g calm =
    let a = f calm in
    let b = g a.peaceful in
    record {
      same_target = b.same_target ∙ a.same_target;
      same_op = b.same_op ∙ a.same_op;
      same_status = b.same_status ∙ a.same_status;
      peaceful = b.peaceful;
      grown =
          TargetsGrow-trans (x.t.id ∷ []) x.db.op_targets y.db.op_targets z.db.op_targets a.grown (
            subst (λ i. TargetsGrow (i ∷ []) y.db.op_targets z.db.op_targets) a.same_target
              b.grown);
    }

-- A wait in which others leave every row of the operations in the table.
abbrev pub SteadyRound : Round → Type 0
SteadyRound r = (db : DeployDb) → OpsKept db.operations (r.commit db).operations

abbrev pub Steady : List (List Round) → Type 0
Steady = All (All SteadyRound)

abbrev pub Keeps : Exec → Exec → Type 0
Keeps x y = Steady x.polls → Steady y.polls × OpsKept x.db.operations y.db.operations

pub Keeps-trans : (x y z : Exec) → Keeps x y → Keeps y z → Keeps x z
Keeps-trans x y z f g steady =
    let (steady1, k1) = f steady in
    let (steady2, k2) = g steady1 in (steady2, λ id h. k2 id (k1 id h))

-- Work that leaves alone what has ended, and keeps the rows of the operations.
abbrev pub Works : Exec → Exec → Type 0
Works x y = Calmly x y × Keeps x y

pub Works-trans : (x y z : Exec) → Works x y → Works y z → Works x z
Works-trans x y z f g = (Calmly-trans x y z f.0 g.0, Keeps-trans x y z f.1 g.1)

-- Work that writes no row of an operation target.
pub quiet :
    (x y : Exec)
    → y.t.id ≡ x.t.id
    → y.op.id ≡ x.op.id
    → y.op.status ≡ x.op.status
    → y.polls ≡ x.polls
    → y.db.op_targets ≡ x.db.op_targets
    → OpsKept x.db.operations y.db.operations
    → Works x y
quiet x y t o s p r k = (
  λ calm. record {
    same_target = t;
    same_op = o;
    same_status = s;
    peaceful = rw p calm;
    grown = rw r (TargetsGrow-refl (x.t.id ∷ []) x.db.op_targets);
  },
  λ steady. (rw p steady, k),
)

pub Works-refl : (x : Exec) → Works x x
Works-refl x = quiet x x refl refl refl refl refl (λ id h. h)

-- Two parts in sequence.
pub ▷-Works :
    {A B : Type 0} (x : Exec) (m : Exec × Result A) (k : Exec → A → Exec × Result B)
    → Works x m.0
    → ((y : Exec) (a : A) → Works y (k y a).0)
    → Works x (m ▷ k).0
unfolding ◌▷◌
▷-Works x (y, err e) k f g = f
▷-Works x (y, ok a) k f g = Works-trans x y (k y a).0 f (g y a)

wait-Calmly : (x : Exec) (r : Round) → Calm r → Calmly x (wait x r)
unfolding is_listed
wait-Calmly x r quiet_round calm = record {
  same_target = refl;
  same_op = refl;
  same_status = refl;
  peaceful = calm;
  grown =
      TargetsGrow-widen [] (x.t.id ∷ []) x.db.op_targets (r.commit x.db).op_targets (λ id h. refl)
        (quiet_round x.db);
}

poll_rounds-Calmly :
    (x : Exec) (id : String) (rs : List Round) → All Calm rs → Calmly x (poll_rounds x id rs).0
unfolding poll_rounds
poll_rounds-Calmly x id [] calm = elim (Option-cases (task_by_id x.db.core id)) [
  | inl e ↦ rw (e, poll_rounds) ((Works-refl x).0)
  | inr (t, e) ↦
      rw (e, poll_rounds)
        (if_cases (λ (m : Exec × Result Task). Calmly x m.0) (TaskModel.is_terminal t.status)
          (λ h. (Works-refl x).0) (λ h. (Works-refl x).0))
]
poll_rounds-Calmly x id (r ∷ rs) calm = elim (Option-cases (task_by_id x.db.core id)) [
  | inl e ↦ rw (e, poll_rounds) ((Works-refl x).0)
  | inr (t, e) ↦
      rw (e, poll_rounds)
        (ended t (TaskModel.is_terminal t.status) (
          Calmly-trans x (wait x r) (poll_rounds (wait x r) id rs).0 (wait-Calmly x r calm.0)
            (poll_rounds-Calmly (wait x r) id rs calm.1)))
]
  where
    ended :
        (t : Task) (b : Bool)
        → Calmly x (poll_rounds (wait x r) id rs).0
        → Calmly x
            (elim b as (λ _. Exec × Result Task) [
              | true ↦ (x, ok t)
              | false ↦ poll_rounds (wait x r) id rs
            ]).0
    ended t true f = (Works-refl x).0
    ended t false f = f

abbrev RowsStay : Exec → Exec → Type 0
RowsStay x y = (y.polls ≡ x.polls) × OpsKept x.db.operations y.db.operations

poll_rounds-RowsStay :
    (x : Exec) (id : String) (rs : List Round)
    → All SteadyRound rs
    → RowsStay x (poll_rounds x id rs).0
unfolding poll_rounds
poll_rounds-RowsStay x id [] steady = elim (Option-cases (task_by_id x.db.core id)) [
  | inl e ↦ rw (e, poll_rounds) (refl, λ i h. h)
  | inr (t, e) ↦
      rw (e, poll_rounds)
        (if_cases (λ (m : Exec × Result Task). RowsStay x m.0) (TaskModel.is_terminal t.status)
          (λ h. (refl, λ i h. h)) (λ h. (refl, λ i h. h)))
]
poll_rounds-RowsStay x id (r ∷ rs) steady = elim (Option-cases (task_by_id x.db.core id)) [
  | inl e ↦ rw (e, poll_rounds) (refl, λ i h. h)
  | inr (t, e) ↦
      rw (e, poll_rounds)
        (ended t (TaskModel.is_terminal t.status) (
          let rest = poll_rounds-RowsStay (wait x r) id rs steady.1 in
          (rest.0, λ i h. rest.1 i (steady.0 x.db i h))))
]
  where
    ended :
        (t : Task) (b : Bool)
        → RowsStay x (poll_rounds (wait x r) id rs).0
        → RowsStay x
            (elim b as (λ _. Exec × Result Task) [
              | true ↦ (x, ok t)
              | false ↦ poll_rounds (wait x r) id rs
            ]).0
    ended t true f = (refl, λ i h. h)
    ended t false f = f

poll_with-Works :
    (polls : List (List Round)) (x : Exec) (id : String)
    → polls ≡ x.polls
    → Works x (poll_with polls x id).0
unfolding poll_with
poll_with-Works [] x id e = (
  poll_rounds-Calmly x id [] tt,
  λ steady. let (p, k) = poll_rounds-RowsStay x id [] tt in (subst Steady (sym p) steady, k),
)
poll_with-Works (rs ∷ polls) x id e = (
  λ calm.
      let known : Peaceful (rs ∷ polls) = subst Peaceful (sym e) calm in
      let rest : Worked (record x { polls = polls })
          (poll_rounds (record x { polls = polls }) id rs).0 =
        poll_rounds-Calmly (record x { polls = polls }) id rs known.0 known.1 in
      record {
        same_target = rest.same_target;
        same_op = rest.same_op;
        same_status = rest.same_status;
        peaceful = rest.peaceful;
        grown = rest.grown;
      },
  λ steady.
      let known : Steady (rs ∷ polls) = subst Steady (sym e) steady in
      let (p, k) = poll_rounds-RowsStay (record x { polls = polls }) id rs known.0 in
      (subst Steady (sym p) known.1, k),
)

pub poll_task-Works : (x : Exec) (id : String) → Works x (poll_task x id).0
unfolding poll_task
poll_task-Works x id = poll_with-Works x.polls x id refl

pub update_operation_targets :
    (db db' : DeployDb) (o : Operation)
    → update_operation db o ≡ some db'
    → db'.op_targets ≡ db.op_targets
unfolding update_operation
update_operation_targets db db' o h = ground arith

-- A write of the operation's row or of the target's whose refusal is only logged.
pub try_operation-Works :
    (x : Exec) (o : Operation)
    → o.id ≡ x.op.id
    → o.status ≡ x.op.status
    → Works x (try_operation x o)
unfolding try_operation
try_operation-Works x o e s = elim (Option-cases (update_operation x.db o)) [
  | inl h ↦ rw (h, try_operation) (quiet x (record x { op = o }) refl e s refl refl (λ id h. h))
  | inr (db, h) ↦
      rw (h, try_operation)
        (quiet x (record x { db = db; op = o }) refl e s refl (update_operation_targets x.db db o h)
          (update_operation-OpsKept x.db db o h))
]

pub try_operation_target : (x : Exec) (o : Operation) → (try_operation x o).t ≡ x.t
unfolding try_operation
try_operation_target x o = ground arith

pub listed_self : (id : String) → is_listed id (id ∷ []) ≡ true
unfolding is_listed
listed_self id = rw (str_eq_refl id) refl

pub try_op_target-Works :
    (x : Exec) (t : OperationTarget) → t.id ≡ x.t.id → Works x (try_op_target x t)
unfolding try_op_target
try_op_target-Works x t e = elim (Option-cases (update_op_target x.db t)) [
  | inl h ↦ rw (h, try_op_target) (quiet x (record x { t = t }) e refl refl refl refl (λ id h. h))
  | inr (db, h) ↦
      rw (h, try_op_target)
        (
          λ calm. record {
            same_target = e;
            same_op = refl;
            same_status = refl;
            peaceful = calm;
            grown =
                update_op_target-Grow (x.t.id ∷ []) x.db db t
                  (subst (λ i. is_listed t.id (i ∷ []) ≡ true) e (listed_self t.id)) h;
          },
          λ steady. (
            steady,
            same_operations x.db.operations db.operations (update_op_target_operations x.db db t h),
          ),
        )
]
