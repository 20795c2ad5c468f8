-- ===== src/Deploy/Rows.antt =====
-- What may become of the rows of operation targets: who may end them, and that what has ended stays
-- as it ended.
use mathlib.Core.Option
use server_cli.Common.{
  Option, none, is_some, find_row-update_rows, String, str_eq, str_eq_iff, true, false, ◌≡◌, refl,
  subst, ◌∙◌, some, List, find_row, update_rows, find_row-update_rows_self, arith, keyed, Grows,
  Grows-refl, Grows-trans, Grows-update_rows,
}
use server_cli.Deploy.Model.{is_terminal, Operation, OperationTarget, DeployDb}
use server_cli.Deploy.Store.{
  op_target_key, holds_node, node_clashes, update_op_target, write_op_target, operation_key,
  update_operation, write_operation,
}
use server_cli.Deploy.Service.{is_listed}

-- A row that is not among the ones worked on keeps the status with which it has ended.
pub record Settles (ids : List String) (x y : OperationTarget) : Type 0 where
  pub same_id : y.id ≡ x.id
  pub ended_stays : is_listed x.id ids ≡ false → is_terminal x.status ≡ true → y.status ≡ x.status

pub Settles-refl : (ids : List String) (x : OperationTarget) → Settles ids x x
Settles-refl ids x = record { same_id = refl; ended_stays = λ h k. refl }

pub Settles-trans :
    (ids : List String) (x y z : OperationTarget)
    → Settles ids x y
    → Settles ids y z
    → Settles ids x z
Settles-trans ids x y z a b = record {
  same_id = b.same_id ∙ a.same_id;
  ended_stays = λ h k.
      let same : y.status ≡ x.status = a.ended_stays h k in
      b.ended_stays (rw a.same_id h) (rw same k) ∙ same;
}

-- The table of a later database, when only the rows `ids` were worked on.
abbrev pub TargetsGrow : List String → List OperationTarget → List OperationTarget → Type 0
TargetsGrow ids = Grows op_target_key (Settles ids) (Settles-refl ids) (Settles-trans ids)

pub TargetsGrow-refl : (ids : List String) (xs : List OperationTarget) → TargetsGrow ids xs xs
TargetsGrow-refl ids = Grows-refl op_target_key (Settles ids) (Settles-refl ids) (Settles-trans ids)

pub TargetsGrow-trans :
    (ids : List String) (xs ys zs : List OperationTarget)
    → TargetsGrow ids xs ys
    → TargetsGrow ids ys zs
    → TargetsGrow ids xs zs
TargetsGrow-trans ids =
    Grows-trans op_target_key (Settles ids) (Settles-refl ids) (Settles-trans ids)

-- Work on none is work on some.
pub TargetsGrow-widen :
    (ids js : List String) (xs ys : List OperationTarget)
    → ((id : String) → is_listed id js ≡ false → is_listed id ids ≡ false)
    → TargetsGrow ids xs ys
    → TargetsGrow js xs ys
TargetsGrow-widen ids js xs ys within g = (
  λ id x h.
      let (y, e, m) = g.0 id x h in
      (y, e, record { same_id = m.same_id; ended_stays = λ k t. m.ended_stays (within x.id k) t }),
  g.1,
)

pub update_op_target_rows :
    (db db' : DeployDb) (t : OperationTarget)
    → update_op_target db t ≡ some db'
    → db'.op_targets
      ≡ update_rows (λ r. str_eq (op_target_key r) t.id) (write_op_target t) db.op_targets
unfolding update_op_target
update_op_target_rows db db' t h = ground arith

unlisted :
    (ids : List String) (r : OperationTarget) (id : String)
    → str_eq r.id id ≡ true
    → is_listed r.id ids ≡ false
    → is_listed id ids ≡ false
unlisted ids r id hit outside =
    subst (λ i. is_listed i ids ≡ false) ((str_eq_iff r.id id).0 hit) outside

-- The write of a row that is worked on.
pub update_op_target-Grow :
    (ids : List String) (db db' : DeployDb) (t : OperationTarget)
    → is_listed t.id ids ≡ true
    → update_op_target db t ≡ some db'
    → TargetsGrow ids db.op_targets db'.op_targets
update_op_target-Grow ids db db' t listed h = rw (update_op_target_rows db db' t h) (
    Grows-update_rows op_target_key (Settles ids) (Settles-refl ids) (Settles-trans ids)
      (λ r. str_eq (op_target_key r) t.id) (write_op_target t) (λ r. refl)
      (λ r hit. record {
        same_id = refl;
        ended_stays = λ outside ended.
            let not_listed : is_listed t.id ids ≡ false = unlisted ids r t.id hit outside in cc;
      })
      db.op_targets)

-- The row that a write finds has the written status afterwards.
pub update_op_target-found :
    (db db' : DeployDb) (t r : OperationTarget)
    → find_row (keyed op_target_key t.id) db.op_targets ≡ some r
    → update_op_target db t ≡ some db'
    → find_row (keyed op_target_key t.id) db'.op_targets ≡ some (write_op_target t r)
update_op_target-found db db' t r h e = rw (update_op_target_rows db db' t e) (
    find_row-update_rows_self (keyed op_target_key t.id) (write_op_target t) db.op_targets r
      (λ y. refl) h)

-- An ended status holds no node, so no index refuses its write.
pub ended_written :
    (db : DeployDb) (t : OperationTarget)
    → holds_node t.status ≡ false
    → (db' : DeployDb) × (update_op_target db t ≡ some db')
unfolding update_op_target node_clashes
ended_written db t h = (
  record db {
    op_targets = update_rows (λ r. str_eq (op_target_key r) t.id) (write_op_target t) db.op_targets;
  },
  rw h refl,
)

-- Rows of operations that stay in the table, whatever is written in them.
abbrev pub OpsKept : List Operation → List Operation → Type 0
OpsKept os os' =
    (id : String)
    → is_some (find_row (keyed operation_key id) os) ≡ true
    → is_some (find_row (keyed operation_key id) os') ≡ true

pub same_operations : (os os' : List Operation) → os' ≡ os → OpsKept os os'
same_operations os os' e id h = rw e h

pub update_op_target_operations :
    (db db' : DeployDb) (t : OperationTarget)
    → update_op_target db t ≡ some db'
    → db'.operations ≡ db.operations
unfolding update_op_target
update_op_target_operations db db' t h = ground arith

pub update_operation_rows :
    (db db' : DeployDb) (o : Operation)
    → update_operation db o ≡ some db'
    → db'.operations ≡ update_rows (keyed operation_key o.id) (write_operation o) db.operations
unfolding update_operation
update_operation_rows db db' o h = ground arith

is_some-map :
    (g : Operation → Operation) (o : Option Operation)
    → is_some o ≡ true
    → is_some (Option.map g o) ≡ true
is_some-map g none h = h
is_some-map g (some a) h = refl

pub update_operation-OpsKept :
    (db db' : DeployDb) (o : Operation)
    → update_operation db o ≡ some db'
    → OpsKept db.operations db'.operations
update_operation-OpsKept db db' o written id h =
    rw
      (
        update_operation_rows db db' o written,
        find_row-update_rows (keyed operation_key id) (keyed operation_key o.id) (write_operation o)
            db.operations (λ x. refl),
      )
      (is_some-map _ (find_row (keyed operation_key id) db.operations) h)
