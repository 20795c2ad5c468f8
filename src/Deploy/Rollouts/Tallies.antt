-- ===== src/Deploy/Rollouts/Tallies.antt =====
-- The counts of executeOperation against the rows of its targets
-- (backend/internal/service/deployment_scheduler.go).
use server_cli.Common.{
  ◌+◌, ◌≤◌, String, str_eq, str_eq_sym, str_eq_iff, Bool, true, false, if◌then◌else◌, if_cases, ◌≡◌,
  refl, sym, subst, ◌∙◌, none, some, List, [], ◌∷◌, length, All, find_row, find_row_holds,
  find_row_step, keyed, arith, Result, ok,
}
use server_cli.Deploy.Model.{Status, succeeded, skipped, is_terminal, OperationTarget, DeployDb}
use server_cli.Deploy.Store.{op_target_key}
use server_cli.Deploy.Service.{is_listed, is_succeeded}
use server_cli.Deploy.Exec.{Exec}
use server_cli.Deploy.Targets.{TargetResult}
use server_cli.Deploy.Scheduler.{Tally}
use server_cli.Deploy.Rows.{TargetsGrow, TargetsGrow-trans, TargetsGrow-widen}
use server_cli.Deploy.Works.{Peaceful, Keeps, Keeps-trans}
use server_cli.Deploy.Outcomes.{fits}

-- The statuses that count as success.
abbrev pub is_good : Status → Bool
is_good succeeded = true
is_good skipped = true
is_good _ = false

abbrev pub Good : DeployDb → String → Type 0
Good db id =
    (r : OperationTarget) × (find_row (keyed op_target_key id) db.op_targets ≡ some r)
    × (is_good r.status ≡ true)

-- The targets read have their rows, and those read as ended still stand so.
abbrev pub Known : DeployDb → List OperationTarget → Type 0
Known db = All (λ t.
    (r : OperationTarget) × (find_row (keyed op_target_key t.id) db.op_targets ≡ some r)
    × (is_terminal t.status ≡ true → r.status ≡ t.status))

-- The rows that the loop works on: those of the targets that have not ended.
abbrev pub ids_of : List OperationTarget → List String
ids_of [] = []
ids_of (t ∷ ts) = if is_terminal t.status then ids_of ts else t.id ∷ ids_of ts

-- What the counts before and after some targets say of them.
pub record Outcome (n n' : Tally) (db : DeployDb) (ts : List OperationTarget) : Type 0 where
  pub failed_le : n.failed ≤ n'.failed
  pub terminal_le : n.terminal_failed ≤ n'.terminal_failed
  pub cancelled_stays : n'.cancelled_any ≡ false → n.cancelled_any ≡ false
  pub no_rollback : n'.failed ≡ n.failed → n'.rollback_target ≡ n.rollback_target
  pub good :
      n'.failed ≡ n.failed
      → n'.terminal_failed ≡ n.terminal_failed
      → n'.cancelled_any ≡ false
      → All (λ t. Good db t.id) ts × (n'.succeeded ≡ n.succeeded + length ts)

-- What the counts before and after one target that does not stop the loop say of it.
pub record Counted (n n' : Tally) (db : DeployDb) (t : OperationTarget) : Type 0 where
  pub same_failed : n'.failed ≡ n.failed
  pub terminal_le : n.terminal_failed ≤ n'.terminal_failed
  pub cancelled_stays : n'.cancelled_any ≡ false → n.cancelled_any ≡ false
  pub no_rollback : n'.rollback_target ≡ n.rollback_target
  pub good :
      n'.terminal_failed ≡ n.terminal_failed
      → n'.cancelled_any ≡ false
      → Good db t.id × (n'.succeeded ≡ n.succeeded + 1)

-- The loop over the targets returns, and leaves what else has ended.
pub record Rolled (ts : List OperationTarget) (x : Exec) (n : Tally) (m : Exec × Result Tally)
    : Type 0 where
  pub tally : Tally
  pub returns : m.1 ≡ ok tally
  pub same_op : m.0.op.id ≡ x.op.id
  pub peaceful : Peaceful m.0.polls
  pub kept : Keeps x m.0
  pub grown : TargetsGrow (ids_of ts) x.db.op_targets m.0.db.op_targets
  pub outcome : Outcome n tally m.0.db ts

good_ended : (s : Status) → is_good s ≡ true → is_terminal s ≡ true
good_ended succeeded h = refl
good_ended skipped h = refl
good_ended _ h = ground arith

pub succeeded_good : (s : Status) → is_succeeded s ≡ true → is_good s ≡ true
succeeded_good succeeded h = refl
succeeded_good _ h = ground arith

pub true_not_false : ◌≡◌ {A = Bool} true false → ⊥
true_not_false h = ground arith

pub fits_good :
    (res : TargetResult) (s : Status) → res.succeeded ≡ true → fits res s ≡ true → is_good s ≡ true
fits_good res succeeded e h = refl
fits_good res skipped e h = refl
fits_good res _ e h = ground arith

-- A key that no row has is not listed.
unlisted_key :
    (id : String) (ts : List OperationTarget)
    → find_row (keyed op_target_key id) ts ≡ none
    → is_listed id (ids_of ts) ≡ false
unfolding is_listed
unlisted_key id [] h = refl
unlisted_key id (t ∷ ts) h =
    let (other, rest) = find_row_step (keyed op_target_key id) t ts h in
    let later = unlisted_key id ts rest in
    if_cases (λ ids. is_listed id ids ≡ false) (is_terminal t.status) (λ e. later)
      (λ e. rw (other, later) refl)

-- What is worked on in the rest is worked on, and so is an open target.
listed_tail :
    (id j : String) (js : List String)
    → is_listed id (j ∷ js) ≡ false
    → (is_listed id (j ∷ []) ≡ false) × (is_listed id js ≡ false)
unfolding is_listed
listed_tail id j js h = ground arith

alone : (id j : String) → str_eq id j ≡ false → is_listed id (j ∷ []) ≡ false
unfolding is_listed
alone id j h = ground (arith, str_eq_sym id j, h)

-- A good row that is not worked on stays good.
Good-stays :
    (ids : List String) (db db' : DeployDb) (id : String)
    → TargetsGrow ids db.op_targets db'.op_targets
    → is_listed id ids ≡ false
    → Good db id
    → Good db' id
Good-stays ids db db' id g out (r, h, good) =
    let (r', h', moved) = g.0 id r h in
    let same_id : r.id ≡ id =
      (str_eq_iff r.id id).0 (find_row_holds (keyed op_target_key id) _ r h) in
    let same : r'.status ≡ r.status =
      moved.ended_stays (rw same_id out) (good_ended r.status good) in
    (r', h', rw same good)

-- Rows that are known stay known while another is worked on.
pub Known-stays :
    (id : String) (db db' : DeployDb) (ts : List OperationTarget)
    → TargetsGrow (id ∷ []) db.op_targets db'.op_targets
    → find_row (keyed op_target_key id) ts ≡ none
    → Known db ts
    → Known db' ts
Known-stays id db db' [] g new k = tt
Known-stays id db db' (t ∷ ts) g new ((r, h, as_read), k) =
    let (other, rest) = find_row_step (keyed op_target_key id) t ts new in
    let (r', h', moved) = g.0 t.id r h in
    let same_id : r.id ≡ t.id =
      (str_eq_iff r.id t.id).0 (find_row_holds (keyed op_target_key t.id) db.op_targets r h) in
    let kept : is_terminal t.status ≡ true → r'.status ≡ t.status =
      λ e. moved.ended_stays (rw same_id (alone t.id id other)) (rw (as_read e) e) ∙ as_read e in
    ((r', h', kept), Known-stays id db db' ts g rest k)

abbrev pub Within : List String → OperationTarget → List OperationTarget → Type 0
Within hs t ts =
    (id : String)
    → is_listed id (ids_of (t ∷ ts)) ≡ false
    → (is_listed id hs ≡ false) × (is_listed id (ids_of ts) ≡ false)

pub ended-Within :
    (t : OperationTarget) (ts : List OperationTarget) → is_terminal t.status ≡ true → Within [] t ts
unfolding is_listed
ended-Within t ts e id h = (
  refl,
  subst (λ (b : Bool). is_listed id (if b then ids_of ts else t.id ∷ ids_of ts) ≡ false) e h,
)

pub open-Within :
    (t : OperationTarget) (ts : List OperationTarget)
    → is_terminal t.status ≡ false
    → Within (t.id ∷ []) t ts
open-Within t ts e id h =
    listed_tail id t.id (ids_of ts)
      (subst (λ (b : Bool). is_listed id (if b then ids_of ts else t.id ∷ ids_of ts) ≡ false) e h)

-- One target done and counted, its work on the rows `hs`, then the rest.
pub Rolled-cons :
    (hs : List String) (t : OperationTarget) (ts : List OperationTarget) (x y : Exec) (n n' : Tally)
    (m : Exec × Result Tally)
    → find_row (keyed op_target_key t.id) ts ≡ none
    → y.op.id ≡ x.op.id
    → Keeps x y
    → Within hs t ts
    → TargetsGrow hs x.db.op_targets y.db.op_targets
    → Counted n n' y.db t
    → Rolled ts y n' m
    → Rolled (t ∷ ts) x n m
Rolled-cons hs t ts x y n n' m new op keeps within g c rolled = record {
  tally = rolled.tally;
  returns = rolled.returns;
  same_op = rolled.same_op ∙ op;
  peaceful = rolled.peaceful;
  kept = Keeps-trans x y m.0 keeps rolled.kept;
  grown =
      TargetsGrow-trans (ids_of (t ∷ ts)) x.db.op_targets y.db.op_targets m.0.db.op_targets
        (TargetsGrow-widen hs _ _ _ (λ id h. (within id h).0) g)
        (TargetsGrow-widen (ids_of ts) _ _ _ (λ id h. (within id h).1) rolled.grown);
  outcome = record {
    failed_le = omega (arith, c.same_failed, rolled.outcome.failed_le);
    terminal_le = omega (arith, c.terminal_le, rolled.outcome.terminal_le);
    cancelled_stays = λ h. c.cancelled_stays (rolled.outcome.cancelled_stays h);
    no_rollback = λ h. rolled.outcome.no_rollback (h ∙ sym c.same_failed) ∙ c.no_rollback;
    good = λ f d k.
        let d1 : n'.terminal_failed ≡ n.terminal_failed =
          omega (arith, c.terminal_le, rolled.outcome.terminal_le, d) in
        let (head, one) = c.good d1 (rolled.outcome.cancelled_stays k) in
        let (rest, more) = rolled.outcome.good (f ∙ sym c.same_failed) (d ∙ sym d1) k in
        (
          (
            Good-stays (ids_of ts) y.db m.0.db t.id rolled.grown (unlisted_key t.id ts new) head,
            rest,
          ),
          omega (arith, one, more),
        );
  };
}
