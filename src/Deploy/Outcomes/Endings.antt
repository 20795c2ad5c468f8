-- ===== src/Deploy/Outcomes/Endings.antt =====
-- How a target's row ends (failTarget, succeedTarget and cancelTarget of
-- backend/internal/service/deployment_scheduler.go).
use server_cli.Common.{
  String, Bool, true, false, not, ◌&&◌, ◌≡◌, refl, sym, subst, some, Option-cases, inl, inr, List,
  find_row, keyed, arith, Error, Result, ok, err, ok_inj,
}
use server_cli.Deploy.Model.{
  Status, succeeded, failed, cancelled, skipped, OperationTarget, DeployDb,
}
use server_cli.Deploy.Store.{
  op_target_key, holds_node, target_by_id, update_target, write_op_target,
}
use server_cli.Deploy.Exec.{Exec, ◌▷◌}
use server_cli.Deploy.Steps.{try_op_target}
use server_cli.Deploy.Targets.{TargetResult, end_target, succeed_target, target_done}
use server_cli.Deploy.Rows.{update_op_target-found, ended_written}
use server_cli.Deploy.Works.{Peaceful, Works, Works-trans, quiet, try_op_target-Works}

-- The statuses that a result stands for.
abbrev pub fits : TargetResult → Status → Bool
fits res succeeded = res.succeeded
fits res skipped = res.succeeded
fits res cancelled = not res.succeeded && res.cancelled
fits res failed = not res.succeeded && not res.cancelled
fits res _ = false

-- The row stands with a status of the result.
abbrev pub Stands : TargetResult → DeployDb → String → Type 0
Stands res db id =
    (r : OperationTarget) × (find_row (keyed op_target_key id) db.op_targets ≡ some r)
    × (fits res r.status ≡ true)

-- The work on the target of `x`, and that its row, if there is one, ends as the result says.
abbrev pub Ends : Exec → Exec × Result TargetResult → Type 0
Ends x m =
    Works x m.0
    × ((res : TargetResult)
        → m.1 ≡ ok res
        → Peaceful x.polls
        → (r : OperationTarget) → find_row (keyed op_target_key x.t.id) x.db.op_targets ≡ some r
        → Stands res m.0.db x.t.id)

-- Earlier work on the same target.
pub Ends-after : (x y : Exec) (m : Exec × Result TargetResult) → Works x y → Ends y m → Ends x m
Ends-after x y m f g = (
  Works-trans x y m.0 f g.0,
  λ res e calm r h.
      let a = f.0 calm in
      let (r', h', moved) = a.grown.0 x.t.id r h in
      subst (Stands res m.0.db) a.same_target (
        g.1 res e a.peaceful r' (
          subst (λ i. find_row (keyed op_target_key i) y.db.op_targets ≡ some r')
            (sym a.same_target) h')),
)

failed_not_ok : {A : Type 0} {e : Error} {a : A} → ◌≡◌ {A = Result A} (err e) (ok a) → ⊥
failed_not_ok h = ground arith

pub ▷-Ends :
    {A : Type 0} (x : Exec) (m : Exec × Result A) (k : Exec → A → Exec × Result TargetResult)
    → Works x m.0
    → ((y : Exec) (a : A) → Ends y (k y a))
    → Ends x (m ▷ k)
unfolding ◌▷◌
▷-Ends x (y, err e) k f g = (f, λ res h. absurd (failed_not_ok h))
▷-Ends x (y, ok a) k f g = Ends-after x y (k y a) f (g y a)

-- An end that no index refuses is in the row.
end_target_row :
    (s : Status) (msg : String) (x : Exec) (r : OperationTarget)
    → holds_node s ≡ false
    → find_row (keyed op_target_key x.t.id) x.db.op_targets ≡ some r
    → (r' : OperationTarget) × (find_row
          (keyed op_target_key x.t.id)
          (end_target s msg x).db.op_targets
        ≡ some r')
      × (r'.status ≡ s)
unfolding try_op_target
end_target_row s msg x r free h =
    let t = record x.t { status = s; error_message = msg; finished_at = some x.now } in
    let (db, e) = ended_written x.db t free in
    (write_op_target t r, rw (e, try_op_target) (update_op_target-found x.db db t r h e), refl)

-- The end of a target, and a result that its status stands for.
pub end_target-Ends :
    (s : Status) (msg : String) (x : Exec) (res : TargetResult)
    → holds_node s ≡ false
    → fits res s ≡ true
    → Ends x (end_target s msg x, ok res)
end_target-Ends s msg x res free fit = (
  try_op_target-Works x _ refl,
  λ res' e calm r h.
      let (r', h', st) = end_target_row s msg x r free h in
      (r', h', subst (λ q. fits q r'.status ≡ true) (ok_inj e) (rw st fit)),
)

-- Later work that writes no row of an operation target.
Ends-before :
    (x y z : Exec) (res : TargetResult)
    → Works y z
    → z.db.op_targets ≡ y.db.op_targets
    → Ends x (y, ok res)
    → Ends x (z, ok res)
Ends-before x y z res f same g = (
  Works-trans x y z g.0 f,
  λ res' e calm r h.
      let (r', h', fit) = g.1 res' e calm r h in
      (
        r',
        subst
            (λ (rows : List OperationTarget). find_row (keyed op_target_key x.t.id) rows ≡ some r')
            (sym same) h',
        fit,
      ),
)

pub succeed_target-Ends : (x : Exec) → Ends x (succeed_target x, ok target_done)
unfolding succeed_target update_target
succeed_target-Ends x =
    let x1 = end_target succeeded "" x in
    let ended : Ends x (x1, ok target_done) =
      end_target-Ends succeeded "" x target_done refl refl in
    elim (Option-cases (target_by_id x1.db x1.t.target_id)) [
      | inl e ↦ rw (e, succeed_target) ended
      | inr (tg, e) ↦
          rw (e, succeed_target)
            (Ends-before x x1 _ target_done (quiet x1 _ refl refl refl refl refl (λ id h. h)) refl
              ended)
    ]
