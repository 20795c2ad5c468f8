-- ===== src/Deploy/Rollouts.antt =====
-- The loop of executeOperation over the targets: what its counts say of the rows.
mod Tallies
pub use Tallies.*
use server_cli.Common.{
  ℕ, ◌+◌, ◌≤◌, String, str_eq, str_eq_iff, Bool, true, false, if◌then◌else◌, if_cases, Bool-cases,
  ◌≡◌, refl, sym, subst, ◌∙◌, Option, none, some, inl, inr, List, [], ◌∷◌, length, All, find_row,
  find_row_holds, find_row_step, keyed, Unique, arith, Error, Result, ok, err,
}
use server_cli.Task.Model.{External}
use server_cli.Deploy.Model.{
  Status, succeeded, failed, skipped, is_terminal, Feature, Release, OperationTarget, DeployDb,
  DeployExternal,
}
use server_cli.Deploy.Store.{op_target_key, update_op_target}
use server_cli.Deploy.Service.{is_listed, is_succeeded}
use server_cli.Deploy.Exec.{Exec, ◌▷◌}
use server_cli.Deploy.Steps.{is_cancelled}
use server_cli.Deploy.Targets.{TargetResult, execute_target}
use server_cli.Deploy.Scheduler.{
  Tally, count_ended, count_failed, abandon_target, proceed, execute_targets,
}
use server_cli.Deploy.Rows.{
  TargetsGrow, TargetsGrow-refl, TargetsGrow-trans, TargetsGrow-widen, update_op_target-Grow,
  ended_written,
}
use server_cli.Deploy.Rows.{update_op_target_operations}
use server_cli.Deploy.Works.{Peaceful, Worked, Keeps, listed_self}
use server_cli.Deploy.Outcomes.{fits, Ends, execute_target-Ends}

module _ {Args : Type 0} (ext : DeployExternal Args) (tasks : External Args)
    (ids : ℕ → String) where
  -- A target that had ended is only counted.
  ended-Counted :
      (t : OperationTarget) (n : Tally) (x : Exec) (r : OperationTarget)
      → find_row (keyed op_target_key t.id) x.db.op_targets ≡ some r
      → r.status ≡ t.status
      → Counted n (count_ended t.status n) x.db t
  ended-Counted t n x r h same = elim (Bool-cases (is_succeeded t.status)) [
    | inl s ↦
        rw (s, count_ended)
          (record {
            same_failed = refl;
            terminal_le = omega arith;
            cancelled_stays = λ k. k;
            no_rollback = refl;
            good = λ d k. ((r, h, rw same (succeeded_good t.status s)), refl);
          })
    | inr s ↦
        rw (s, count_ended)
          (record {
            same_failed = refl;
            terminal_le = omega arith;
            cancelled_stays = λ k. k;
            no_rollback = refl;
            good = λ d k. absurd (omega (arith, d));
          })
  ]

  -- A target that stops the loop.
  stopped :
      (t : OperationTarget) (ts : List OperationTarget) (x y : Exec) (n : Tally)
      (target release : String)
      → y.op.id ≡ x.op.id
      → Peaceful y.polls
      → Keeps x y
      → Within (t.id ∷ []) t ts
      → TargetsGrow (t.id ∷ []) x.db.op_targets y.db.op_targets
      → Rolled
          (t ∷ ts)
          x
          n
          (y, ok (record (count_failed n) { rollback_target = target; rollback_release = release }))
  stopped t ts x y n target release op calm keeps within g = record {
    tally = record (count_failed n) { rollback_target = target; rollback_release = release };
    returns = refl;
    same_op = op;
    peaceful = calm;
    kept = keeps;
    grown =
        TargetsGrow-widen (t.id ∷ []) (ids_of (t ∷ ts)) x.db.op_targets y.db.op_targets
          (λ id h. (within id h).0) g;
    outcome = record {
      failed_le = omega arith;
      terminal_le = omega arith;
      cancelled_stays = λ h. h;
      no_rollback = λ h. absurd (omega (arith, h));
      good = λ h d k. absurd (omega (arith, h));
    };
  }

  abbrev abandoned_row : Exec → Error → OperationTarget
  abandoned_row y e = record y.t {
    status = failed;
    error_message = ext.sanitize (ext.error_text e);
    finished_at = some y.now;
  }

  abandon_target_lem :
      (y : Exec) (e : Error) (db : DeployDb)
      → update_op_target y.db (abandoned_row y e) ≡ some db
      → abandon_target ext tasks ids y e ≡ (record y { db = db; t = abandoned_row y e }, ok tt)
  unfolding abandon_target
  abandon_target_lem y e db h = rw (h, abandon_target) refl

  abandoned :
      (t : OperationTarget) (ts : List OperationTarget) (x y : Exec) (n : Tally) (e : Error)
      → Within (t.id ∷ []) t ts
      → Worked (record x { t = t }) y
      → Keeps x y
      → Rolled
          (t ∷ ts)
          x
          n
          (abandon_target ext tasks ids y e ▷ λ x2 done. (x2, ok (count_failed n)))
  unfolding ◌▷◌
  abandoned t ts x y n e within w keeps =
      let row = abandoned_row y e in
      let (db, written) = ended_written y.db row refl in
      let listed : is_listed y.t.id (t.id ∷ []) ≡ true =
        subst (λ i. is_listed y.t.id (i ∷ []) ≡ true) w.same_target (listed_self y.t.id) in
      rw (abandon_target_lem y e db written) (
        stopped t ts x (record y { db = db; t = row }) n n.rollback_target n.rollback_release
          w.same_op w.peaceful
          (λ steady.
            let (steady1, k) = keeps steady in
            (
              steady1,
              λ id found. rw (update_op_target_operations y.db db row written) (k id found),
            ))
          within
          (TargetsGrow-trans (t.id ∷ []) x.db.op_targets y.db.op_targets db.op_targets w.grown
            (update_op_target-Grow (t.id ∷ []) y.db db row listed written)))

  proceed-Rolled :
      (t : OperationTarget) (ts : List OperationTarget) (x : Exec) (n : Tally)
      (row : OperationTarget) (m : Exec × Result TargetResult)
      (go : Exec → Tally → Exec × Result Tally)
      → Within (t.id ∷ []) t ts
      → Ends (record x { t = t }) m
      → find_row (keyed op_target_key t.id) x.db.op_targets ≡ some row
      → find_row (keyed op_target_key t.id) ts ≡ none
      → Peaceful x.polls
      → ((y : Exec) (n' : Tally) → Worked (record x { t = t }) y → Rolled ts y n' (go y n'))
      → Rolled (t ∷ ts) x n (proceed ext tasks ids m n go)
  unfolding proceed
  proceed-Rolled t ts x n row (y, err e) go within ends h new calm rest =
      let w = ends.0.0 calm in abandoned t ts x y n e within w ends.0.1
  proceed-Rolled t ts x n row (y, ok res) go within ends h new calm rest =
      let w = ends.0.0 calm in
      let (r', h', fit) = ends.1 res refl calm row h in
      if_cases (Rolled (t ∷ ts) x n) res.cancelled
        (λ c.
          Rolled-cons (t.id ∷ []) t ts x y n (record n { cancelled_any = true }) _ new w.same_op
            ends.0.1 within w.grown
            (record {
              same_failed = refl;
              terminal_le = omega arith;
              cancelled_stays = λ k. ground (arith, k);
              no_rollback = refl;
              good = λ d k. absurd (true_not_false k);
            })
            (rest y _ w))
        (λ c.
          if_cases (Rolled (t ∷ ts) x n) res.succeeded
            (λ s.
              Rolled-cons (t.id ∷ []) t ts x y n (record n { succeeded = n.succeeded + 1 }) _ new
                w.same_op ends.0.1 within w.grown
                (record {
                  same_failed = refl;
                  terminal_le = omega arith;
                  cancelled_stays = λ k. k;
                  no_rollback = refl;
                  good = λ d k. ((r', h', fits_good res r'.status s fit), refl);
                })
                (rest y _ w))
            (λ s.
              stopped t ts x y n res.rollback_target res.rollback_release w.same_op w.peaceful
                ends.0.1 within w.grown))

  -- The loop, over targets with distinct rows.
  pub execute_targets-Rolled :
      (ts : List OperationTarget) (x : Exec) (f : Feature) (r : Option Release) (n : Tally)
      → Unique op_target_key ts
      → Known x.db ts
      → Peaceful x.polls
      → is_cancelled x.op.status ≡ false
      → Rolled ts x n (execute_targets ext tasks ids ts x f r n)
  unfolding execute_targets
  execute_targets-Rolled [] x f r n d k calm live = record {
    tally = n;
    returns = refl;
    same_op = refl;
    peaceful = calm;
    kept = λ steady. (steady, λ id found. found);
    grown = TargetsGrow-refl [] x.db.op_targets;
    outcome = record {
      failed_le = omega arith;
      terminal_le = omega arith;
      cancelled_stays = λ h. h;
      no_rollback = λ h. refl;
      good = λ h e c. (tt, omega arith);
    };
  }
  execute_targets-Rolled (t ∷ ts) x f r n (new, d) ((row, h, as_read), k) calm live =
      elim (Bool-cases (is_terminal t.status)) [
        | inl e ↦
            rw (e, execute_targets)
              (Rolled-cons [] t ts x x n (count_ended t.status n) _ new refl
                (λ steady. (steady, λ id found. found)) (ended-Within t ts e)
                (TargetsGrow-refl [] x.db.op_targets) (ended-Counted t n x row h (as_read e))
                (execute_targets-Rolled ts x f r (count_ended t.status n) d k calm live))
        | inr e ↦
            rw (e, execute_targets, live)
              (proceed-Rolled t ts x n row (execute_target ext tasks ids (record x { t = t }) f r)
                (λ x1 n1. execute_targets ext tasks ids ts x1 f r n1) (open-Within t ts e)
                (execute_target-Ends ext tasks ids (record x { t = t }) f r) h new calm
                (λ y n' w.
                  execute_targets-Rolled ts y f r n' d (Known-stays t.id x.db y.db ts w.grown new k)
                    w.peaceful (rw w.same_status live)))
      ]
