-- ===== src/Deploy/Verdicts.antt =====
-- How executeOperation ends: with a final status that the rows of its targets bear out, and with
-- what had ended before left alone.
use server_cli.Common.{
  is_some, ℕ, ◌<◌, String, str_eq, true, false, if_cases, Bool-cases, ◌≡◌, refl, sym, ap, subst,
  ◌∙◌, Option, some, Option-cases, inl, inr, List, [], ◌∷◌, length, All, find_row, keyed, Unique,
  Standing, some_inj, str_eq_iff, find_row_holds, select_rows-Standing, Unique-select_rows,
  All-impl, arith, Result, ok, Result-cases,
}
use server_cli.Task.Model.{External}
use server_cli.Deploy.Model.{
  succeeded, failed, is_terminal, Feature, Release, Operation, OperationTarget, DeployExternal,
}
use server_cli.Deploy.Store.{
  op_target_key, operation_key, of_operation, op_targets_of, feature_by_id,
}
use server_cli.Deploy.Service.{is_listed}
use server_cli.Deploy.Exec.{Exec, ◌▷◌}
use server_cli.Deploy.Steps.{is_cancelled}
use server_cli.Deploy.Scheduler.{
  Tally, no_targets, final_status, current_status, finish_operation, execute_targets,
  trigger_auto_rollback, conclude, named_release, execute_operation,
}
use server_cli.Deploy.Rows.{TargetsGrow, TargetsGrow-refl, TargetsGrow-trans, TargetsGrow-widen}
use server_cli.Deploy.Works.{Peaceful, Steady, Keeps}
use server_cli.Deploy.Rollouts.{Good, ids_of, Outcome, Rolled, execute_targets-Rolled}
use server_cli.Deploy.Finishing.{
  is_final, Decides, final_status-Decides, finished_at, finish_operation_lem,
  trigger_auto_rollback-Grow, RowAt, finished_at-RowAt, trigger_auto_rollback-RowAt,
  trigger_auto_rollback_op, no_rollback_target,
}

-- A row that has ended is none of the open targets.
ended_unlisted :
    (rows ts : List OperationTarget) (t : OperationTarget)
    → find_row (keyed op_target_key t.id) rows ≡ some t
    → is_terminal t.status ≡ true
    → Standing op_target_key rows ts
    → is_listed t.id (ids_of ts) ≡ false
unfolding is_listed
ended_unlisted rows [] t h ended s = refl
ended_unlisted rows (u ∷ us) t h ended (hu, s) =
    let rest = ended_unlisted rows us t h ended s in
    if_cases (λ ids. is_listed t.id ids ≡ false) (is_terminal u.status) (λ e. rest)
      (λ e. elim (Bool-cases (str_eq u.id t.id)) [
        | inl same ↦
            let found : find_row (keyed op_target_key u.id) rows ≡ some t =
              subst (λ i. find_row (keyed op_target_key i) rows ≡ some t)
                (sym ((str_eq_iff u.id t.id).0 same)) h in
            let equal : u ≡ t = some_inj (sym hu ∙ found) in
            let over : is_terminal u.status ≡ true = rw equal ended in absurd (ground arith)
        | inr other ↦ rw (other, rest) refl
      ])

-- The operation that is carried out stands in the table.
abbrev pub HasRow : Exec → Type 0
HasRow x = is_some (find_row (keyed operation_key x.op.id) x.db.operations) ≡ true

module _ {Args : Type 0} (ext : DeployExternal Args) (tasks : External Args)
    (ids : ℕ → String) where
  -- What executeOperation leaves: it returns, with a final status that the rows bear out.
  record Verdict (ts : List OperationTarget) (x : Exec) (m : Exec × Result (Unit {0}))
      : Type 0 where
    returns : m.1 ≡ ok tt
    final : is_final m.0.op.status ≡ true
    stored : Steady x.polls → HasRow x → RowAt m.0.db x.op.id m.0.op.status
    borne_out : m.0.op.status ≡ succeeded → All (λ t. Good m.0.db t.id) ts
    ended_stay : TargetsGrow (ids_of ts) x.db.op_targets m.0.db.op_targets

  finished-Verdict :
      (ts : List OperationTarget) (x y : Exec) (f : Feature) (n : Tally)
      (v : Decides (length ts) n (final_status (current_status y.db y.op.id) (length ts) n))
      → Unique op_target_key x.db.op_targets
      → TargetsGrow (ids_of ts) x.db.op_targets y.db.op_targets
      → Outcome no_targets n y.db ts
      → y.op.id ≡ x.op.id
      → Keeps x y
      → Verdict ts x (
        trigger_auto_rollback ext tasks ids
            (finished_at y v.status)
            f
            n.rollback_target
            n.rollback_release,
        ok tt,
      )
  unfolding is_listed
  finished-Verdict ts x y f n v d g out same_id keeps =
      let y1 = finished_at y v.status in
      let z = trigger_auto_rollback ext tasks ids y1 f n.rollback_target n.rollback_release in
      let same_op : z.op ≡ y1.op =
        trigger_auto_rollback_op ext tasks ids y1 f n.rollback_target n.rollback_release in
      record {
        returns = refl;
        final = subst (λ (o : Operation). is_final o.status ≡ true) (sym same_op) v.final;
        stored = λ steady there.
            let row : RowAt y1.db y.op.id v.status =
              finished_at-RowAt y v.status (rw same_id ((keeps steady).1 x.op.id there)) in
            subst (λ (o : Operation). RowAt z.db x.op.id o.status) (sym same_op)
              (subst (λ (i : String). RowAt z.db i v.status) same_id
                (trigger_auto_rollback-RowAt ext tasks ids y1 f n.rollback_target n.rollback_release
                  y.op.id v.status row));
        borne_out = λ e.
            let (no_failure, none_before, none_cancelled) =
              v.clean (sym (ap (λ (o : Operation). o.status) same_op) ∙ e) in
            let unchanged : z ≡ y1 =
              no_rollback_target ext tasks ids y1 f n.rollback_target n.rollback_release
                (out.no_rollback no_failure) in
            subst (λ (w : Exec). All (λ t. Good w.db t.id) ts) (sym unchanged)
              (out.good no_failure none_before none_cancelled).0;
        ended_stay =
            TargetsGrow-trans (ids_of ts) x.db.op_targets y.db.op_targets z.db.op_targets g (
              TargetsGrow-widen [] (ids_of ts) y.db.op_targets z.db.op_targets (λ id h. refl)
                (trigger_auto_rollback-Grow ext tasks ids y1 f n.rollback_target n.rollback_release
                  (g.1 d)));
      }

  conclude_lem :
      (total : ℕ) (y : Exec) (f : Feature) (n : Tally)
      (v : Decides total n (final_status (current_status y.db y.op.id) total n))
      → conclude ext tasks ids total y f n ≡ (
        trigger_auto_rollback ext tasks ids
            (finished_at y v.status)
            f
            n.rollback_target
            n.rollback_release,
        ok tt,
      )
  unfolding conclude ◌▷◌
  conclude_lem total y f n v =
      let go = λ (x1 : Exec) (done : Unit {0}).
        let r : Exec × Result (Unit {0}) =
          (trigger_auto_rollback ext tasks ids x1 f n.rollback_target n.rollback_release, ok tt) in
        r in
      rw (v.decided, conclude) (ap (λ m. m ▷ go) (finish_operation_lem y v.status v.final))

  conclude-Verdict :
      (ts : List OperationTarget) (x y : Exec) (f : Feature) (n : Tally)
      → 0 < length ts
      → Unique op_target_key x.db.op_targets
      → TargetsGrow (ids_of ts) x.db.op_targets y.db.op_targets
      → Outcome no_targets n y.db ts
      → y.op.id ≡ x.op.id
      → Keeps x y
      → Verdict ts x (conclude ext tasks ids (length ts) y f n)
  conclude-Verdict ts x y f n some_targets d g out same_id keeps =
      let v =
        final_status-Decides (current_status y.db y.op.id) (length ts) n some_targets
          (λ a b c. omega (arith, (out.good a b c).1)) in
      subst (Verdict ts x) (sym (conclude_lem (length ts) y f n v))
        (finished-Verdict ts x y f n v d g out same_id keeps)

  finish_failed-Verdict :
      (ts : List OperationTarget) (x : Exec) → Verdict ts x (finish_operation x failed)
  finish_failed-Verdict ts x = rw (finish_operation_lem x failed refl) (record {
    returns = refl;
    final = refl;
    stored = λ steady there. finished_at-RowAt x failed there;
    borne_out = λ e. ground arith;
    ended_stay = TargetsGrow-refl (ids_of ts) x.db.op_targets;
  })

  loop_concluded :
      (x : Exec) (f : Feature) (r : Option Release)
      → is_cancelled x.op.status ≡ false
      → Unique op_target_key x.db.op_targets
      → Peaceful x.polls
      → 0 < length (op_targets_of x.db x.op.id)
      → Verdict (op_targets_of x.db x.op.id) x (
          execute_targets ext tasks ids (op_targets_of x.db x.op.id) x f r no_targets ▷ λ x1 n.
          conclude ext tasks ids (length (op_targets_of x.db x.op.id)) x1 f n)
  unfolding ◌▷◌ op_targets_of
  loop_concluded x f r live d calm some_targets =
      let ts = op_targets_of x.db x.op.id in
      let m = execute_targets ext tasks ids ts x f r no_targets in
      let rolled : Rolled ts x no_targets m =
        execute_targets-Rolled ext tasks ids ts x f r no_targets
          (Unique-select_rows op_target_key (of_operation x.op.id) x.db.op_targets d)
          (All-impl ts (λ t found. (t, found, λ e. refl))
            (select_rows-Standing op_target_key (of_operation x.op.id) x.db.op_targets d))
          calm live in
      let same : m ≡ (m.0, ok rolled.tally) = ap (λ (t : Result Tally). (m.0, t)) rolled.returns in
      rw same (
        conclude-Verdict ts x m.0 f rolled.tally some_targets d rolled.grown rolled.outcome
          rolled.same_op rolled.kept)

  execute_operation-Verdict :
      (x : Exec)
      → is_cancelled x.op.status ≡ false
      → Unique op_target_key x.db.op_targets
      → Peaceful x.polls
      → 0 < length (op_targets_of x.db x.op.id)
      → Verdict (op_targets_of x.db x.op.id) x (execute_operation ext tasks ids x)
  unfolding execute_operation
  execute_operation-Verdict x live d calm some_targets =
      elim (Option-cases (feature_by_id x.db x.op.feature_id)) [
        | inl e ↦ rw (e, execute_operation) (finish_failed-Verdict (op_targets_of x.db x.op.id) x)
        | inr (f, e) ↦
            rw (e, execute_operation)
              (elim (Result-cases (named_release ext tasks ids x.db x.op.release_id)) [
                | inl (e', k) ↦ rw k (finish_failed-Verdict (op_targets_of x.db x.op.id) x)
                | inr (r, k) ↦ rw k (loop_concluded x f r live d calm some_targets)
              ])
      ]

  -- An operation with at least one target that is not cancelled when its execution begins always
  -- ends: executeOperation returns no error, it leaves the operation succeeded, partially failed,
  -- failed or cancelled, and its row in the table with that status. This holds whatever the tasks
  -- come to, as long as the operation has a row at the start, no two rows of operation targets share
  -- an identifier, and what others commit meanwhile keeps the rows of operations, and those of
  -- operation targets with their status where they have ended.
  pub operation_ends :
      (x : Exec)
      → is_cancelled x.op.status ≡ false
      → Unique op_target_key x.db.op_targets
      → Peaceful x.polls
      → 0 < length (op_targets_of x.db x.op.id)
      → Steady x.polls
      → HasRow x
      → ((execute_operation ext tasks ids x).1 ≡ ok tt)
        × (is_final (execute_operation ext tasks ids x).0.op.status ≡ true)
        × RowAt
            (execute_operation ext tasks ids x).0.db
            x.op.id
            (execute_operation ext tasks ids x).0.op.status
  operation_ends x live d calm some_targets steady there =
      let v = execute_operation-Verdict x live d calm some_targets in
      (v.returns, v.final, v.stored steady there)

  -- An operation that executeOperation leaves as succeeded has every target's row succeeded or
  -- skipped, where it had a target and was not cancelled when claimed, no two rows of operation
  -- targets share an identifier, and what others commit meanwhile keeps those rows, and their
  -- status where they have ended.
  pub success_borne_out :
      (x : Exec)
      → is_cancelled x.op.status ≡ false
      → Unique op_target_key x.db.op_targets
      → Peaceful x.polls
      → 0 < length (op_targets_of x.db x.op.id)
      → (execute_operation ext tasks ids x).0.op.status ≡ succeeded
      → All (λ t. Good (execute_operation ext tasks ids x).0.db t.id) (op_targets_of x.db x.op.id)
  success_borne_out x live d calm some_targets =
      (execute_operation-Verdict x live d calm some_targets).borne_out

  -- Every operation target that had ended before an execution, of this operation or of another, has
  -- its row after it and the same status, where the operation has a target and is not cancelled when
  -- claimed, no two rows of operation targets share an identifier, and what others commit meanwhile
  -- keeps those rows, and their status where they have ended.
  pub ended_targets_stay :
      (x : Exec)
      → is_cancelled x.op.status ≡ false
      → Unique op_target_key x.db.op_targets
      → Peaceful x.polls
      → 0 < length (op_targets_of x.db x.op.id)
      → (id : String) (t : OperationTarget)
      → find_row (keyed op_target_key id) x.db.op_targets ≡ some t
      → is_terminal t.status ≡ true
      → (t' : OperationTarget) × (find_row
            (keyed op_target_key id)
            (execute_operation ext tasks ids x).0.db.op_targets
          ≡ some t')
        × (t'.status ≡ t.status)
  unfolding op_targets_of
  ended_targets_stay x live d calm some_targets id t h ended =
      let v = execute_operation-Verdict x live d calm some_targets in
      let (t', h', moved) = v.ended_stay.0 id t h in
      let there : find_row (keyed op_target_key t.id) x.db.op_targets ≡ some t =
        subst (λ i. find_row (keyed op_target_key i) x.db.op_targets ≡ some t)
          (sym
            ((str_eq_iff t.id id).0 (find_row_holds (keyed op_target_key id) x.db.op_targets t h)))
          h in
      (
        t',
        h',
        moved.ended_stays
            (ended_unlisted x.db.op_targets (op_targets_of x.db x.op.id) t there ended
              (select_rows-Standing op_target_key (of_operation x.op.id) x.db.op_targets d))
            ended,
      )
