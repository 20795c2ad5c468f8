-- ===== src/Task/Scope.antt =====
-- Nodes are kept apart: a control plane that is scoped to a node, and an agent, reach only the
-- tasks of that node (backend/internal/service/task.go).
use mathlib.Core.Option
use server_cli.Common.{
  String, str_eq, str_eq_iff, Bool, true, false, ◌&&◌, ◌≡◌, refl, sym, ap, subst, ◌∙◌, ◌⊎◌, inl,
  inr, Option, some, List, find_row, find_row_holds, find_row-update_rows, update_rows,
  if◌then◌else◌, Bool-cases, arith, ok, some_inj,
}
use server_cli.Task.Model.{
  Status, dispatched, is_terminal, Task, TaskEvent, TaskOutput, Db, Env, External,
}
use server_cli.Task.Store.{has_id, write_task, task_by_id, update_task, mark_task_running}
use server_cli.Task.Service.{
  out_of_scope, get_task, cancel_task, cancel_task_cases, cancel_found, cancelled_at, cancel_event,
}
use server_cli.Task.Agent.{
  EventInput, ResultInput, EventKind, begun, ended, progress_made, unlisted, event_kind,
  apply_event, finish, take_event, record_event, record_event_cases, settle, record_result,
  record_result_cases, event_row,
}
use server_cli.Task.Lifecycle.{tasks-append_event, tasks-save_output, finish-id}

-- Every task of another node keeps its row.
abbrev pub OthersKept : String → Db → Db → Type 0
OthersKept node db db' =
    (id : String) (r : Task)
    → task_by_id db id ≡ some r
    → str_eq r.node_id node ≡ false
    → task_by_id db' id ≡ some r

OthersKept-refl : (node : String) (db : Db) → OthersKept node db db
OthersKept-refl node db id r e other = e

-- An UPDATE on the row of a task of the node, whatever it writes to it.
update_own :
    (node : String) (db : Db) (id : String) (t : Task) (q : Task → Bool) (f : Task → Task)
    → task_by_id db id ≡ some t
    → t.node_id ≡ node
    → ((x : Task) → q x ≡ true → x.id ≡ t.id)
    → ((x : Task) → (f x).id ≡ x.id)
    → OthersKept node db (record db { tasks = update_rows q f db.tasks })
unfolding task_by_id
update_own node db id t q f found mine hits keep other_id r e other =
    find_row-update_rows (has_id other_id) q f db.tasks (λ x. rw (keep x) refl)
    ∙ rw (e, Option.map) (ap some (missed (Bool-cases (q r))))
  where
    at : (k : String) (x : Task) → find_row (has_id k) db.tasks ≡ some x → x.id ≡ k
    at k x h = (str_eq_iff x.id k).0 (find_row_holds (has_id k) db.tasks x h)

    same : q r ≡ true → t ≡ r
    same hit =
        let id_eq : id ≡ other_id = sym (at id t found) ∙ sym (hits r hit) ∙ at other_id r e in
        some_inj (sym found ∙ subst (λ k. find_row (has_id k) db.tasks ≡ some r) (sym id_eq) e)

    missed : (q r ≡ true) ⊎ (q r ≡ false) → (if q r then f r else r) ≡ r
    missed (inl hit) = absurd (
        ground (
          arith,
          other,
          (str_eq_iff r.node_id node).1 (ap (λ (x : Task). x.node_id) (sym (same hit)) ∙ mine),
        ))
    missed (inr miss) = rw miss refl

update_task_own :
    (node : String) (db : Db) (id : String) (t new : Task)
    → task_by_id db id ≡ some t
    → t.node_id ≡ node
    → new.id ≡ t.id
    → OthersKept node db (update_task db new)
unfolding update_task
update_task_own node db id t new found mine same =
    update_own node db id t (has_id new.id) (write_task new) found mine
      (λ x h. (str_eq_iff x.id new.id).0 h ∙ same) (λ x. refl)

and_left : (a b : Bool) → (a && b) ≡ true → a ≡ true
and_left a b h = ground arith

mark_running_own :
    (node : String) (db : Db) (id : String) (t : Task)
    → task_by_id db id ≡ some t
    → t.node_id ≡ node
    → OthersKept node db (mark_task_running db t.id)
unfolding mark_task_running
mark_running_own node db id t found mine =
    update_own node db id t _ _ found mine (λ x h. (str_eq_iff x.id t.id).0 (and_left _ _ h))
      (λ x. refl)

OthersKept-tasks :
    (node : String) (db db' db'' : Db)
    → db''.tasks ≡ db'.tasks
    → OthersKept node db db'
    → OthersKept node db db''
unfolding task_by_id
OthersKept-tasks node db db' db'' same k id r e other =
    ap (find_row (has_id id)) same ∙ k id r e other

begun_own :
    (node : String) (db : Db) (id : String) (t : Task) (s : Status)
    → task_by_id db id ≡ some t
    → t.node_id ≡ node
    → OthersKept node db (elim s [ dispatched ↦ mark_task_running db t.id | _ ↦ db ])
begun_own node db id t dispatched found mine = mark_running_own node db id t found mine
begun_own node db id t _ found mine = OthersKept-refl node db

apply_event_own :
    (node : String) (db : Db) (env : Env) (id : String) (t : Task) (k : EventKind)
    → task_by_id db id ≡ some t
    → t.node_id ≡ node
    → OthersKept node db (apply_event db env t k).0
unfolding apply_event
apply_event_own node db env id t begun found mine = begun_own node db id t t.status found mine
apply_event_own node db env id t (ended s) found mine = elim (Bool-cases (is_terminal t.status)) [
  | inl over ↦ rw over (OthersKept-refl node db)
  | inr live ↦ rw live (update_task_own node db id t _ found mine refl)
]
apply_event_own node db env id t progress_made found mine = OthersKept-refl node db
apply_event_own node db env id t unlisted found mine = OthersKept-refl node db

module _ {Args : Type 0} (ext : External Args) where
  take_event_own :
      (node : String) (db : Db) (env : Env) (id : String) (t : Task) (inp : EventInput)
      → task_by_id db id ≡ some t
      → t.node_id ≡ node
      → OthersKept node db (take_event ext db env id t inp)
  unfolding take_event
  take_event_own node db env id t inp found mine =
      let k = event_kind inp.event_type in
      OthersKept-tasks node db (apply_event db env t k).0 _
        (tasks-append_event (apply_event db env t k).0 env.now
          (event_row ext db env id inp (apply_event db env t k).1))
        (apply_event_own node db env id t k found mine)

  settle_own :
      (node : String) (db : Db) (env : Env) (id : String) (t : Task) (inp : ResultInput)
      → task_by_id db id ≡ some t
      → t.node_id ≡ node
      → OthersKept node db (settle ext db env node id t inp)
  unfolding settle
  settle_own node db env id t inp found mine =
      let changed : Db =
        if is_terminal t.status then db else update_task db (finish ext env t inp) in
      OthersKept-tasks node db changed _
        (tasks-append_event _ env.now _ ∙ tasks-save_output ext changed id inp)
        (elim (Bool-cases (is_terminal t.status)) [
          | inl over ↦ rw over (OthersKept-refl node db)
          | inr live ↦ rw live (update_task_own node db id t _ found mine (finish-id ext env t inp))
        ])

  -- An agent's reports reach the tasks of its own node only: neither an event nor a result, for
  -- whatever task and with whatever content, changes the row of a task of another node.
  pub agents_confined :
      (db : Db) (env : Env) (node id : String) (event : EventInput) (result : ResultInput)
      → OthersKept node db (record_event ext db env node id event).0
        × OthersKept node db (record_result ext db env node id result).0
  agents_confined db env node id event result = (
    record_event_cases ext (λ r. OthersKept node db r.0) db env node id event
        (OthersKept-refl node db) (λ t e mine. take_event_own node db env id t event e mine),
    record_result_cases ext (λ r. OthersKept node db r.0) db env node id result
        (OthersKept-refl node db) (λ t e mine. settle_own node db env id t result e mine),
  )

in_scope :
    (scope node_id : String)
    → str_eq scope "" ≡ false
    → out_of_scope scope node_id ≡ false
    → node_id ≡ scope
in_scope scope node_id scoped h = sym ((str_eq_iff scope node_id).0 (ground (arith, scoped, h)))

cancel_found_own :
    (db : Db) (env : Env) (scope id actor who : String) (t : Task)
    → task_by_id db id ≡ some t
    → t.node_id ≡ scope
    → OthersKept scope db (cancel_found db env actor who t)
unfolding cancel_found
cancel_found_own db env scope id actor who t found mine =
    OthersKept-tasks scope db (update_task db (cancelled_at env t)) _
      (tasks-append_event _ env.now (cancel_event (cancelled_at env t)))
      (update_task_own scope db id t (cancelled_at env t) found mine refl)

-- A control plane that is scoped to a node shows the tasks of that node only, and its cancellations
-- change the row of no other node's task.
pub scope_confines :
    (db : Db) (env : Env) (scope id actor who : String)
    → str_eq scope "" ≡ false
    → ((t : Task) (es : List TaskEvent) (o : Option TaskOutput)
        → get_task db scope id ≡ ok (t, es, o)
        → t.node_id ≡ scope)
      × OthersKept scope db (cancel_task db env scope id actor who).0
unfolding get_task
scope_confines db env scope id actor who scoped = (
  λ t es o h. in_scope scope t.node_id scoped (ground arith),
  cancel_task_cases (λ r. OthersKept scope db r.0) db env scope id actor who
      (λ e. OthersKept-refl scope db)
      (λ t e inside live.
        cancel_found_own db env scope id actor who t e (in_scope scope t.node_id scoped inside)),
)
