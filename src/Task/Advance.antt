-- ===== src/Task/Advance.antt =====
-- What an operation may do to a task row, and the statements of store/task.go that do no more.

use server_cli.Common.{
  ℕ, ◌≤◌, String, Bool, true, ◌&&◌, ◌≡◌, refl, sym, subst, ◌∙◌, none, some, List, [], ◌∷◌, ◌++◌,
  find_row, update_rows, arith, Grows, Grows-refl, Grows-trans, Grows-update_rows, Grows-update_row,
  Grows-append,
}
use server_cli.Task.Model.{Status, queued, dispatched, running, node_unreachable, is_terminal, Task}
use server_cli.Task.Store.{
  task_key, has_id, write_task, is_queued, is_dispatched, dispatch_rows, fail_unreachable,
}

-- How far a task has come.
abbrev pub rank : Status → ℕ
rank queued = 0
rank dispatched = 1
rank running = 2
rank _ = 3

-- The later row `s` of the task whose row was `r`.
pub record Advances (r s : Task) : Type 0 where
  pub rank_le : rank r.status ≤ rank s.status
  pub frozen : is_terminal r.status ≡ true → s ≡ r
  pub same_id : s.id ≡ r.id
  pub same_node : s.node_id ≡ r.node_id
  pub same_command : s.command_id ≡ r.command_id
  pub same_version : s.command_version ≡ r.command_version
  pub same_arguments : s.arguments_json ≡ r.arguments_json
  pub same_timeout : s.timeout_seconds ≡ r.timeout_seconds
  pub same_queued_at : s.queued_at ≡ r.queued_at

pub Advances-refl : (r : Task) → Advances r r
Advances-refl r = ground arith

pub Advances-trans : (r s t : Task) → Advances r s → Advances s t → Advances r t
Advances-trans r s t a b = record {
  rank_le = omega (arith, a.rank_le, b.rank_le);
  frozen =
      λ h. b.frozen (subst (λ x. is_terminal x.status ≡ true) (sym (a.frozen h)) h) ∙ a.frozen h;
  same_id = b.same_id ∙ a.same_id;
  same_node = b.same_node ∙ a.same_node;
  same_command = b.same_command ∙ a.same_command;
  same_version = b.same_version ∙ a.same_version;
  same_arguments = b.same_arguments ∙ a.same_arguments;
  same_timeout = b.same_timeout ∙ a.same_timeout;
  same_queued_at = b.same_queued_at ∙ a.same_queued_at;
}

-- The task table of a later database.
abbrev pub TasksGrow : List Task → List Task → Type 0
TasksGrow = Grows task_key Advances Advances-refl Advances-trans

pub TasksGrow-refl : (ts : List Task) → TasksGrow ts ts
TasksGrow-refl = Grows-refl task_key Advances Advances-refl Advances-trans

pub TasksGrow-trans : (ts us vs : List Task) → TasksGrow ts us → TasksGrow us vs → TasksGrow ts vs
TasksGrow-trans = Grows-trans task_key Advances Advances-refl Advances-trans

-- An UPDATE whose every changed row advances.
update_rows-Grow :
    (q : Task → Bool) (f : Task → Task)
    → ((x : Task) → (f x).id ≡ x.id)
    → ((x : Task) → q x ≡ true → Advances x (f x))
    → (ts : List Task) → TasksGrow ts (update_rows q f ts)
update_rows-Grow = Grows-update_rows task_key Advances Advances-refl Advances-trans

dispatched-Advances :
    (now : ℕ) (t : Task)
    → is_queued t.status ≡ true
    → Advances t (record t { status = dispatched; started_at = some now })
dispatched-Advances now t h = ground arith

running-Advances :
    (t : Task) → is_dispatched t.status ≡ true → Advances t (record t { status = running })
running-Advances t h = ground arith

unreachable-Advances :
    (t : Task) → is_dispatched t.status ≡ true → Advances t (record t { status = node_unreachable })
unreachable-Advances t h = ground arith

and_right : (a b : Bool) → (a && b) ≡ true → b ≡ true
and_right a b h = ground arith

pub dispatch_rows-Grows :
    (now : ℕ) (id : String) (ts : List Task) → TasksGrow ts (dispatch_rows now id ts)
unfolding dispatch_rows
dispatch_rows-Grows now id =
    update_rows-Grow (λ t. has_id id t && is_queued t.status)
      (λ t. record t { status = dispatched; started_at = some now }) (λ x. refl)
      (λ x h. dispatched-Advances now x (and_right _ _ h))

pub running_rows-Grows :
    (id : String) (ts : List Task)
    → TasksGrow ts (
        update_rows
          (λ t. has_id id t && is_dispatched t.status)
          (λ t. record t { status = running })
          ts)
running_rows-Grows id =
    update_rows-Grow _ _ (λ x. refl) (λ x h. running-Advances x (and_right _ _ h))

pub fail_unreachable-Grows :
    (ids : List String) (ts : List Task) → TasksGrow ts (fail_unreachable ids ts)
unfolding fail_unreachable
fail_unreachable-Grows [] ts = TasksGrow-refl ts
fail_unreachable-Grows (id ∷ ids) ts =
    TasksGrow-trans ts _ _
      (update_rows-Grow (λ t. has_id id t && is_dispatched t.status)
        (λ t. record t { status = node_unreachable }) (λ x. refl)
        (λ x h. unreachable-Advances x (and_right _ _ h)) ts)
      (fail_unreachable-Grows ids _)

-- UpdateTask after a read of the row: only that row changes.
pub update_task-Grows :
    (ts : List Task) (old new : Task)
    → find_row (has_id new.id) ts ≡ some old
    → Advances old (write_task new old)
    → TasksGrow ts (update_rows (has_id new.id) (write_task new) ts)
update_task-Grows ts old new =
    Grows-update_row task_key Advances Advances-refl Advances-trans new.id (write_task new) ts old
      (λ t. refl)

-- A new row stands behind those that are there.
pub append-Grows :
    (ts : List Task) (t : Task) → find_row (has_id t.id) ts ≡ none → TasksGrow ts (ts ++ t ∷ [])
append-Grows = Grows-append task_key Advances Advances-refl Advances-trans
