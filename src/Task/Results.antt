-- ===== src/Task/Results.antt =====
-- The final result that an agent reports (RecordResult of backend/internal/service/task.go).

use server_cli.Task.Lifecycle.{tasks-append_event, tasks-save_output}
use server_cli.Common.{
  ℕ, ap, some_inj, String, str_eq_iff, str_eq_refl, true, ◌≡◌, refl, sym, ◌∙◌, subst, inl, inr,
  some, find_row, find_row_holds, find_row-append_new, find_row-update_rows_self, ◌+◌, Bool-cases,
  Option-cases, arith, ok, ok_inj,
}
use server_cli.Task.Model.{is_terminal, Task, TaskEvent, TaskOutput, Db, Env, External}
use server_cli.Task.Store.{
  has_id, write_task, task_by_id, update_task, append_task_event_dedup, task_output, output_of,
  create_task_output, update_task_output,
}
use server_cli.Task.Agent.{
  ResultInput, result_status, finish, redacted_output, save_output, settle, record_result,
  record_result_cases,
}

outputs-append_event :
    (db : Db) (now : ℕ) (e : TaskEvent) → (append_task_event_dedup db now e).outputs ≡ db.outputs
unfolding append_task_event_dedup
outputs-append_event db now e = ground arith

-- UpdateTask on the row that TaskByID found leaves it there, rewritten.
pub update_task_row :
    (db : Db) (id : String) (old new : Task)
    → task_by_id db id ≡ some old
    → new.id ≡ old.id
    → task_by_id (update_task db new) id ≡ some (write_task new old)
unfolding task_by_id update_task
update_task_row db id old new e same =
    rw (same ∙ (str_eq_iff old.id id).0 (find_row_holds (has_id id) db.tasks old e))
      (find_row-update_rows_self (has_id id) (write_task new) db.tasks old (λ y. refl) e)

module _ {Args : Type 0} (ext : External Args) where
  finish-is_terminal :
      (env : Env) (t : Task) (inp : ResultInput) → is_terminal (finish ext env t inp).status ≡ true
  unfolding finish result_status
  finish-is_terminal env t inp = ground arith

  write-finish :
      (env : Env) (t : Task) (inp : ResultInput)
      → write_task (finish ext env t inp) t ≡ finish ext env t inp
  unfolding finish
  write-finish env t inp = ground arith

  finish_id : (env : Env) (t : Task) (inp : ResultInput) → (finish ext env t inp).id ≡ t.id
  unfolding finish
  finish_id env t inp = ground arith

  finish_over :
      (env : Env) (t : Task) (inp : ResultInput)
      → is_terminal t.status ≡ true
      → finish ext env t inp ≡ t
  unfolding finish
  finish_over env t inp h = ground arith

  -- The output row that is found afterwards holds the redacted texts.
  save_output_row :
      (db : Db) (id : String) (inp : ResultInput)
      → (o : TaskOutput) × (task_output (save_output ext db id inp) id ≡ some o)
        × (o.stdout_text ≡ ext.redact inp.stdout_text)
        × (o.stderr_text ≡ ext.redact inp.stderr_text)
        × (o.truncated ≡ inp.truncated)
  unfolding save_output task_output create_task_output update_task_output
  save_output_row db id inp = elim (Option-cases (find_row (output_of id) db.outputs)) [
    | inl e ↦
        rw (e, save_output)
          (
            redacted_output ext id inp,
            find_row-append_new (output_of id) db.outputs _ e (str_eq_refl id),
            refl,
            refl,
            refl,
          )
    | inr (o, e) ↦
        rw (e, save_output)
          (
            record o {
              stdout_text = ext.redact inp.stdout_text;
              stderr_text = ext.redact inp.stderr_text;
              stdout_bytes = ext.byte_length (ext.redact inp.stdout_text);
              stderr_bytes = ext.byte_length (ext.redact inp.stderr_text);
              truncated = inp.truncated;
              redaction_count = ext.redactions inp.stdout_text + ext.redactions inp.stderr_text;
            },
            find_row-update_rows_self (output_of id) _ db.outputs o (λ y. refl) e,
            refl,
            refl,
            refl,
          )
  ]

  -- The row of the task once it is settled.
  settle_row :
      (db : Db) (env : Env) (node id : String) (t : Task) (inp : ResultInput)
      → task_by_id db id ≡ some t
      → task_by_id (settle ext db env node id t inp) id ≡ some (finish ext env t inp)
  unfolding settle task_by_id
  settle_row db env node id t inp e =
      rw (tasks-append_event _ env.now _, tasks-save_output ext _ id inp)
        (elim (Bool-cases (is_terminal t.status)) [
          | inl over ↦ rw (over, finish_over env t inp over) e
          | inr live ↦ rw live (
              update_task_row db id t (finish ext env t inp) e (finish_id env t inp)
              ∙ ap some (write-finish env t inp))
        ])

  settle_output :
      (db : Db) (env : Env) (node id : String) (t : Task) (inp : ResultInput)
      → (o : TaskOutput) × (task_output (settle ext db env node id t inp) id ≡ some o)
        × (o.stdout_text ≡ ext.redact inp.stdout_text)
        × (o.stderr_text ≡ ext.redact inp.stderr_text)
        × (o.truncated ≡ inp.truncated)
  unfolding settle task_output
  settle_output db env node id t inp =
      rw (outputs-append_event _ env.now _) (unfold task_output in save_output_row _ id inp)

  -- The task `t` has ended and its row is `t`; if it had ended before, it is as it was; and the
  -- redacted texts of the result are stored.
  abbrev pub Settled : Db → String → ResultInput → Db → Task → Type 0
  Settled db id inp db' t =
      (is_terminal t.status ≡ true)
      × (task_by_id db' id ≡ some t)
      × ((old : Task) → task_by_id db id ≡ some old → is_terminal old.status ≡ true → t ≡ old)
      × ((o : TaskOutput) × (task_output db' id ≡ some o)
          × (o.stdout_text ≡ ext.redact inp.stdout_text)
          × (o.stderr_text ≡ ext.redact inp.stderr_text)
          × (o.truncated ≡ inp.truncated))

  -- A result that RecordResult accepts leaves the task ended and returns it as its row then stands,
  -- and stores the redacted output; a task that had already ended is returned as it was.
  pub record_result_ends :
      (db : Db) (env : Env) (node id : String) (inp : ResultInput) (t : Task)
      → (record_result ext db env node id inp).1 ≡ ok t
      → Settled db id inp (record_result ext db env node id inp).0 t
  record_result_ends db env node id inp =
      record_result_cases ext (λ r. (t : Task) → r.1 ≡ ok t → Settled db id inp r.0 t) db env node
        id inp (λ t h. absurd (ground arith))
        (λ t e mine u h. subst (Settled db id inp (settle ext db env node id t inp)) (ok_inj h) (
          finish-is_terminal env t inp,
          settle_row db env node id t inp e,
          λ old f over.
              let same : t ≡ old = some_inj (sym e ∙ f) in
              finish_over env t inp (subst (λ x. is_terminal x.status ≡ true) (sym same) over)
              ∙ same,
          settle_output db env node id t inp,
        ))
