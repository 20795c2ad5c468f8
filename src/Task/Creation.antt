-- ===== src/Task/Creation.antt =====
-- What CreateTask checks before it queues a task, and what a repeated request gets.
use text.Mathlib.Text.{starts_with}
use server_cli.Common.{
  ◌<◌, ℤ, pos_part, String, str_eq, str_eq_refl, find_row-append_new, is_some, is_some-none, [],
  ◌∷◌, ◌++◌, Bool, true, false, not, ◌||◌, ◌≡◌, refl, ◌⊎◌, inl, inr, none, some, Bool-cases,
  Option-cases, arith, Error, not_found, bad_request, offline, disabled, schema_invalid, constraint,
  ok_inj, subst, if◌then◌else◌, Result, ok, err,
}
use server_cli.Task.Model.{
  queued, Task, Node, NodeCommand, Db, Env, ArgumentCheck, accepted, rejected, invalid, External,
}
use server_cli.Task.Store.{
  node_command_by_id, task_by_id, has_id, has_key, task_by_idempotency, insert_task,
}
use server_cli.Task.Service.{
  CreateTaskInput, node_by_id, is_unreachable, argument_check, new_task, queue_task,
  create_new_task, create_task, effective_timeout, record_task_parameter_usage,
}

check_cases : (c : ArgumentCheck) → (c ≡ accepted) ⊎ (c ≡ rejected) ⊎ (c ≡ invalid)
check_cases accepted = inl refl
check_cases rejected = inr (inl refl)
check_cases invalid = inr (inr refl)

-- The request passes every guard of CreateTask, and becomes the task `new_task`.
pub record Passes {Args : Type 0} (ext : External Args) (db : Db) (node_id : String)
    (inp : CreateTaskInput Args) (node : Node) (cmd : NodeCommand) (json : String) : Type 0 where
  pub node_known : node_by_id db node_id ≡ some node
  pub node_reachable : (not node.enabled || is_unreachable node.status) ≡ false
  pub command_known : node_command_by_id db node_id inp.command_id inp.command_version ≡ some cmd
  pub command_enabled : cmd.enabled ≡ true
  pub arguments_accepted : argument_check ext cmd inp.arguments ≡ accepted
  pub arguments_written : ext.marshal inp.arguments ≡ some json

tasks-usage :
    {Args : Type 0} (ext : External Args) (db : Db) (env : Env) (t : Task) (skip : Bool)
    → (if skip then db else record_task_parameter_usage ext db env t).tasks ≡ db.tasks
unfolding record_task_parameter_usage
tasks-usage ext db env t skip = ground arith

module _ {Args : Type 0} (ext : External Args) (db : Db) (env : Env) where
  -- Either the request is refused and nothing changes, or it passes and its task is queued.
  pub create_new_task_cases {ℓ} :
      (P : Db × Result Task → Type ℓ) (node_id by actor key : String) (inp : CreateTaskInput Args)
      → ((e : Error) → P (db, err e))
      → ((node : Node) (cmd : NodeCommand) (json : String)
          → Passes ext db node_id inp node cmd json
          → P (queue_task ext db env actor (new_task env node_id by key inp cmd json)))
      → P (create_new_task ext db env node_id by actor key inp)
  unfolding create_new_task
  create_new_task_cases P node_id by actor key inp refuse made =
      elim (Option-cases (node_by_id db node_id)) [
        | inl e ↦ rw (e, create_new_task) (refuse not_found)
        | inr (n, en) ↦
            rw (en, create_new_task)
              (elim (Bool-cases (not n.enabled || is_unreachable n.status)) [
                | inl b ↦ rw b (refuse offline)
                | inr bn ↦
                    rw bn
                      (elim (Option-cases
                        (node_command_by_id db node_id inp.command_id inp.command_version)) [
                          | inl e ↦ rw e (refuse not_found)
                          | inr (cmd, ec) ↦ rw ec (elim (Bool-cases cmd.enabled) [
                            | inl on ↦
                                simp on (elim (check_cases (argument_check ext cmd inp.arguments)) [
                                  | inl ok_args ↦
                                      rw ok_args (elim (Option-cases (ext.marshal inp.arguments)) [
                                        | inl e ↦ rw e (refuse bad_request)
                                        | inr (json, ej) ↦ rw ej (
                                            made n cmd json (record {
                                              node_known = en;
                                              node_reachable = bn;
                                              command_known = ec;
                                              command_enabled = on;
                                              arguments_accepted = ok_args;
                                              arguments_written = ej;
                                            }))
                                      ])
                                  | inr (inl e) ↦ rw e (refuse bad_request)
                                  | inr (inr e) ↦ rw e (refuse schema_invalid)
                                ])
                            | inr off ↦ simp off (refuse disabled)
                          ])
                        ])
              ])
      ]

  -- The row that the INSERT stores.
  abbrev pub stored_row : Task → Task
  stored_row t = record t { status = queued; queued_at = env.now }

  -- Either the INSERT meets a taken key and nothing changes, or the task is the table's last row.
  pub queue_task_cases {ℓ} :
      (P : Db × Result Task → Type ℓ) (actor : String) (t : Task)
      → ((e : Error) → P (db, err e))
      → ((db' : Db)
          → db'.tasks ≡ db.tasks ++ stored_row t ∷ []
          → task_by_id db t.id ≡ none
          → task_by_idempotency db t.requested_by t.idempotency_key ≡ none
          → P (db', ok (stored_row t)))
      → P (queue_task ext db env actor t)
  unfolding queue_task insert_task
  queue_task_cases P actor t refuse made =
      elim (Bool-cases (
        is_some (task_by_id db t.id)
        || is_some (task_by_idempotency db t.requested_by t.idempotency_key))) [
          | inl taken ↦ rw (taken, queue_task) (refuse constraint)
          | inr free ↦
              rw (free, queue_task)
                (made _ (tasks-usage ext _ env t (starts_with t.command_id "deployment."))
                  (is_some-none (task_by_id db t.id) (ground arith))
                  (is_some-none (task_by_idempotency db t.requested_by t.idempotency_key)
                    (ground arith)))
        ]

-- The number of seconds that a task gets is positive.
pub effective_timeout_pos : (asked default : ℤ) → 0 < pos_part (effective_timeout asked default)
unfolding effective_timeout
effective_timeout_pos asked default = ground arith

-- The row holds what was asked for: the node, the requester and the key, the command and its
-- arguments as they were written, the time limit of the request or else that of the command.
pub record AsRequested {Args : Type 0} (env : Env) (node_id by key : String)
    (inp : CreateTaskInput Args) (cmd : NodeCommand) (json : String) (t : Task) : Type 0 where
  pub new_id : t.id ≡ env.new_id 0
  pub on_node : t.node_id ≡ node_id
  pub for_requester : t.requested_by ≡ by
  pub under_key : t.idempotency_key ≡ key
  pub same_command : t.command_id ≡ inp.command_id
  pub same_version : t.command_version ≡ inp.command_version
  pub same_arguments : t.arguments_json ≡ json
  pub limit : t.timeout_seconds ≡ effective_timeout inp.timeout_seconds cmd.timeout_seconds
  pub limit_positive : 0 < pos_part t.timeout_seconds
  pub waits : t.status ≡ queued
  pub since : t.queued_at ≡ env.now
  pub not_started : t.started_at ≡ none
  pub not_finished : t.finished_at ≡ none

module _ {Args : Type 0} (ext : External Args) (db : Db) (env : Env) where
  -- What a call of CreateTask that returns a task has done: it answers with the earlier task of
  -- the same key, and changes nothing; or the request names a command and passes every check, and
  -- the new task stands in the table as it was asked for, under its identifier and under its key.
  abbrev pub CreateOutcome : String → String → String → CreateTaskInput Args → Task → Db → Type 0
  CreateOutcome node_id by key inp t db' =
      ((task_by_idempotency db by key ≡ some t) × (db' ≡ db))
      ⊎ ((node : Node) × (cmd : NodeCommand) × (json : String) × Passes ext db node_id inp node cmd
            json
          × (task_by_id db t.id ≡ none)
          × (task_by_id db' t.id ≡ some t)
          × (task_by_idempotency db' by key ≡ some t)
          × ((str_eq inp.command_id "" || str_eq inp.command_version "") ≡ false)
          × AsRequested env node_id by key inp cmd json t)

  abbrev Creates : String → String → String → CreateTaskInput Args → Db × Result Task → Type 0
  Creates node_id by key inp r = (t : Task) → r.1 ≡ ok t → CreateOutcome node_id by key inp t r.0

  queue_task-Creates :
      (node_id by actor key : String) (inp : CreateTaskInput Args) (node : Node) (cmd : NodeCommand)
      (json : String)
      → (str_eq inp.command_id "" || str_eq inp.command_version "") ≡ false
      → Passes ext db node_id inp node cmd json
      → Creates node_id by key inp
          (queue_task ext db env actor (new_task env node_id by key inp cmd json))
  unfolding task_by_id task_by_idempotency
  queue_task-Creates node_id by actor key inp node cmd json named passes =
      queue_task_cases ext db env (Creates node_id by key inp) actor
        (new_task env node_id by key inp cmd json) (λ e t h. ground arith)
        (λ db' rows new_id new_key t h.
          subst (λ u. CreateOutcome node_id by key inp u db') (ok_inj h)
            (inr (
              node,
              cmd,
              json,
              passes,
              new_id,
              rw rows (
                  find_row-append_new (has_id (env.new_id 0)) db.tasks _ new_id
                    (str_eq_refl (env.new_id 0))),
              rw rows (
                  find_row-append_new (has_key by key) db.tasks _ new_key
                    (rw (str_eq_refl by, str_eq_refl key) refl)),
              named,
              record {
                new_id = refl;
                on_node = refl;
                for_requester = refl;
                under_key = refl;
                same_command = refl;
                same_version = refl;
                same_arguments = refl;
                limit = refl;
                limit_positive = effective_timeout_pos inp.timeout_seconds cmd.timeout_seconds;
                waits = refl;
                since = refl;
                not_started = refl;
                not_finished = refl;
              },
            )))

  create_new_task-Creates :
      (node_id by actor key : String) (inp : CreateTaskInput Args)
      → (str_eq inp.command_id "" || str_eq inp.command_version "") ≡ false
      → Creates node_id by key inp (create_new_task ext db env node_id by actor key inp)
  create_new_task-Creates node_id by actor key inp named =
      create_new_task_cases ext db env (Creates node_id by key inp) node_id by actor key inp
        (λ e t h. ground arith)
        (λ node cmd json. queue_task-Creates node_id by actor key inp node cmd json named)

  -- CreateTask refuses an unnamed command, answers a known key with its task, or creates a task.
  pub create_task_cases {ℓ} :
      (P : Db × Result Task → Type ℓ) (node_id by actor key : String) (inp : CreateTaskInput Args)
      → P (db, err bad_request)
      → ((old : Task) → task_by_idempotency db by key ≡ some old → P (db, ok old))
      → ((str_eq inp.command_id "" || str_eq inp.command_version "") ≡ false
          → P (create_new_task ext db env node_id by actor key inp))
      → P (create_task ext db env node_id by actor key inp)
  unfolding create_task
  create_task_cases P node_id by actor key inp refuse replay made =
      elim (Bool-cases (str_eq inp.command_id "" || str_eq inp.command_version "")) [
        | inl e ↦ rw (e, create_task) refuse
        | inr named ↦
            rw (named, create_task)
              (elim (Bool-cases (str_eq key "")) [
                | inl e ↦ rw e (made named)
                | inr keyed ↦ rw keyed (elim (Option-cases (task_by_idempotency db by key)) [
                  | inl e ↦ rw e (made named)
                  | inr (old, e) ↦ rw e (replay old e)
                ])
              ])
      ]

  -- A task that CreateTask returns is the earlier task of the same requester and key, and then
  -- nothing changes; or its request passed every check (it names a command and a version, the node
  -- is known, enabled and reachable, the command is registered on it and enabled, the arguments are
  -- accepted), and the task stands in the table under an identifier that was free and under its key:
  -- queued now, for the node, the requester, the command and the arguments of the request, with a
  -- positive time limit.
  pub create_task_outcome :
      (node_id by actor key : String) (inp : CreateTaskInput Args) (t : Task)
      → (create_task ext db env node_id by actor key inp).1 ≡ ok t
      → CreateOutcome node_id by key inp t (create_task ext db env node_id by actor key inp).0
  create_task_outcome node_id by actor key inp =
      create_task_cases (Creates node_id by key inp) node_id by actor key inp (λ t h. ground arith)
        (λ old e t h. inl (subst (λ u. task_by_idempotency db by key ≡ some u) (ok_inj h) e, refl))
        (create_new_task-Creates node_id by actor key inp)

module _ {Args : Type 0} (ext : External Args) where
  create_task_replay :
      (db : Db) (env : Env) (node_id by actor key : String) (inp : CreateTaskInput Args) (t : Task)
      → str_eq key "" ≡ false
      → (str_eq inp.command_id "" || str_eq inp.command_version "") ≡ false
      → task_by_idempotency db by key ≡ some t
      → create_task ext db env node_id by actor key inp ≡ (db, ok t)
  unfolding create_task
  create_task_replay db env node_id by actor key inp t keyed named e =
      rw (named, create_task) (rw (keyed, e) refl)

  -- A request that the same requester repeats under the same non-empty key, with any other content
  -- that names a command and a version, gets the task of the first request, and nothing more changes.
  pub create_task_idempotent :
      (db : Db) (env env' : Env) (node_id node_id' by actor actor' key : String)
      (inp inp' : CreateTaskInput Args) (t : Task)
      → (create_task ext db env node_id by actor key inp).1 ≡ ok t
      → str_eq key "" ≡ false
      → (str_eq inp'.command_id "" || str_eq inp'.command_version "") ≡ false
      → let db' = (create_task ext db env node_id by actor key inp).0 in
        create_task ext db' env' node_id' by actor' key inp' ≡ (db', ok t)
  create_task_idempotent db env env' node_id node_id' by actor actor' key inp inp' t h keyed named =
      create_task_replay _ env' node_id' by actor' key inp' t keyed named
        (elim (create_task_outcome ext db env node_id by actor key inp t h) [
          | inl (old, same) ↦ rw same old
          | inr made ↦ made.6
        ])
