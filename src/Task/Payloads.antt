-- ===== src/Task/Payloads.antt =====
-- What PollTask hands to a node (backend/internal/service/task.go).
use server_cli.Common.{
  Unique, seconds, add_time, String, str_eq_iff, Bool, true, ◌&&◌, ◌≡◌, refl, subst, inl, inr,
  Option, none, some, some_inj, [], Option-cases, arith, unavailable, Result, ok, err, ok_inj,
}
use server_cli.Task.Model.{dispatched, Task, NodeCommand, Enrollment, Db, Env, Payload, External}
use server_cli.Task.Store.{
  task_key, is_waiting, next_waiting, dispatch_rows, task_by_id, node_command_by_id,
}
use server_cli.Task.Dispatch.{
  enrollment_of, credential_for_node, unsigned, signed_text, sign_payload, hand_out, poll_task,
}
use server_cli.Task.Claims.{claim-none, claim-some, dispatched_row, next_waiting_waits}

waiting_node : (node : String) (t : Task) → is_waiting node t ≡ true → t.node_id ≡ node
waiting_node node t h = (str_eq_iff t.node_id node).0 (and_left _ _ h)
  where
    and_left : (a b : Bool) → (a && b) ≡ true → a ≡ true
    and_left a b h = ground arith

module _ {Args : Type 0} (ext : External Args) where
  -- The claimed task that a payload carries to the node, and the credential that signs it.
  pub record Carries (db : Db) (node : String) (p : Payload) (t : Task) (cmd : NodeCommand)
      (e : Enrollment) : Type 0 where
    pub claimed : next_waiting node db.tasks ≡ some t
    pub own : t.node_id ≡ node
    pub enrolled : enrollment_of db node ≡ some e
    pub registered : node_command_by_id db t.node_id t.command_id t.command_version ≡ some cmd
    pub same_task : p.task_id ≡ t.id
    pub same_node : p.node_id ≡ t.node_id
    pub same_command : p.command_id ≡ t.command_id
    pub same_version : p.command_version ≡ t.command_version
    pub same_arguments : p.arguments ≡ t.arguments_json
    pub same_key : p.idempotency_key ≡ t.idempotency_key
    pub same_limit : p.timeout_seconds ≡ t.timeout_seconds
    pub output_limit : p.max_output_bytes ≡ cmd.max_output_bytes
    pub first_attempt : p.attempt ≡ 1
    pub created : p.created_at ≡ t.queued_at
    pub runnable_from : p.not_before ≡ t.queued_at
    pub same_deadline : p.deadline ≡ add_time t.queued_at (seconds t.timeout_seconds)
    pub hashed : p.payload_hash ≡ ext.payload_hash (record p { payload_hash = ""; signature = "" })
    pub signed :
        p.signature ≡ ext.hmac_hex (ext.credential e.id) (signed_text p.task_id p.payload_hash)

  poll-none :
      (db : Db) (env : Env) (node : String)
      → next_waiting node db.tasks ≡ none
      → poll_task ext db env node [] ≡ (db, ok none)
  unfolding poll_task
  poll-none db env node e =
      let idle = claim-none env.now node db.tasks e in rw (idle, poll_task) (rw idle refl)

  abbrev dispatched_db : Db → Env → Task → Db
  dispatched_db db env t = record db { tasks = dispatch_rows env.now t.id db.tasks }

  poll-some :
      (db : Db) (env : Env) (node : String) (t : Task)
      → next_waiting node db.tasks ≡ some t
      → poll_task ext db env node [] ≡ hand_out ext (dispatched_db db env t) env node t
  unfolding poll_task
  poll-some db env node t e =
      let taken = claim-some env.now node db.tasks t e in rw (taken, poll_task) (rw taken refl)

  signed-Carries :
      (db : Db) (node : String) (t : Task) (e : Enrollment) (cmd : NodeCommand)
      → next_waiting node db.tasks ≡ some t
      → enrollment_of db node ≡ some e
      → node_command_by_id db t.node_id t.command_id t.command_version ≡ some cmd
      → Carries db node (sign_payload ext (ext.credential e.id) (unsigned t cmd)) t cmd e
  unfolding sign_payload
  signed-Carries db node t e cmd claimed enrolled registered = record {
    claimed = claimed;
    own = waiting_node node t (next_waiting_waits node db.tasks t claimed);
    enrolled = enrolled;
    registered = registered;
    same_task = refl;
    same_node = refl;
    same_command = refl;
    same_version = refl;
    same_arguments = refl;
    same_key = refl;
    same_limit = refl;
    output_limit = refl;
    first_attempt = refl;
    created = refl;
    runnable_from = refl;
    same_deadline = refl;
    hashed = refl;
    signed = refl;
  }

  hand_out_cases {ℓ} :
      (P : Result (Option Payload) → Type ℓ) (db : Db) (env : Env) (node : String) (t : Task)
      → P (err unavailable)
      → ((e : Enrollment) (cmd : NodeCommand)
          → enrollment_of db node ≡ some e
          → node_command_by_id db t.node_id t.command_id t.command_version ≡ some cmd
          → P (ok (some (sign_payload ext (ext.credential e.id) (unsigned t cmd)))))
      → P (hand_out ext db env node t).1
  unfolding hand_out credential_for_node
  hand_out_cases P db env node t refuse accept = elim (Option-cases (enrollment_of db node)) [
    | inl f ↦ rw (f, hand_out) refuse
    | inr (e, f) ↦
        rw (f, hand_out)
          (elim (Option-cases (node_command_by_id db t.node_id t.command_id t.command_version)) [
            | inl g ↦ rw g refuse
            | inr (cmd, g) ↦ rw g (accept e cmd f g)
          ])
  ]

  -- What holds of the outcome of a poll that hands out a payload.
  abbrev Delivers : Db → String → Result (Option Payload) → Type 0
  Delivers db node r =
      (p : Payload)
      → r ≡ ok (some p)
      → (t : Task) × (cmd : NodeCommand) × (e : Enrollment) × Carries db node p t cmd e

  hand_out-Delivers :
      (db : Db) (env : Env) (node : String) (t : Task)
      → next_waiting node db.tasks ≡ some t
      → Delivers db node (hand_out ext (dispatched_db db env t) env node t).1
  unfolding node_command_by_id
  hand_out-Delivers db env node t claimed =
      hand_out_cases (Delivers db node) (dispatched_db db env t) env node t
        (λ p h. absurd (ground arith))
        (λ e cmd enrolled registered p h.
          subst (λ q. (t : Task) × (c : NodeCommand) × (e : Enrollment) × Carries db node q t c e)
            (some_inj (ok_inj h))
            (t, cmd, e, signed-Carries db node t e cmd claimed enrolled registered))

  -- A payload that a poll hands to a node, where no other poll interferes, carries the next waiting
  -- task of that node with its command, version, arguments, key and time limit as they are stored,
  -- the output limit of the registered command and the deadline that follows from the time limit,
  -- and is signed with the credential of the node's enrollment over the task's identifier and the
  -- hash of the payload.
  pub poll_delivers :
      (db : Db) (env : Env) (node : String) (p : Payload)
      → (poll_task ext db env node []).1 ≡ ok (some p)
      → (t : Task) × (cmd : NodeCommand) × (e : Enrollment) × Carries db node p t cmd e
  poll_delivers db env node = elim (Option-cases (next_waiting node db.tasks)) [
    | inl e ↦ rw (poll-none db env node e) (λ p h. absurd (ground arith))
    | inr (t, e) ↦ rw (poll-some db env node t e) (hand_out-Delivers db env node t e)
  ]

  hand_out-unenrolled :
      (db : Db) (env : Env) (node : String) (t : Task)
      → enrollment_of db node ≡ none
      → hand_out ext db env node t ≡ (db, err unavailable)
  unfolding hand_out credential_for_node
  hand_out-unenrolled db env node t e = rw (e, hand_out) refl

  -- A poll of a node without an enrollment for which a task waits is answered with an error, but the
  -- task that it claimed stays dispatched: it is not put back in the queue. No two tasks share an
  -- identifier, and no other poll interferes.
  pub poll_strands :
      (db : Db) (env : Env) (node : String) (t : Task)
      → Unique task_key db.tasks
      → next_waiting node db.tasks ≡ some t
      → enrollment_of db node ≡ none
      → ((poll_task ext db env node []).1 ≡ err unavailable)
        × (task_by_id (poll_task ext db env node []).0 t.id
            ≡ some (record t { status = dispatched; started_at = some env.now }))
  unfolding task_by_id
  poll_strands db env node t distinct claimed unenrolled =
      rw
        (
          poll-some db env node t claimed,
          hand_out-unenrolled (dispatched_db db env t) env node t unenrolled,
        )
        (refl, dispatched_row env.now node db.tasks t distinct claimed)
