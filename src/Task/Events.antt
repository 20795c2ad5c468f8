-- ===== src/Task/Events.antt =====
-- The event rows of a task: their sequence numbers, and which events are kept
-- (AppendTaskEventDedup of backend/internal/store/task.go and its callers).
use server_cli.Common.{
  ℕ, ◌-◌, ◌≤◌, ◌<◌, ◌^◌, ℤ, pos, pos_part, neg_part, nonpos, ltb_ℤ, ◌≤ℤ◌, ◌<ℤ◌, add_int64,
  add_int64_in_range, String, str_eq, str_eq_iff, str_eq_refl, Bool, true, false, not, ◌&&◌, ◌≡◌,
  refl, ap, subst, ◌∙◌, inl, inr, some, List, [], ◌∷◌, ◌++◌, find_row, find_row_holds,
  find_row-append_new, select_rows, is_some, All, if◌then◌else◌, Bool-cases, Option-cases, arith,
  ok,
}
use server_cli.Task.Model.{is_terminal, Task, TaskEvent, Db, Env, External}
use server_cli.Task.Store.{
  has_id, task_by_id, update_task, create_task_output, update_task_output, append_task_event_dedup,
  same_slot, max_sequence, sequences_of, task_event_max_sequence, mark_task_running,
}
use server_cli.Task.Service.{
  cancel_task, cancel_event, cancel_task_cases, cancel_found, cancelled_at,
}
use server_cli.Task.Agent.{
  EventInput, ResultInput, EventKind, begun, ended, progress_made, unlisted, event_kind,
  apply_event, event_row, take_event, record_event, record_event_own, event_sequence, record_result,
  record_result_cases, settle, save_output, finish, result_event,
}

-- Every sequence number in the list is at most `m`.
abbrev pub UpTo : ℤ → List ℤ → Type 0
UpTo m = All (λ x. x ≤ℤ m)

UpTo-mono : (m n : ℤ) (xs : List ℤ) → m ≤ℤ n → UpTo m xs → UpTo n xs
UpTo-mono m n [] h u = tt
UpTo-mono m n (x ∷ xs) h u = (omega (arith, u.0), UpTo-mono m n xs h u.1)

max_sequence-one : (x : ℤ) → x ≤ℤ max_sequence (x ∷ [])
unfolding max_sequence
max_sequence-one x = omega arith

max_sequence-more :
    (x y : ℤ) (xs : List ℤ)
    → (x ≤ℤ max_sequence (x ∷ y ∷ xs)) × (max_sequence (y ∷ xs) ≤ℤ max_sequence (x ∷ y ∷ xs))
unfolding max_sequence
max_sequence-more x y xs = ground arith

max_sequence-UpTo : (xs : List ℤ) → UpTo (max_sequence xs) xs
max_sequence-UpTo [] = tt
max_sequence-UpTo (x ∷ []) = (max_sequence-one x, tt)
max_sequence-UpTo (x ∷ y ∷ xs) =
    let (here, rest) = max_sequence-more x y xs in
    (
      here,
      UpTo-mono (max_sequence (y ∷ xs)) (max_sequence (x ∷ y ∷ xs)) (y ∷ xs) rest
          (max_sequence-UpTo (y ∷ xs)),
    )

-- Every sequence number is below `m`.
abbrev pub Under : ℤ → List ℤ → Type 0
Under m = All (λ x. x <ℤ m)

UpTo-Under : (m n : ℤ) (xs : List ℤ) → m <ℤ n → UpTo m xs → Under n xs
UpTo-Under m n [] h u = tt
UpTo-Under m n (x ∷ xs) h u = (omega (arith, u.0), UpTo-Under m n xs h u.1)

-- The largest number of the task leaves room for one more 64-bit integer.
abbrev pub HasRoom : Db → String → Type 0
HasRoom db id =
    (pos_part (task_event_max_sequence db id) < 2 ^ 63 - 1)
    × (neg_part (task_event_max_sequence db id) ≤ 2 ^ 63)

next_above : (m : ℤ) → pos_part m < 2 ^ 63 - 1 → neg_part m ≤ 2 ^ 63 → m <ℤ add_int64 m (pos 1)
next_above m h k = rw (add_int64_in_range m (pos 1) (omega arith) (omega arith)) (ground arith)

-- An event with no number of its own gets one above those of all events of its task.
event_sequence_above :
    (db : Db) (id : String) (asked : ℤ)
    → nonpos asked ≡ true
    → HasRoom db id
    → Under (event_sequence db id asked) (sequences_of id db.events)
unfolding event_sequence task_event_max_sequence
event_sequence_above db id asked unnumbered room =
    let xs = sequences_of id db.events in
    rw unnumbered (
      UpTo-Under (max_sequence xs) (add_int64 (max_sequence xs) (pos 1)) xs
        (next_above (max_sequence xs) room.0 room.1) (max_sequence-UpTo xs))

sequences_of-own :
    (id : String) (f : TaskEvent) (es : List TaskEvent)
    → str_eq f.task_id id ≡ true
    → sequences_of id (f ∷ es) ≡ f.sequence ∷ sequences_of id es
unfolding sequences_of select_rows
sequences_of-own id f es h = rw h refl

sequences_of-other :
    (id : String) (f : TaskEvent) (es : List TaskEvent)
    → str_eq f.task_id id ≡ false
    → sequences_of id (f ∷ es) ≡ sequences_of id es
unfolding sequences_of select_rows
sequences_of-other id f es h = rw h refl

Under-free :
    (e : TaskEvent) (es : List TaskEvent)
    → Under e.sequence (sequences_of e.task_id es)
    → is_some (find_row (same_slot e) es) ≡ false
unfolding find_row
Under-free e [] u = refl
Under-free e (f ∷ es) u = elim (Bool-cases (str_eq f.task_id e.task_id)) [
  | inl own ↦
      let below : Under e.sequence (f.sequence ∷ sequences_of e.task_id es) =
        subst (Under e.sequence) (sequences_of-own e.task_id f es own) u in
      ground (arith, own, below.0, Under-free e es below.1)
  | inr other ↦
      rw other
        (Under-free e es (subst (Under e.sequence) (sequences_of-other e.task_id f es other) u))
]

events-update_task : (db : Db) (t : Task) → (update_task db t).events ≡ db.events
unfolding update_task
events-update_task db t = refl

events-apply_event :
    (db : Db) (env : Env) (t : Task) (k : EventKind) → (apply_event db env t k).0.events ≡ db.events
unfolding apply_event update_task mark_task_running
events-apply_event db env t begun = ground arith
events-apply_event db env t (ended s) = ground arith
events-apply_event db env t progress_made = refl
events-apply_event db env t unlisted = refl

append_event_free :
    (db : Db) (now : ℕ) (e : TaskEvent)
    → is_some (find_row (same_slot e) db.events) ≡ false
    → (append_task_event_dedup db now e).events ≡ db.events ++ record e { occurred_at = now } ∷ []
unfolding append_task_event_dedup
append_event_free db now e h = rw h refl

append_event_taken :
    (db : Db) (now : ℕ) (e : TaskEvent)
    → is_some (find_row (same_slot e) db.events) ≡ true
    → append_task_event_dedup db now e ≡ db
unfolding append_task_event_dedup
append_event_taken db now e h = rw h refl

same_slot_self : (e : TaskEvent) (now : ℕ) → same_slot e (record e { occurred_at = now }) ≡ true
same_slot_self e now = ground (arith, str_eq_refl e.task_id)

slot_taken :
    (db : Db) (now : ℕ) (e : TaskEvent)
    → is_some (find_row (same_slot e) (append_task_event_dedup db now e).events) ≡ true
unfolding append_task_event_dedup
slot_taken db now e = elim (Option-cases (find_row (same_slot e) db.events)) [
  | inl free ↦
      rw (free, append_task_event_dedup)
        (rw
          (find_row-append_new (same_slot e) db.events (record e { occurred_at = now }) free
            (same_slot_self e now))
          refl)
  | inr (f, taken) ↦ rw (taken, append_task_event_dedup) (rw taken refl)
]

-- The slot of the control plane's own events about a task: the number 0.
abbrev pub unnumbered_slot : String → TaskEvent → Bool
unnumbered_slot id f =
    str_eq f.task_id id && (not (ltb_ℤ (pos 0) f.sequence) && not (ltb_ℤ f.sequence (pos 0)))

cancel_takes_slot :
    (db : Db) (env : Env) (scope id actor who : String) (t : Task)
    → (cancel_task db env scope id actor who).1 ≡ ok t
    → is_some (find_row (unnumbered_slot id) (cancel_task db env scope id actor who).0.events)
      ≡ true
unfolding cancel_found task_by_id
cancel_takes_slot db env scope id actor who =
    cancel_task_cases
      (λ r. (t : Task) → r.1 ≡ ok t → is_some (find_row (unnumbered_slot id) r.0.events) ≡ true) db
      env scope id actor who (λ e t h. absurd (ground arith))
      (λ u e inside live t h.
        subst
          (λ k.
            is_some (
              find_row (unnumbered_slot k)
                (append_task_event_dedup (update_task db (cancelled_at env u)) env.now
                  (cancel_event (cancelled_at env u))).events)
            ≡ true)
          ((str_eq_iff u.id id).0 (find_row_holds (has_id id) db.tasks u e))
          (slot_taken (update_task db (cancelled_at env u)) env.now
            (cancel_event (cancelled_at env u))))

module _ {Args : Type 0} (ext : External Args) where
  take_event-events :
      (db : Db) (env : Env) (id : String) (inp : EventInput) (t : Task)
      → nonpos inp.sequence ≡ true
      → HasRoom db id
      → (take_event ext db env id t inp).events
        ≡ db.events
          ++ record (event_row ext db env id inp
              (apply_event db env t (event_kind inp.event_type)).1) { occurred_at = env.now }
            ∷ []
  unfolding take_event
  take_event-events db env id inp t unnumbered room =
      let k = event_kind inp.event_type in
      let row = event_row ext db env id inp (apply_event db env t k).1 in
      let same = events-apply_event db env t k in
      append_event_free (apply_event db env t k).0 env.now row (
        rw same
          (Under-free row db.events (event_sequence_above db id inp.sequence unnumbered room)))
      ∙ ap (λ es. es ++ record row { occurred_at = env.now } ∷ []) same

  -- Where the largest number of the events of a task is below 2^63 - 1, an event that an agent
  -- reports for that task of its node without a number of its own is not dropped: it is stored
  -- behind all others, redacted, at the time of the call, under a number above those of all other
  -- events of the task.
  pub unnumbered_event_kept :
      (db : Db) (env : Env) (node id : String) (inp : EventInput) (t : Task)
      → task_by_id db id ≡ some t
      → t.node_id ≡ node
      → nonpos inp.sequence ≡ true
      → HasRoom db id
      → (e : TaskEvent) × ((record_event ext db env node id inp).0.events ≡ db.events ++ e ∷ [])
        × (e.task_id ≡ id)
        × (e.message ≡ ext.redact inp.message)
        × (e.occurred_at ≡ env.now)
        × Under e.sequence (sequences_of id db.events)
  unnumbered_event_kept db env node id inp t found mine unnumbered room = (
    record (event_row ext db env id inp (apply_event db env t (event_kind inp.event_type)).1) {
      occurred_at = env.now;
    },
    rw (record_event_own ext db env node id inp t found mine)
        (take_event-events db env id inp t unnumbered room),
    refl,
    refl,
    refl,
    event_sequence_above db id inp.sequence unnumbered room,
  )

  events-save_output :
      (db : Db) (id : String) (inp : ResultInput) → (save_output ext db id inp).events ≡ db.events
  unfolding save_output create_task_output update_task_output
  events-save_output db id inp = ground arith

  settle_slot_taken :
      (db : Db) (env : Env) (node id : String) (t : Task) (inp : ResultInput)
      → is_some (find_row (unnumbered_slot id) db.events) ≡ true
      → (settle ext db env node id t inp).events ≡ db.events
  unfolding settle
  settle_slot_taken db env node id t inp taken =
      let changed : Db =
        if is_terminal t.status then db else update_task db (finish ext env t inp) in
      let saved = save_output ext changed id inp in
      let same : saved.events ≡ db.events =
        events-save_output changed id inp ∙ kept (is_terminal t.status) in
      ap (λ (d : Db). d.events)
        (append_event_taken saved env.now
          (record (result_event (finish ext env t inp)) { task_id = id }) (rw same taken))
      ∙ same
    where
      kept :
          (b : Bool) → (if b then db else update_task db (finish ext env t inp)).events ≡ db.events
      kept true = refl
      kept false = events-update_task db (finish ext env t inp)

  -- Once a task has been cancelled, the final result that its agent reports leaves no event row:
  -- the rows of the cancellation and of the result are both written under the number 0.
  pub cancel_hides_result :
      (db : Db) (env env' : Env) (scope id actor who node : String) (inp : ResultInput) (t : Task)
      → (cancel_task db env scope id actor who).1 ≡ ok t
      → let db' = (cancel_task db env scope id actor who).0 in
        (record_result ext db' env' node id inp).0.events ≡ db'.events
  cancel_hides_result db env env' scope id actor who node inp t h =
      let db' = (cancel_task db env scope id actor who).0 in
      record_result_cases ext (λ r. r.0.events ≡ db'.events) db' env' node id inp refl
        (λ u e mine.
          settle_slot_taken db' env' node id u inp
            (cancel_takes_slot db env scope id actor who t h))
