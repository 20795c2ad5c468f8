-- ===== src/Task/Claims.antt =====
-- The claim of the next queued task (ClaimNextTask of backend/internal/store/task.go): which task
-- it takes, and what stays true when other connections interfere.
mod Oldest
pub use Oldest.*
use mathlib.Core.Option
use server_cli.Common.{
  Unique, Bool, ℕ, ◌≤◌, String, str_eq_iff, str_eq_refl, true, false, ◌&&◌, ◌≡◌, refl, ◌∙◌, subst,
  inl, inr, Option, none, some, List, [], ◌∷◌, find_row, find_row-update_rows, update_rows,
  Bool-cases, Option-cases, arith, All, is_some, some_inj, sym, stamp_before, second_of,
  stamp_before_irrefl, stamp_before_asym, stamp_before_trans, stamp_before_second,
}
use server_cli.Task.Model.{dispatched, Task}
use server_cli.Task.Store.{
  task_key, has_id, is_queued, is_waiting, is_dispatched, sorts_before, next_waiting, dispatch_rows,
  claims_row, claim_next_task,
}

-- The row that a claim takes waits for this node, and is the one that its identifier selects.
pub next_waiting_waits :
    (node : String) (ts : List Task) (t : Task)
    → next_waiting node ts ≡ some t
    → is_waiting node t ≡ true
unfolding next_waiting
next_waiting_waits node [] t h = ground arith
next_waiting_waits node (x ∷ ts) t h = ground (arith, next_waiting_waits node ts t)

pub next_waiting_found :
    (node : String) (ts : List Task) (t : Task)
    → Unique task_key ts
    → next_waiting node ts ≡ some t
    → find_row (has_id t.id) ts ≡ some t
unfolding next_waiting find_row
next_waiting_found node [] t d h = ground arith
next_waiting_found node (x ∷ ts) t d h =
    ground (arith, str_eq_iff x.id t.id, str_eq_refl t.id, next_waiting_found node ts t d.1, d.0)

next_waiting-claims_row :
    (node : String) (ts : List Task) (t : Task)
    → next_waiting node ts ≡ some t
    → claims_row t.id ts ≡ true
unfolding next_waiting claims_row find_row
next_waiting-claims_row node [] t h = ground arith
next_waiting-claims_row node (x ∷ ts) t h =
    ground (arith, str_eq_refl t.id, next_waiting-claims_row node ts t)

claims_row-dispatch_rows :
    (now : ℕ) (id : String) (ts : List Task) → claims_row id (dispatch_rows now id ts) ≡ false
unfolding claims_row dispatch_rows find_row update_rows
claims_row-dispatch_rows now id [] = refl
claims_row-dispatch_rows now id (x ∷ ts) = ground (arith, claims_row-dispatch_rows now id ts)

dispatch_rows-dispatched :
    (now : ℕ) (id : String) (ts : List Task)
    → claims_row id ts ≡ true
    → is_some (find_row (λ u. has_id id u && is_dispatched u.status) (dispatch_rows now id ts))
      ≡ true
unfolding claims_row dispatch_rows find_row update_rows
dispatch_rows-dispatched now id [] h = ground arith
dispatch_rows-dispatched now id (x ∷ ts) h = ground (arith, dispatch_rows-dispatched now id ts)

-- A claim has changed the queued rows under this identifier to dispatched, of which there was one,
-- and has written the time in them and nothing else; no queued row is left under the identifier.
pub record Taken (now : ℕ) (id : String) (after : List Task) : Type 0 where
  pub before : List Task
  pub was_queued : claims_row id before ≡ true
  pub written :
      after
      ≡ update_rows
          (λ u. has_id id u && is_queued u.status)
          (λ u. record u { status = dispatched; started_at = some now })
          before
  pub now_dispatched : is_some (find_row (λ u. has_id id u && is_dispatched u.status) after) ≡ true
  pub none_queued : claims_row id after ≡ false

-- What holds of the outcome of a claim that returns a task.
abbrev Claimed : ℕ → List Task × Option Task → Type 0
Claimed now r = (t : Task) → r.1 ≡ some t → Taken now t.id r.0

claimed :
    (now : ℕ) (u : Task) (us : List Task)
    → claims_row u.id us ≡ true
    → Claimed now (dispatch_rows now u.id us, some u)
unfolding dispatch_rows
claimed now u us c t h =
    subst (λ (x : Task). Taken now x.id (dispatch_rows now u.id us)) (some_inj h)
      (record {
        before = us;
        was_queued = c;
        written = refl;
        now_dispatched = dispatch_rows-dispatched now u.id us c;
        none_queued = claims_row-dispatch_rows now u.id us;
      })

claim_idle : (now : ℕ) (us : List Task) → Claimed now (us, none)
claim_idle now us t h = absurd (ground arith)

claim-Claimed :
    (now : ℕ) (node : String) (rounds : List (List Task → List Task)) (ts : List Task)
    → Claimed now (claim_next_task now node rounds ts)
unfolding claim_next_task
claim-Claimed now node [] ts = elim (Option-cases (next_waiting node ts)) [
  | inl e ↦ rw (e, claim_next_task) (claim_idle now ts)
  | inr (u, e) ↦ rw (e, claim_next_task) (claimed now u ts (next_waiting-claims_row node ts u e))
]
claim-Claimed now node (others ∷ rounds) ts = elim (Option-cases (next_waiting node ts)) [
  | inl e ↦ rw (e, claim_next_task) (claim_idle now ts)
  | inr (u, e) ↦
      rw (e, claim_next_task)
        (elim (Bool-cases (claims_row u.id (others ts))) [
          | inl won ↦ rw won (claimed now u (others ts) won)
          | inr lost ↦ rw lost (claim-Claimed now node rounds (others ts))
        ])
]

pub dispatched_row :
    (now : ℕ) (node : String) (ts : List Task) (t : Task)
    → Unique task_key ts
    → next_waiting node ts ≡ some t
    → find_row (has_id t.id) (dispatch_rows now t.id ts)
      ≡ some (record t { status = dispatched; started_at = some now })
unfolding dispatch_rows
dispatched_row now node ts t d e =
    find_row-update_rows (has_id t.id) (λ u. has_id t.id u && is_queued u.status)
      (λ u. record u { status = dispatched; started_at = some now }) ts (λ x. refl)
    ∙ rw (next_waiting_found node ts t d e, Option.map)
        (ground (arith, next_waiting_waits node ts t e, str_eq_refl t.id))

pub claim-none :
    (now : ℕ) (node : String) (ts : List Task)
    → next_waiting node ts ≡ none
    → claim_next_task now node [] ts ≡ (ts, none)
unfolding claim_next_task
claim-none now node ts e = rw (e, claim_next_task) refl

pub claim-some :
    (now : ℕ) (node : String) (ts : List Task) (t : Task)
    → next_waiting node ts ≡ some t
    → claim_next_task now node [] ts ≡ (dispatch_rows now t.id ts, some t)
unfolding claim_next_task
claim-some now node ts t e = rw (e, claim_next_task) refl

-- Where no two tasks share an identifier, an uncontested claim takes a task that waits for this node,
-- and none that waits for it has a stored time of queueing that sorts before, so that none was queued
-- in an earlier second. It leaves that task dispatched, under its identifier.
pub claim_takes_first :
    (now : ℕ) (node : String) (ts : List Task) (t : Task)
    → Unique task_key ts
    → (claim_next_task now node [] ts).1 ≡ some t
    → (is_waiting node t ≡ true)
      × IsOldest node t ts
      × (find_row (has_id t.id) (claim_next_task now node [] ts).0
          ≡ some (record t { status = dispatched; started_at = some now }))
unfolding claim_next_task
claim_takes_first now node ts t d h = (
  next_waiting_waits node ts t taken,
  next_waiting-IsOldest node ts t taken,
  rw (taken, claim_next_task) (dispatched_row now node ts t d taken),
)
  where
    taken : next_waiting node ts ≡ some t
    taken = ground arith

-- Does a claim return the task with this identifier?
abbrev pub picks : String → Option Task → Bool
picks id none = false
picks id (some u) = has_id id u

-- What other connections commit puts no task of this identifier in the queue.
abbrev pub Spares : String → List (List Task → List Task) → Type 0
Spares id rounds =
    All (λ others. (ts : List Task) → claims_row id ts ≡ false → claims_row id (others ts) ≡ false)
      rounds

unpicked :
    (id : String) (ts : List Task) (u : Task)
    → claims_row id ts ≡ false
    → claims_row u.id ts ≡ true
    → has_id id u ≡ false
unpicked id ts u none_queued taken = elim (Bool-cases (has_id id u)) [
  | inl same ↦
      let both : claims_row id ts ≡ true =
        subst (λ i. claims_row i ts ≡ true) ((str_eq_iff u.id id).0 same) taken in
      absurd (ground arith)
  | inr other ↦ other
]

-- A claim does not return a task that is not queued.
claim-picks :
    (id : String) (now : ℕ) (node : String) (rounds : List (List Task → List Task)) (ts : List Task)
    → Spares id rounds
    → claims_row id ts ≡ false
    → picks id (claim_next_task now node rounds ts).1 ≡ false
unfolding claim_next_task
claim-picks id now node [] ts spares h = elim (Option-cases (next_waiting node ts)) [
  | inl e ↦ rw (e, claim_next_task) refl
  | inr (u, e) ↦ rw (e, claim_next_task) (unpicked id ts u h (next_waiting-claims_row node ts u e))
]
claim-picks id now node (others ∷ rounds) ts spares h = elim (Option-cases (next_waiting node ts)) [
  | inl e ↦ rw (e, claim_next_task) refl
  | inr (u, e) ↦
      rw (e, claim_next_task)
        (elim (Bool-cases (claims_row u.id (others ts))) [
          | inl won ↦ rw won (unpicked id (others ts) u (spares.0 ts h) won)
          | inr lost ↦ rw lost (claim-picks id now node rounds (others ts) spares.1 (spares.0 ts h))
        ])
]

-- Whatever other connections commit in between, a claim that returns a task has itself changed its
-- row from queued to dispatched, and leaves no queued row under that identifier. A later claim, of
-- any node, does not return that task again, whatever others commit during it, as long as they do
-- not put the task back in the queue.
pub claim_exclusive :
    (now : ℕ) (node : String) (rounds : List (List Task → List Task)) (ts : List Task) (t : Task)
    → (claim_next_task now node rounds ts).1 ≡ some t
    → (later : ℕ) (node' : String) (rounds' : List (List Task → List Task)) → Spares t.id rounds'
    → let after = (claim_next_task now node rounds ts).0 in
      Taken now t.id after × (picks t.id (claim_next_task later node' rounds' after).1 ≡ false)
claim_exclusive now node rounds ts t h later node' rounds' spares =
    let taken = claim-Claimed now node rounds ts t h in
    (taken, claim-picks t.id later node' rounds' _ spares taken.none_queued)
