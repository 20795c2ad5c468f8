-- ===== src/Deploy/Claims.antt =====
-- Which operation is executed next (ClaimQueuedDeploymentOperation of
-- backend/internal/store/deployment_store.go), and what production holds back.
use server_cli.Common.{
  ℕ, String, str_eq, str_eq_iff, str_eq_refl, true, false, if◌then◌else◌, if_cases, Bool-cases, ◌≡◌,
  refl, sym, subst, ◌∙◌, Option, none, some, some_inj, Option-cases, inl, inr, List, [], ◌∷◌, ◌++◌,
  find_row, find_row_holds, find_row-update_rows, keyed, Unique, arith, ok, find_row-append_new,
  none_not_some, is_some, is_some-none,
}
use mathlib.Core.Option
use server_cli.Task.Model.{Env}
use server_cli.Deploy.Model.{awaiting_confirmation, Operation, DeployDb, DeployExternal}
use server_cli.Deploy.Store.{
  is_queued, operation_key, operation_by_id, next_queued, as_running, claim_queued,
  insert_operation, created_before,
}
use server_cli.Deploy.Service.{CreateOperationInput, needs_confirmation, create_operation}
use server_cli.Deploy.Creating.{create_operation_outcome}

found_later :
    (o p : Operation) (os : List Operation)
    → find_row (keyed operation_key o.id) os ≡ none
    → find_row (keyed operation_key p.id) os ≡ some p
    → find_row (keyed operation_key p.id) (o ∷ os) ≡ some p
unfolding find_row
found_later o p os new h = elim (Bool-cases (str_eq o.id p.id)) [
  | inl same ↦
      let gone : find_row (keyed operation_key p.id) os ≡ none =
        subst (λ i. find_row (keyed operation_key i) os ≡ none) ((str_eq_iff o.id p.id).0 same)
          new in
      absurd (none_not_some (sym gone ∙ h))
  | inr other ↦ rw other h
]

found_first :
    (o : Operation) (os : List Operation) → find_row (keyed operation_key o.id) (o ∷ os) ≡ some o
unfolding find_row
found_first o os = rw (str_eq_refl o.id) refl

abbrev Next : List Operation → Option Operation → Type 0
Next os next =
    (o : Operation)
    → next ≡ some o
    → (find_row (keyed operation_key o.id) os ≡ some o) × (is_queued o.status ≡ true)

Next-self :
    (o : Operation) (os : List Operation) → is_queued o.status ≡ true → Next (o ∷ os) (some o)
Next-self o os q p e =
    let same : o ≡ p = some_inj e in
    subst
      (λ r. (find_row (keyed operation_key r.id) (o ∷ os) ≡ some r) × (is_queued r.status ≡ true))
      same (found_first o os, q)

Next-later :
    (o : Operation) (os : List Operation) (next : Option Operation)
    → find_row (keyed operation_key o.id) os ≡ none
    → Next os next
    → Next (o ∷ os) next
Next-later o os next new f p e = let (h, q) = f p e in (found_later o p os new h, q)

-- The operation that is next stands in the table and is queued.
next_queued-Next : (os : List Operation) → Unique operation_key os → Next os (next_queued os)
unfolding next_queued
next_queued-Next [] d = λ o h. absurd (none_not_some h)
next_queued-Next (o ∷ os) d =
    if_cases (Next (o ∷ os)) (is_queued o.status)
      (λ q. earlier (next_queued os) q (next_queued-Next os d.1))
      (λ q. Next-later o os (next_queued os) d.0 (next_queued-Next os d.1))
  where
    earlier :
        (later : Option Operation)
        → is_queued o.status ≡ true
        → Next os later
        → Next (o ∷ os) (elim later as (λ _. Option Operation) [
          | none ↦ some o
          | some p ↦ if created_before p o then some p else some o
        ])
    earlier none q f = Next-self o os q
    earlier (some p) q f =
        if_cases (Next (o ∷ os)) (created_before p o) (λ h. Next-later o os (some p) d.0 f)
          (λ h. Next-self o os q)

new_id_free :
    (db db1 : DeployDb) (o : Operation)
    → insert_operation db o ≡ ok db1
    → find_row (keyed operation_key o.id) db.operations ≡ none
unfolding insert_operation operation_by_id
new_id_free db db1 o h = elim (Bool-cases (is_some (operation_by_id db o.id))) [
  | inl taken ↦ absurd (ground (arith, taken))
  | inr free ↦ is_some-none _ free
]

-- No operation that is not queued is changed by a claim.
pub claim_keeps :
    (db : DeployDb) (now : ℕ) (id : String) (o : Operation)
    → Unique operation_key db.operations
    → operation_by_id db id ≡ some o
    → is_queued o.status ≡ false
    → operation_by_id (claim_queued db now).0 id ≡ some o
unfolding claim_queued operation_by_id
claim_keeps db now id o d h other = elim (Option-cases (next_queued db.operations)) [
  | inl e ↦ rw (e, claim_queued) h
  | inr (p, e) ↦
      let (there, waits) = next_queued-Next db.operations d p e in
      let kept =
        find_row-update_rows (keyed operation_key id) (keyed operation_key p.id) (as_running now)
          db.operations (λ x. refl) in
      let apart : keyed operation_key p.id o ≡ false = not_next id o p h other there waits in
      rw (e, claim_queued) (kept ∙ rw (h, Option.map, apart) refl)
]
  where
    not_next :
        (id : String) (o p : Operation)
        → find_row (keyed operation_key id) db.operations ≡ some o
        → is_queued o.status ≡ false
        → find_row (keyed operation_key p.id) db.operations ≡ some p
        → is_queued p.status ≡ true
        → keyed operation_key p.id o ≡ false
    not_next id o p h other there waits = elim (Bool-cases (str_eq o.id p.id)) [
      | inl same ↦
          let at_id : o.id ≡ id =
            (str_eq_iff o.id id).0 (find_row_holds (keyed operation_key id) _ o h) in
          let at_p : o.id ≡ p.id = (str_eq_iff o.id p.id).0 same in
          let found : find_row (keyed operation_key p.id) db.operations ≡ some o =
            subst (λ i. find_row (keyed operation_key i) db.operations ≡ some o) (sym at_id ∙ at_p)
              h in
          let equal : o ≡ p = some_inj (sym found ∙ there) in
          let waits_too : is_queued o.status ≡ true = rw equal waits in absurd (ground arith)
      | inr apart ↦ apart
    ]

inserted_found :
    (db db' : DeployDb) (o : Operation)
    → db'.operations ≡ db.operations ++ o ∷ []
    → (db1 : DeployDb) × (insert_operation db o ≡ ok db1)
    → operation_by_id db' o.id ≡ some o
unfolding operation_by_id
inserted_found db db' o e (db1, ins) = rw e (
    find_row-append_new (keyed operation_key o.id) db.operations o (new_id_free db db1 o ins)
      (str_eq_refl o.id))

module _ {Args : Type 0} (ext : DeployExternal Args) where
  -- In production an installation, update or restoration that CreateOperation returns awaits its
  -- confirmation, and no claim takes it: its row is the same after one, where no two operations
  -- share an identifier.
  pub production_waits :
      (db db' : DeployDb) (env : Env) (actor_id : String) (inp : CreateOperationInput)
      (o : Operation) (now : ℕ)
      → ext.is_production ≡ true
      → create_operation ext db env actor_id inp ≡ (db', ok o)
      → needs_confirmation o.action ≡ true
      → Unique operation_key db'.operations
      → (o.status ≡ awaiting_confirmation)
        × (operation_by_id (claim_queued db' now).0 o.id ≡ some o)
  production_waits db db' env actor_id inp o now prod made needs d =
      let (ts, planned, created) = create_operation_outcome ext db db' env actor_id inp o made in
      let held : o.status ≡ awaiting_confirmation = planned.status ∙ rw (prod, needs) refl in
      let there : operation_by_id db' o.id ≡ some o =
        inserted_found db db' o created.operations created.inserted in
      (held, claim_keeps db' now o.id o d there (rw held refl))
