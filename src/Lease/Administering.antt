-- ===== src/Lease/Administering.antt =====
-- An administrator's operations move leases only as `Moves` says.
use server_cli.Common.{
  String, str_eq, true, ◌≡◌, refl, inl, inr, some, List, [], ◌∷◌, Option-cases, if_cases, arith,
  Error, Result, ok, err, not_found, terminal,
}
use server_cli.Lease.Model.{is_active, Lease, LeaseDb, LeaseEnv, write_lease}
use server_cli.Lease.Store.{
  lease_by_id, update_lease, append_lease_event, as_revoked, revoke_token_and_leases,
  reject_pending_requests, revoke_untokenized, expire_overdue, active_leases,
}
use server_cli.Lease.Admin.{
  change_active, revoke, disable_renewal, without_renewal, protect_lease, revoke_each, revoke_all,
  knows_node, log_revoked, revoke_token_cascade, migrate_legacy,
}
use server_cli.Lease.Moves.{
  Moves, LeasesGrow, LeasesGrow-refl, LeasesGrow-trans, update_lease-Grows, revoke_rows-Grows,
  untokenized_rows-Grow, overdue_rows-Grow, leases-append_event,
}

-- A change of an active lease is refused with the database unchanged, or made.
pub change_active_cases {ℓ} :
    (P : LeaseDb × Result Lease → Type ℓ) (db : LeaseDb) (env : LeaseEnv) (id admin event : String)
    (change : Lease → Lease)
    → ((e : Error) → P (db, err e))
    → ((l : Lease)
        → lease_by_id db id ≡ some l
        → is_active l.status ≡ true
        → P (
          append_lease_event (update_lease db (change l)) env.now l.id event "admin" admin,
          ok (change l),
        ))
    → P (change_active db env id admin event change)
unfolding change_active
change_active_cases P db env id admin event change refuse accept =
    elim (Option-cases (lease_by_id db id)) [
      | inl e ↦ rw (e, change_active) (refuse not_found)
      | inr (l, e) ↦
          rw (e, change_active)
            (if_cases P (is_active l.status) (accept l e) (λ h. refuse terminal))
    ]

change_active-Grows :
    (db : LeaseDb) (env : LeaseEnv) (id admin event : String) (change : Lease → Lease)
    → ((l : Lease) → (change l).id ≡ l.id)
    → ((l : Lease) → is_active l.status ≡ true → Moves l (write_lease (change l) l))
    → LeasesGrow db.leases (change_active db env id admin event change).0.leases
change_active-Grows db env id admin event change keep move =
    change_active_cases (λ r. LeasesGrow db.leases r.0.leases) db env id admin event change
      (λ e. LeasesGrow-refl db.leases)
      (λ l e live.
        rw (leases-append_event (update_lease db (change l)) env.now l.id event "admin" admin)
          (update_lease-Grows db id l (change l) e (keep l) (move l live)))

pub revoke-Grows :
    (db : LeaseDb) (env : LeaseEnv) (id admin reason : String)
    → LeasesGrow db.leases (revoke db env id admin reason).0.leases
unfolding revoke
revoke-Grows db env id admin reason =
    change_active-Grows db env id admin "revoked" (as_revoked env.now reason) (λ l. refl)
      (λ l live. ground (arith, live))

pub disable_renewal-Grows :
    (db : LeaseDb) (env : LeaseEnv) (id admin : String)
    → LeasesGrow db.leases (disable_renewal db env id admin).0.leases
unfolding disable_renewal
disable_renewal-Grows db env id admin =
    change_active-Grows db env id admin "renewal_disabled" without_renewal (λ l. refl)
      (λ l live. ground (arith, live))

pub protect_lease-Grows :
    (db : LeaseDb) (env : LeaseEnv) (id admin : String)
    → LeasesGrow db.leases (protect_lease db env id admin).0.leases
unfolding protect_lease
protect_lease-Grows db env id admin = elim (Option-cases (lease_by_id db id)) [
  | inl e ↦ rw (e, protect_lease) (LeasesGrow-refl db.leases)
  | inr (l, e) ↦
      rw (e, protect_lease)
        (rw (leases-append_event (update_lease db _) env.now l.id "protected" "admin" admin)
          (update_lease-Grows db id l _ e refl (ground arith)))
]

revoke_each-Grows :
    (db : LeaseDb) (env : LeaseEnv) (admin reason : String) (ls : List Lease)
    → LeasesGrow db.leases (revoke_each db env admin reason ls).0.leases
unfolding revoke_each
revoke_each-Grows db env admin reason [] = LeasesGrow-refl db.leases
revoke_each-Grows db env admin reason (l ∷ ls) =
    LeasesGrow-trans db.leases _ _ (revoke-Grows db env l.id admin reason)
      (revoke_each-Grows (revoke db env l.id admin reason).0 env admin reason ls)

pub revoke_all-Grows :
    (db : LeaseDb) (env : LeaseEnv) (node admin reason : String)
    → LeasesGrow db.leases (revoke_all db env node admin reason).0.leases
unfolding revoke_all
revoke_all-Grows db env node admin reason =
    if_cases P (str_eq node "") (λ h. done)
      (λ h. if_cases P (knows_node db node) (λ k. done) (λ k. LeasesGrow-refl db.leases))
  where
    P : LeaseDb × Result (List Lease) → Type 0
    P r = LeasesGrow db.leases r.0.leases

    done : LeasesGrow db.leases (revoke_each db env admin reason (active_leases db node)).0.leases
    done = revoke_each-Grows db env admin reason (active_leases db node)

pub leases-log_revoked :
    (db : LeaseDb) (env : LeaseEnv) (admin : String) (ls : List Lease)
    → (log_revoked db env admin ls).leases ≡ db.leases
unfolding log_revoked append_lease_event
leases-log_revoked db env admin [] = refl
leases-log_revoked db env admin (l ∷ ls) = leases-log_revoked _ env admin ls

pub revoke_token_cascade-Grows :
    (db : LeaseDb) (env : LeaseEnv) (token admin reason : String)
    → LeasesGrow db.leases (revoke_token_cascade db env token admin reason).0.leases
unfolding revoke_token_cascade revoke_token_and_leases
revoke_token_cascade-Grows db env token admin reason =
    rw (leases-log_revoked _ env admin _) (revoke_rows-Grows env.now reason _ db.leases)

pub migrate_legacy-Grows :
    (db : LeaseDb) (env : LeaseEnv) → LeasesGrow db.leases (migrate_legacy db env).leases
unfolding migrate_legacy expire_overdue revoke_untokenized reject_pending_requests
migrate_legacy-Grows db env =
    LeasesGrow-trans db.leases _ _ (untokenized_rows-Grow env.now _ db.leases)
      (overdue_rows-Grow env.now _)
