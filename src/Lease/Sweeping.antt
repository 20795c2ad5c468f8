-- ===== src/Lease/Sweeping.antt =====
-- The scheduled sweep moves leases only as `Moves` says.
use server_cli.Common.{
  true, ◌≡◌, refl, List, [], ◌∷◌, if_cases, arith, Unique, All, All-select_rows, Standing,
  Unique-select_rows, select_rows-Standing, Standing-update_row,
}
use server_cli.Lease.Model.{is_active, Lease, LeaseDb, LeaseEnv, write_lease}
use server_cli.Lease.Store.{
  lease_key, lease_by_id, update_lease, append_lease_event, expire_lease, active_leases,
  expired_leases,
}
use server_cli.Lease.Nodes.{
  expire_each, disconnect_each, expire_stale_leases, is_silent, grace_cutoff, as_disconnected,
}
use server_cli.Lease.Moves.{
  LeasesGrow, LeasesGrow-refl, LeasesGrow-trans, update_lease-Grows, expire_lease-Grows,
}

-- The first loop of the sweep.
pub expire_each-Grows :
    (env : LeaseEnv) (ls : List Lease) (db : LeaseDb)
    → LeasesGrow db.leases (expire_each db env ls).0.leases
unfolding expire_each append_lease_event
expire_each-Grows env [] db = LeasesGrow-refl db.leases
expire_each-Grows env (l ∷ ls) db =
    if_cases (λ (d : LeaseDb). LeasesGrow db.leases (expire_each d env ls).0.leases)
      (expire_lease db l.id).1
      (λ h.
        LeasesGrow-trans db.leases _ _ (expire_lease-Grows db l.id) (expire_each-Grows env ls _))
      (λ h.
        LeasesGrow-trans db.leases _ _ (expire_lease-Grows db l.id) (expire_each-Grows env ls _))

-- The rows that the second loop goes through are active, and are the table's.
abbrev AllActive : List Lease → Type 0
AllActive = All (λ l. is_active l.status ≡ true)

abbrev Pending : LeaseDb → List Lease → Type 0
Pending db ls = Unique lease_key ls × Standing lease_key db.leases ls × AllActive ls

disconnect-Pending :
    (db : LeaseDb) (l : Lease) (ls : List Lease)
    → Pending db (l ∷ ls)
    → Pending (update_lease db (as_disconnected l)) ls
unfolding update_lease
disconnect-Pending db l ls (unique, standing, live) = (
  unique.1,
  Standing-update_row lease_key l.id (write_lease (as_disconnected l)) db.leases ls (λ x. refl)
      unique.0 standing.1,
  live.1,
)

disconnect_one-Grows :
    (db : LeaseDb) (l : Lease) (ls : List Lease)
    → Pending db (l ∷ ls)
    → LeasesGrow db.leases (update_lease db (as_disconnected l)).leases
unfolding lease_by_id
disconnect_one-Grows db l ls (unique, standing, live) =
    update_lease-Grows db l.id l (as_disconnected l) standing.0 refl (ground (arith, live.0))

disconnect_each-Grows :
    (env : LeaseEnv) (ls : List Lease) (db : LeaseDb)
    → Pending db ls
    → LeasesGrow db.leases (disconnect_each db env ls).0.leases
unfolding disconnect_each append_lease_event
disconnect_each-Grows env [] db pending = LeasesGrow-refl db.leases
disconnect_each-Grows env (l ∷ ls) db pending =
    if_cases (λ (d : LeaseDb). LeasesGrow db.leases (disconnect_each d env ls).0.leases)
      (is_silent (grace_cutoff env) l)
      (λ h.
        LeasesGrow-trans db.leases _ _ (disconnect_one-Grows db l ls pending)
          (disconnect_each-Grows env ls _ (disconnect-Pending db l ls pending)))
      (λ h. disconnect_each-Grows env ls db (pending.0.1, pending.1.1, pending.2.1))

active_leases-Pending :
    (db : LeaseDb) → Unique lease_key db.leases → Pending db (active_leases db "")
unfolding active_leases
active_leases-Pending db unique = (
  Unique-select_rows lease_key _ db.leases unique,
  select_rows-Standing lease_key _ db.leases unique,
  All-select_rows _ db.leases (λ l h. ground (arith, h)),
)

pub expire_stale_leases-Grows :
    (db : LeaseDb) (env : LeaseEnv)
    → Unique lease_key db.leases
    → LeasesGrow db.leases (expire_stale_leases db env).0.leases
unfolding expire_stale_leases
expire_stale_leases-Grows db env unique =
    let lapsed = expire_each db env (expired_leases db env.now) in
    let first = expire_each-Grows env (expired_leases db env.now) db in
    LeasesGrow-trans db.leases _ _ first (
      disconnect_each-Grows env (active_leases lapsed.0 "") lapsed.0
        (active_leases-Pending lapsed.0 (first.1 unique)))
