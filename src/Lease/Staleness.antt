-- ===== src/Lease/Staleness.antt =====
-- What the scheduled sweep leaves: no active lease that is past its expiry or has fallen silent.
use server_cli.Common.{
  ℕ, str_eq, str_eq_refl, str_eq_iff, Bool, true, false, ◌&&◌, ◌≡◌, refl, sym, subst, ◌∙◌, inl, inr,
  some, some_inj, List, [], ◌∷◌, All, All-impl, All-update_rows, All-update_rows_to, find_row,
  update_rows, Bool-cases, if_cases, ◌≤◌, stamp_before, second_of, stamp_before_second, arith,
  Unique, keyed, Covers, Covers-tail, select_rows-Covers, select_rows-finds,
}
use server_cli.Lease.Model.{is_active, Lease, LeaseDb, LeaseEnv, write_lease}
use server_cli.Lease.Store.{
  lease_key, active_with_id, as_expired, expire_lease, update_lease, append_lease_event,
  active_leases, expired_leases,
}
use server_cli.Lease.Nodes.{
  expire_each, disconnect_each, expire_stale_leases, is_silent, grace_cutoff, as_disconnected,
}
use server_cli.Lease.Sweeping.{expire_each-Grows}

abbrev pub is_stale_lease : ℕ → Lease → Bool
is_stale_lease now l = is_active l.status && stamp_before l.expires_at now

abbrev pub is_lost : ℕ → Lease → Bool
is_lost cutoff l = is_active l.status && is_silent cutoff l

expire_each_ends :
    (env : LeaseEnv) (ls : List Lease) (db : LeaseDb)
    → All (λ x. is_stale_lease env.now x ≡ true → Covers lease_key ls x) db.leases
    → All (λ x. is_stale_lease env.now x ≡ false) (expire_each db env ls).0.leases
unfolding expire_each append_lease_event expire_lease find_row
expire_each_ends env [] db a = All-impl db.leases (λ x h. ground (arith, h)) a
expire_each_ends env (l ∷ ls) db a =
    if_cases
      (λ (d : LeaseDb). All (λ x. is_stale_lease env.now x ≡ false) (expire_each d env ls).0.leases)
      (expire_lease db l.id).1 (λ h. expire_each_ends env ls _ next)
      (λ h. expire_each_ends env ls _ next)
  where
    elsewhere :
        (x : Lease)
        → active_with_id l.id x ≡ false
        → is_stale_lease env.now x ≡ true
        → str_eq l.id x.id ≡ false
    elsewhere x miss h = ground (arith, miss, h, str_eq_iff l.id x.id, str_eq_iff x.id l.id)

    next :
        All
          (λ x. is_stale_lease env.now x ≡ true → Covers lease_key ls x)
          (update_rows (active_with_id l.id) as_expired db.leases)
    next =
        All-update_rows_to (active_with_id l.id) as_expired db.leases
          (λ x hit c h. absurd (ground (arith, h)))
          (λ x miss c h. Covers-tail lease_key l ls x (elsewhere x miss h) (c h)) a

disconnect_each_keeps :
    (env : LeaseEnv) (ls : List Lease) (db : LeaseDb)
    → All (λ x. is_stale_lease env.now x ≡ false) db.leases
    → All (λ x. is_stale_lease env.now x ≡ false) (disconnect_each db env ls).0.leases
unfolding disconnect_each append_lease_event update_lease
disconnect_each_keeps env [] db a = a
disconnect_each_keeps env (l ∷ ls) db a =
    if_cases
      (λ (d : LeaseDb).
        All (λ x. is_stale_lease env.now x ≡ false) (disconnect_each d env ls).0.leases)
      (is_silent (grace_cutoff env) l)
      (λ h. disconnect_each_keeps env ls _ (
        All-update_rows (keyed lease_key l.id) (write_lease (as_disconnected l)) db.leases
          (λ x hit old. refl) a))
      (λ h. disconnect_each_keeps env ls db a)

-- The rows that are lost are among those that the loop has still to visit, as they stand.
disconnect_each_ends :
    (env : LeaseEnv) (ls : List Lease) (db : LeaseDb)
    → All
        (λ x. is_lost (grace_cutoff env) x ≡ true → find_row (keyed lease_key x.id) ls ≡ some x)
        db.leases
    → All (λ x. is_lost (grace_cutoff env) x ≡ false) (disconnect_each db env ls).0.leases
unfolding disconnect_each append_lease_event update_lease find_row
disconnect_each_ends env [] db a = All-impl db.leases (λ x h. ground (arith, h)) a
disconnect_each_ends env (l ∷ ls) db a =
    if_cases
      (λ (d : LeaseDb).
        All (λ x. is_lost (grace_cutoff env) x ≡ false) (disconnect_each d env ls).0.leases)
      (is_silent (grace_cutoff env) l)
      (λ silent. disconnect_each_ends env ls _ (
        All-update_rows_to (keyed lease_key l.id) (write_lease (as_disconnected l)) db.leases
          (λ x hit c h. absurd (ground (arith, h))) (λ x miss c h. later x miss (c h)) a))
      (λ loud.
        disconnect_each_ends env ls db (All-impl db.leases (λ x c h. spared x loud h (c h)) a))
  where
    later :
        (x : Lease)
        → keyed lease_key l.id x ≡ false
        → find_row (keyed lease_key x.id) (l ∷ ls) ≡ some x
        → find_row (keyed lease_key x.id) ls ≡ some x
    later x miss e = ground (arith, e, miss, str_eq_iff l.id x.id, str_eq_iff x.id l.id)

    spared :
        (x : Lease)
        → is_silent (grace_cutoff env) l ≡ false
        → is_lost (grace_cutoff env) x ≡ true
        → find_row (keyed lease_key x.id) (l ∷ ls) ≡ some x
        → find_row (keyed lease_key x.id) ls ≡ some x
    spared x loud h e = elim (Bool-cases (str_eq l.id x.id)) [
      | inl hit ↦
          let one : l ≡ x = some_inj (sym (rw hit refl) ∙ e) in
          let its : is_silent (grace_cutoff env) x ≡ false =
            subst (λ y. is_silent (grace_cutoff env) y ≡ false) one loud in
          absurd (ground (arith, h, its))
      | inr miss ↦ ground (arith, e, miss)
    ]

not_earlier :
    (now : ℕ) (l : Lease)
    → is_stale_lease now l ≡ false
    → is_active l.status ≡ true
    → second_of now ≤ second_of l.expires_at
not_earlier now l h live = stamp_before_second l.expires_at now (ground (arith, h, live))

-- After a sweep no active lease has a stored expiry that sorts before the time of the sweep, so none
-- has expired in an earlier second, and none has a last heartbeat from before the grace period. The
-- identifiers of the leases must be distinct.
pub sweep_leaves_none_stale :
    (db : LeaseDb) (env : LeaseEnv)
    → Unique lease_key db.leases
    → let db' = (expire_stale_leases db env).0 in
      All (λ l. is_stale_lease env.now l ≡ false) db'.leases
      × All (λ l. is_active l.status ≡ true → second_of env.now ≤ second_of l.expires_at) db'.leases
      × All (λ l. is_lost (grace_cutoff env) l ≡ false) db'.leases
unfolding expire_stale_leases expired_leases active_leases
sweep_leaves_none_stale db env unique =
    let first = expire_each db env (expired_leases db env.now) in
    let expired =
      expire_each_ends env (expired_leases db env.now) db
        (select_rows-Covers lease_key (is_stale_lease env.now) db.leases) in
    let distinct = (expire_each-Grows env (expired_leases db env.now) db).1 unique in
    let fresh = disconnect_each_keeps env (active_leases first.0 "") first.0 expired in
    (
      fresh,
      All-impl _ (not_earlier env.now) fresh,
      disconnect_each_ends env (active_leases first.0 "") first.0 (
          All-impl first.0.leases (λ x c h. c (ground (arith, h, str_eq_refl "")))
            (select_rows-finds lease_key _ first.0.leases distinct)),
    )
