-- ===== src/Lease/Races.antt =====
-- A renewal and a revocation that run at once: each reads the row, and writes it back whole.
use server_cli.Common.{
  ℤ, String, str_eq, true, false, ◌≡◌, refl, sym, subst, ap, ◌∙◌, some, some_inj, ok_inj, arith, ok,
}
use server_cli.Lease.Model.{is_active, Lease, LeaseDb, LeaseEnv, Principal, write_lease}
use server_cli.Lease.Store.{lease_by_id, update_lease, append_lease_event, as_revoked}
use server_cli.Lease.Holder.{writes, judge_renewal, carry_out, renewed, next_expiry}
use server_cli.Lease.Admin.{revoke}
use server_cli.Lease.Administering.{change_active_cases}
use server_cli.Lease.Holding.{judge_renewal_cases}
use server_cli.Lease.Renewal.{updated_row}

-- A revocation that succeeds was of the lease that stands, and leaves it revoked.
revoked_row :
    (db : LeaseDb) (env : LeaseEnv) (id admin reason : String) (l v : Lease)
    → lease_by_id db id ≡ some l
    → (revoke db env id admin reason).1 ≡ ok v
    → (lease_by_id (revoke db env id admin reason).0 id ≡ some v)
      × (v ≡ as_revoked env.now reason l)
unfolding revoke lease_by_id append_lease_event
revoked_row db env id admin reason l v e =
    change_active_cases
      (λ r. r.1 ≡ ok v → (lease_by_id r.0 id ≡ some v) × (v ≡ as_revoked env.now reason l)) db env
      id admin "revoked" (as_revoked env.now reason) (λ x h. ground (arith, h))
      (λ m f live h.
        let same : as_revoked env.now reason m ≡ v = ok_inj h in
        let one : m ≡ l = some_inj (sym f ∙ e) in
        (
          updated_row db id m (as_revoked env.now reason m) f refl ∙ ap some same,
          sym same ∙ ap (as_revoked env.now reason) one,
        ))

-- A renewal that passed its guards leaves the lease active, whatever became of the row since.
renewal_reactivates :
    (db : LeaseDb) (env : LeaseEnv) (id : String) (p : Principal) (asked : ℤ) (l l' r : Lease)
    → lease_by_id db id ≡ some r
    → l.id ≡ r.id
    → judge_renewal env l p asked ≡ writes l'
    → (s : Lease) × (lease_by_id
          (carry_out db env l "renew_denied" "renewed" (judge_renewal env l p asked)).0
          id
        ≡ some s)
      × (is_active s.status ≡ true)
      × (s.revoked_at ≡ l.revoked_at)
unfolding carry_out next_expiry append_lease_event lease_by_id str_eq update_lease
renewal_reactivates db env id p asked l l' r e same =
    judge_renewal_cases
      (λ v.
        v ≡ writes l'
        → (s : Lease) × (lease_by_id (carry_out db env l "renew_denied" "renewed" v).0 id ≡ some s)
          × (is_active s.status ≡ true)
          × (s.revoked_at ≡ l.revoked_at))
      env l p asked (λ x s h. ground (arith, h)) (λ h. ground (arith, h))
      (λ live enabled gate fresh longer h. (
        write_lease (renewed env (next_expiry env l p asked) l) r,
        updated_row db id r (renewed env (next_expiry env l p asked) l) e same,
        live,
        refl,
      ))

-- If an administrator's revocation commits between the read and the write of a renewal, the lease
-- stands revoked after the revocation, and active again after the renewal, with no trace of it.
pub renewal_undoes_revocation :
    (db : LeaseDb) (env env' : LeaseEnv) (id admin reason : String) (p : Principal) (asked : ℤ)
    (l l' v : Lease)
    → lease_by_id db id ≡ some l
    → judge_renewal env l p asked ≡ writes l'
    → (revoke db env' id admin reason).1 ≡ ok v
    → let db' = (revoke db env' id admin reason).0 in
      (lease_by_id db' id ≡ some v)
      × (is_active v.status ≡ false)
      × ((s : Lease) × (lease_by_id
              (carry_out db' env l "renew_denied" "renewed" (judge_renewal env l p asked)).0
              id
            ≡ some s)
          × (is_active s.status ≡ true)
          × (s.revoked_at ≡ l.revoked_at))
renewal_undoes_revocation db env env' id admin reason p asked l l' v e judged done =
    let (stands, same) = revoked_row db env' id admin reason l v e done in
    (
      stands,
      subst (λ x. is_active x.status ≡ false) (sym same) refl,
      renewal_reactivates (revoke db env' id admin reason).0 env id p asked l l' v stands
          (sym (ap (λ (x : Lease). x.id) same)) judged,
    )
