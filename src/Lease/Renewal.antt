-- ===== src/Lease/Renewal.antt =====
-- What a renewal gives, who may have it, and what it does to a revocation that it has not seen.
use server_cli.Common.{
  ℕ, ◌≤◌, ◌<◌, ℤ, String, str_eq, str_eq_iff, true, false, ◌≡◌, ◌≢◌, refl, sym, subst, ◌∙◌, Option,
  none, some, [], ◌∷◌, ◌++◌, find_row, find_row_holds, find_row-update_rows_self, update_rows,
  arith, keyed, ok_inj, Result, ok, err, not_found,
}
use server_cli.Lease.Model.{is_active, Lease, LeaseDb, LeaseEnv, Principal, write_lease}
use server_cli.Lease.Store.{lease_key, lease_by_id, update_lease, append_lease_event}
use server_cli.Lease.Requests.{at_most}
use server_cli.Lease.Holder.{
  Verdict, judge_renewal, carry_out, audit_denied, by_holder, renew, heartbeat, disconnect, renewed,
  next_expiry,
}
use server_cli.Lease.Holding.{by_holder_cases, judge_renewal_cases, next_expiry_le}

-- UpdateLease on the row that LeaseByID found leaves the row that was written.
pub updated_row :
    (db : LeaseDb) (id : String) (old new : Lease)
    → lease_by_id db id ≡ some old
    → new.id ≡ old.id
    → lease_by_id (update_lease db new) id ≡ some (write_lease new old)
unfolding lease_by_id update_lease
updated_row db id old new e same =
    subst
      (λ k.
        find_row (keyed lease_key id) (update_rows (keyed lease_key k) (write_lease new) db.leases)
        ≡ some (write_lease new old))
      (sym (same ∙ (str_eq_iff old.id id).0 (find_row_holds (keyed lease_key id) db.leases old e)))
      (find_row-update_rows_self (keyed lease_key id) (write_lease new) db.leases old (λ l. refl) e)

-- The lease `l` as a renewal of the principal found it, and as it left it.
pub record Renewal (env : LeaseEnv) (p : Principal) (asked : ℤ) (l l' : Lease) : Type 0 where
  pub own : l.access_token_id ≡ p.token_id
  pub was_active : is_active l.status ≡ true
  pub was_enabled : l.renewal_disabled ≡ false
  pub was_fresh : env.now < l.expires_at
  pub longer : l.expires_at < l'.expires_at
  pub capped : l'.expires_at ≤ l.absolute_expires_at
  pub within_token : (u : ℕ) → p.expires_at ≡ some u → l'.expires_at ≤ u
  pub renews : l' ≡ renewed env (next_expiry env l p asked) l

at_most_bound : (t u : ℕ) (o : Option ℕ) → o ≡ some u → at_most t o ≤ u
at_most_bound t u none e = ground (arith, e)
at_most_bound t u (some v) e = ground (arith, e)

-- What Renew answers and leaves when it succeeds.
abbrev pub Renews : LeaseDb → LeaseEnv → String → Principal → ℤ → LeaseDb × Result Lease → Type 0
Renews db env id p asked r =
    (l' : Lease)
    → r.1 ≡ ok l'
    → (l : Lease) × (lease_by_id db id ≡ some l)
      × Renewal env p asked l l'
      × (lease_by_id r.0 id ≡ some l')

renewal_written :
    (db : LeaseDb) (env : LeaseEnv) (id : String) (p : Principal) (asked : ℤ) (l : Lease)
    → lease_by_id db id ≡ some l
    → l.access_token_id ≡ p.token_id
    → Renews db env id p asked
        (carry_out db env l "renew_denied" "renewed" (judge_renewal env l p asked))
unfolding carry_out next_expiry append_lease_event lease_by_id str_eq update_lease
renewal_written db env id p asked l e own =
    judge_renewal_cases
      (λ v. Renews db env id p asked (carry_out db env l "renew_denied" "renewed" v)) env l p asked
      (λ x s l' h. ground (arith, h)) (λ l' h. ground (arith, h))
      (λ live enabled gate fresh longer l' h.
        let same : renewed env (next_expiry env l p asked) l ≡ l' = ok_inj h in
        subst
          (λ x.
            (m : Lease) × (lease_by_id db id ≡ some m)
            × Renewal env p asked m x
            × (lease_by_id (update_lease db (renewed env (next_expiry env l p asked) l)) id
                ≡ some x))
          same
          (
            l,
            e,
            record {
              own = own;
              was_active = live;
              was_enabled = enabled;
              was_fresh = ground (arith, fresh);
              longer = ground (arith, longer);
              capped = next_expiry_le env l p asked;
              within_token = λ u f. at_most_bound _ u p.expires_at f;
              renews = refl;
            },
            updated_row db id l (renewed env (next_expiry env l p asked) l) e refl,
          ))

-- A renewal that succeeds found a lease of the principal's own token, active, renewable and not
-- yet expired, and leaves it with a later expiry, at most the absolute one and at most the
-- token's, as the row of the table.
pub renew_extends :
    (db : LeaseDb) (env : LeaseEnv) (id : String) (p : Principal) (asked : ℤ)
    → Renews db env id p asked (renew db env id p asked)
unfolding renew
renew_extends db env id p asked =
    by_holder_cases (Renews db env id p asked) db env id p _ _ _ _ (λ l' h. ground (arith, h))
      (λ l e own. renewal_written db env id p asked l e own)

by_holder_stranger :
    (db : LeaseDb) (env : LeaseEnv) (id : String) (p : Principal) (stranger : LeaseDb → LeaseDb)
    (denied done : String) (judge : Lease → Verdict)
    → ((l : Lease) → lease_by_id db id ≡ some l → l.access_token_id ≢ p.token_id)
    → by_holder db env id p stranger denied done judge ≡ (stranger db, err not_found)
by_holder_stranger db env id p stranger denied done judge other =
    by_holder_cases (λ r. r ≡ (stranger db, err not_found)) db env id p stranger denied done judge
      refl (λ l e own. absurd (other l e own))

-- The database with the audit row of a stranger's renewal.
abbrev pub denied_to_stranger : LeaseDb → String → Principal → LeaseDb
denied_to_stranger db id p = record db {
  denials =
      db.denials
      ++ record {
        actor_id = p.name;
        node_id = "";
        action = "ai.lease_renew";
        lease_id = id;
        summary = "renewal denied: token does not own lease";
      }
        ∷ [];
}

-- To a principal whose token does not own the lease, or where there is no such lease, renewal,
-- heartbeat and disconnection all answer that it is not found. A renewal changes nothing but that it
-- is audited as denied, under the principal's name, and the other two change nothing.
pub strangers_refused :
    (db : LeaseDb) (env : LeaseEnv) (id : String) (p : Principal) (asked : ℤ)
    → ((l : Lease) → lease_by_id db id ≡ some l → l.access_token_id ≢ p.token_id)
    → (renew db env id p asked ≡ (denied_to_stranger db id p, err not_found))
      × (heartbeat db env id p ≡ (db, err not_found))
      × (disconnect db env id p ≡ (db, err not_found))
unfolding renew heartbeat disconnect audit_denied
strangers_refused db env id p asked other = (
  by_holder_stranger db env id p _ _ _ _ other,
  by_holder_stranger db env id p _ _ _ _ other,
  by_holder_stranger db env id p _ _ _ _ other,
)
